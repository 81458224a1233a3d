-- ===== src/Scheduling/Examples.antt =====
-- One schedule that is due but too late to run, and a trigger that answers with its reference.
use leakcheck_hub.Prelude.{
  ℕ, false, true, none, some, [], ◌∷◌, codes, ok, All, select, ◌≡◌, refl, arith,
}
use leakcheck_hub.Models.{Schedule, ScheduleKind}
use leakcheck_hub.Batches.Sample.{sample_db, sample_lib, sample_draws}
use leakcheck_hub.Scheduling.{
  Library, World, Draw, occurrence, next_fire_time, is_due, insert_row, ordered, put, run_moved,
  run_schedule, run_all, dispatch_due_schedules,
}
use leakcheck_hub.Scheduling.Progress.{IsForward, dispatch_due_schedules-is_due}

abbrev late_schedule : Schedule
late_schedule = record {
  id = 3;
  kind = ScheduleKind.scan_ou;
  target = codes "/Staff";
  cron = codes "0 3 * * *";
  timezone = codes "UTC";
  enabled = true;
  misfire_grace_seconds = 1;
  last_run_at = none;
  last_batch_id = none;
  next_run_at = 100;
  last_error = none;
  created_by = 1;
  created_at = 0;
}

abbrev lib : Library
lib = record {
  next_fire = λ cron timezone reference. ok (some reference);
  batches = sample_lib;
  outbox = record { sha256 = λ b. b; uuid_text = λ k. k ∷ []; uuid_bytes = λ k. k ∷ [] };
  order_by_id = λ us. us;
  iso_date = λ now. codes "2026-01-01";
}

abbrev draws : ℕ → Draw
draws n = record { batch = sample_draws; notification_id = λ k. k; clock = 0 }

abbrev before : World
before = record {
  schedules = late_schedule ∷ [];
  work = sample_db;
  findings = [];
  notifications = [];
}

abbrev after : World
after =
    put
      (record (late_schedule) {
        next_run_at = 5000001;
        last_error = some (codes "misfire grace exceeded");
      })
      before

sample_tick : dispatch_due_schedules lib draws true 5000000 before ≡ ok (0, after)
unfolding dispatch_due_schedules run_all run_schedule run_moved next_fire_time occurrence ordered
    insert_row select
sample_tick = refl

forward : IsForward lib
forward cron timezone reference at h = let same : reference ≡ at = cc in omega arith

dispatch_due_schedules-is_due_example : All (λ r. is_due 5000000 r ≡ false) after.schedules
dispatch_due_schedules-is_due_example =
    dispatch_due_schedules-is_due lib forward draws 5000000 0 before after sample_tick
