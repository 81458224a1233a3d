-- ===== src/Scheduling.antt =====
-- app/scheduling.py: `next_fire_time` and one tick of `dispatch_due_schedules`. The cron trigger with
-- its time zones, the advisory lock and what the calls draw are arguments.
pub mod Progress
mod Examples
use leakcheck_hub.Prelude.{
  ◌>>=◌, ℕ, suc, ◌+◌, ◌-◌, Bool, true, false, ◌&&◌, Option, none, some, List, [], ◌∷◌, Text, codes,
  ltb, leb, ◌==◌, if◌then◌else◌, update, select, leads, Outcome, ok, err, Error,
}
use leakcheck_hub.Models.{
  User, Schedule, ScheduleKind, BatchTarget, Finding, Notification, ScanBatch, seconds,
}
use leakcheck_hub.Batches.Tables
use leakcheck_hub.Batches.Creation
use leakcheck_hub.Batches.Creation.{Draws, TargetValue, create_batch}
use leakcheck_hub.Notifications.Outbox
use leakcheck_hub.Notifications.Digest.{enqueue_digest_notifications}

-- `next_fire` is the trigger of a cron expression in a zone, asked for its first occurrence from an
-- instant on: an error where either does not parse, none where there is none.
pub record Library : Type 0 where
  pub next_fire : (cron timezone : Text) → (reference : ℕ) → Outcome (Option ℕ)
  pub batches : Creation.Library
  pub outbox : Outbox.Library
  pub order_by_id : List User → List User
  pub iso_date : ℕ → Text

pub record World : Type 0 where
  pub schedules : List Schedule
  pub work : Tables.Tables
  pub findings : List Finding
  pub notifications : List Notification

-- What the calls for one schedule draw.
pub record Draw : Type 0 where
  pub batch : Draws
  pub notification_id : ℕ → ℕ
  pub clock : ℕ

occurrence : Outcome (Option ℕ) → Outcome ℕ
occurrence (ok (some at)) = ok at
occurrence (ok none) = err Error.value_error
occurrence (err e) = err Error.value_error

-- `next_fire_time`; a ScheduleValidationError is a ValueError.
pub next_fire_time : Library → (cron timezone : Text) → ℕ → Outcome ℕ
unfolding occurrence
next_fire_time lib cron timezone now = occurrence (lib.next_fire cron timezone (now + 1))

abbrev pub is_due : ℕ → Schedule → Bool
is_due tick s = s.enabled && leb s.next_run_at tick

-- `ORDER BY next_run_at, id`
insert_row : Schedule → List Schedule → List Schedule
insert_row s [] = s ∷ []
insert_row s (t ∷ ts) =
    let rest = insert_row s ts in
    if leads (λ (r : Schedule). r.next_run_at) (λ r. r.id) s t then s ∷ t ∷ ts else t ∷ rest

pub ordered : List Schedule → List Schedule
unfolding insert_row
ordered [] = []
ordered (s ∷ ss) = insert_row s (ordered ss)

abbrev pub put : Schedule → World → World
put s w = record w { schedules = update (λ r. r.id == s.id) (λ _. s) w.schedules }

-- The call that a schedule stands for: the batch that it opened, and what it wrote.
scan : Library → Draw → Schedule → BatchTarget → World → Outcome (Option ℕ × World)
scan lib draw s target_type w =
    create_batch lib.batches draw.batch s.created_by target_type (TargetValue.path s.target) w.work
    >>= λ p. ok (some p.0.id, record w { work = p.1 })

pub fire : Library → Draw → ℕ → Schedule → ScheduleKind → World → Outcome (Option ℕ × World)
unfolding scan
fire lib draw tick s ScheduleKind.scan_ou w = scan lib draw s BatchTarget.ou w
fire lib draw tick s ScheduleKind.scan_domain w = scan lib draw s BatchTarget.domain w
fire lib draw tick s ScheduleKind.digest w =
    enqueue_digest_notifications lib.outbox lib.order_by_id lib.iso_date draw.notification_id
      draw.clock tick w.work.users w.work.subjects w.findings w.notifications
    >>= λ p. ok (none, record w { notifications = p.1 })

or_last : Option ℕ → Option ℕ → Option ℕ
or_last none last = last
or_last (some id) last = some id

-- A schedule that ran, and one whose call raised ValueError: no user matched its target.
ran : ℕ → Option ℕ → Schedule → Schedule
unfolding or_last
ran tick batch_id s = record s {
  last_batch_id = or_last batch_id s.last_batch_id;
  last_run_at = some tick;
  last_error = none;
}

settled : ℕ → Schedule → World → Outcome (Option ℕ × World) → Outcome (Bool × World)
unfolding ran
settled tick s w (ok (batch_id, w')) = ok (true, put (ran tick batch_id s) w')
settled tick s w (err Error.value_error) =
    ok
      (false, put (record s { last_error = some (codes "batch target matched no active users") }) w)
settled tick s w (err e) = err e

-- A schedule whose next run is set already.
pub run_moved :
    Library → Draw → (tick scheduled_for : ℕ) → Schedule → World → Outcome (Bool × World)
unfolding settled fire
run_moved lib draw tick scheduled_for s w =
    if ltb (seconds s.misfire_grace_seconds) (tick - scheduled_for)
    then ok (false, put (record s { last_error = some (codes "misfire grace exceeded") }) w)
    else settled tick s w (fire lib draw tick s s.kind w)

pub run_schedule : Library → Draw → ℕ → Schedule → World → Outcome (Bool × World)
unfolding run_moved next_fire_time
run_schedule lib draw tick s w = next_fire_time lib s.cron s.timezone tick >>= λ at.
    run_moved lib draw tick s.next_run_at (record s { next_run_at = at }) w

-- The loop, with the number of the schedules dispatched so far and of those before this one.
pub run_all :
    Library → (ℕ → Draw) → (tick n dispatched : ℕ) → List Schedule → World → Outcome (ℕ × World)
unfolding run_schedule
run_all lib draws tick n dispatched [] w = ok (dispatched, w)
run_all lib draws tick n dispatched (s ∷ ss) w = run_schedule lib (draws n) tick s w >>= λ one.
    run_all lib draws tick (suc n) (if one.0 then suc dispatched else dispatched) ss one.1

-- `dispatch_due_schedules`
pub dispatch_due_schedules :
    Library → (ℕ → Draw) → (leader : Bool) → (tick : ℕ) → World → Outcome (ℕ × World)
unfolding run_all ordered select
dispatch_due_schedules lib draws false tick w = ok (0, w)
dispatch_due_schedules lib draws true tick w =
    run_all lib draws tick 0 0 (ordered (select (is_due tick) w.schedules)) w
