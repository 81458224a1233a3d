-- ===== src/Scheduling/Progress.antt =====
-- app/scheduling.py: what a tick leaves due.
use leakcheck_hub.Prelude.{
  ℕ, suc, ◌+◌, ◌-◌, ◌≤◌, Bool, true, false, ◌||◌, Option, none, some, List, [], ◌∷◌, Text, codes,
  ltb, leb, ◌==◌, if◌then◌else◌, update, select, leads, mem, All, Outcome, ok, err, Error, ◌≡◌,
  refl, sym, ◌∙◌, ap, subst, arith, inl, inr, Bool-cases, ok-injective, >>=-eq-ok,
}
use leakcheck_hub.Models.{Schedule, ScheduleKind, BatchTarget, seconds}
use leakcheck_hub.Batches.Creation.{TargetValue, create_batch}
use leakcheck_hub.Notifications.Digest.{enqueue_digest_notifications}
use leakcheck_hub.Scheduling.{
  Library, World, Draw, occurrence, next_fire_time, is_due, insert_row, ordered, put, fire, scan,
  ran, settled, run_moved, run_schedule, run_all, dispatch_due_schedules,
}

abbrev ids : List Schedule → List ℕ
ids [] = []
ids (s ∷ ss) = s.id ∷ ids ss

-- The rows that are due are among those that are still to be run.
Pending : ℕ → List Schedule → List Schedule → Type 0
Pending tick rows todo =
    All (λ (r : Schedule). is_due tick r ≡ true → mem r.id (ids todo) ≡ true) rows

mem-insert_row :
    (k : ℕ) (s : Schedule) (ss : List Schedule)
    → mem k (ids (insert_row s ss)) ≡ (k == s.id || mem k (ids ss))
unfolding insert_row mem
mem-insert_row k s [] = refl
mem-insert_row k s (t ∷ ts) =
    elim (Bool-cases (leads (λ (r : Schedule). r.next_run_at) (λ r. r.id) s t)) [
      | inl e ↦ rw e refl
      | inr e ↦ rw e ground (arith, mem-insert_row k s ts)
    ]

mem-ordered : (k : ℕ) (ss : List Schedule) → mem k (ids (ordered ss)) ≡ mem k (ids ss)
unfolding ordered mem
mem-ordered k [] = refl
mem-ordered k (s ∷ ss) = mem-insert_row k s (ordered ss) ∙ rw (mem-ordered k ss) refl

Pending-cons :
    (tick : ℕ) (s : Schedule) (rows todo : List Schedule)
    → Pending tick rows todo
    → Pending tick rows (s ∷ todo)
unfolding Pending mem
Pending-cons tick s [] todo h = tt
Pending-cons tick s (r ∷ rows) todo h =
    ((λ e. let there = h.0 e in ground arith), Pending-cons tick s rows todo h.1)

Pending-select : (tick : ℕ) (rows : List Schedule) → Pending tick rows (select (is_due tick) rows)
unfolding Pending select mem
Pending-select tick [] = tt
Pending-select tick (r ∷ rows) = elim (Bool-cases (is_due tick r)) [
  | inl e ↦
      let taken : select (is_due tick) (r ∷ rows) ≡ r ∷ select (is_due tick) rows = rw e refl in
      subst (Pending tick (r ∷ rows)) (sym taken) (
        (λ _. ground arith),
        Pending-cons tick r rows (select (is_due tick) rows) (Pending-select tick rows),
      )
  | inr e ↦
      let left : select (is_due tick) (r ∷ rows) ≡ select (is_due tick) rows = rw e refl in
      subst (Pending tick (r ∷ rows)) (sym left) ((λ due. absurd cc), Pending-select tick rows)
]

Pending-ordered :
    (tick : ℕ) (rows todo : List Schedule)
    → Pending tick rows todo
    → Pending tick rows (ordered todo)
unfolding Pending
Pending-ordered tick [] todo h = tt
Pending-ordered tick (r ∷ rows) todo h =
    ((λ e. mem-ordered r.id todo ∙ h.0 e), Pending-ordered tick rows todo h.1)

-- A row that is not due takes the place of the first one that is to be run.
Pending-put :
    (tick : ℕ) (s : Schedule) (k : ℕ) (rows todo : List Schedule)
    → is_due tick s ≡ false
    → s.id ≡ k
    → (t : Schedule) → t.id ≡ k
    → Pending tick rows (t ∷ todo)
    → Pending tick (update (λ r. r.id == s.id) (λ _. s) rows) todo
unfolding Pending update mem
Pending-put tick s k [] todo later same t here h = tt
Pending-put tick s k (r ∷ rows) todo later same t here h =
    let rest = Pending-put tick s k rows todo later same t here h.1 in
    elim (Bool-cases (r.id == s.id)) [
      | inl e ↦ rw e ((λ due. absurd cc), rest)
      | inr e ↦ rw e ((λ due. let there = h.0 due in ground arith), rest)
    ]

Pending-nil :
    (tick : ℕ) (rows : List Schedule) → Pending tick rows [] → All (λ r. is_due tick r ≡ false) rows
unfolding Pending mem
Pending-nil tick [] h = tt
Pending-nil tick (r ∷ rows) h = (
  elim (Bool-cases (is_due tick r)) [ inl e ↦ let no = h.0 e in absurd cc | inr e ↦ e ],
  Pending-nil tick rows h.1,
)

-- A trigger does not answer with an instant before the one it is asked for.
abbrev pub IsForward : Library → Type 0
IsForward lib =
    (cron timezone : Text) (reference at : ℕ)
    → lib.next_fire cron timezone reference ≡ ok (some at)
    → reference ≤ at

module _ (lib : Library) (forward : IsForward lib) where
  next_fire_time-later :
      (cron timezone : Text) (now at : ℕ)
      → next_fire_time lib cron timezone now ≡ ok at
      → leb at now ≡ false
  unfolding next_fire_time
  next_fire_time-later cron timezone now at h = go (lib.next_fire cron timezone (now + 1)) refl h
    where
      go :
          (o : Outcome (Option ℕ))
          → lib.next_fire cron timezone (now + 1) ≡ o
          → occurrence o ≡ ok at
          → leb at now ≡ false
      go (ok (some t)) e h =
          let ahead = forward cron timezone (now + 1) t e in let same : t ≡ at = cc in ground arith
      go (ok none) e h = absurd cc
      go (err x) e h = absurd cc

  -- What a call leaves of the schedules: the row of this one, put in its place.
  fire-schedules :
      (draw : Draw) (tick : ℕ) (s : Schedule) (kind : ScheduleKind) (w w' : World) (b : Option ℕ)
      → fire lib draw tick s kind w ≡ ok (b, w')
      → w'.schedules ≡ w.schedules
  unfolding fire scan
  fire-schedules draw tick s ScheduleKind.scan_ou w w' b h =
      let call =
        create_batch lib.batches draw.batch s.created_by BatchTarget.ou (TargetValue.path s.target)
          w.work in
      let (p, _, out) = >>=-eq-ok call _ h in ap (λ q. q.1.schedules) (sym (ok-injective _ _ out))
  fire-schedules draw tick s ScheduleKind.scan_domain w w' b h =
      let call =
        create_batch lib.batches draw.batch s.created_by BatchTarget.domain
          (TargetValue.path s.target) w.work in
      let (p, _, out) = >>=-eq-ok call _ h in ap (λ q. q.1.schedules) (sym (ok-injective _ _ out))
  fire-schedules draw tick s ScheduleKind.digest w w' b h =
      let call =
        enqueue_digest_notifications lib.outbox lib.order_by_id lib.iso_date draw.notification_id
          draw.clock tick w.work.users w.work.subjects w.findings w.notifications in
      let (p, _, out) = >>=-eq-ok call _ h in ap (λ q. q.1.schedules) (sym (ok-injective _ _ out))

  settled-Pending :
      (draw : Draw) (tick : ℕ) (t s : Schedule) (todo : List Schedule) (w w' : World)
      (ran_it : Bool) (o : Outcome (Option ℕ × World))
      → fire lib draw tick s s.kind w ≡ o
      → is_due tick s ≡ false
      → t.id ≡ s.id
      → settled tick s w o ≡ ok (ran_it, w')
      → Pending tick w.schedules (t ∷ todo)
      → Pending tick w'.schedules todo
  unfolding settled ran
  settled-Pending draw tick t s todo w w' ran_it (ok (b, v)) e later same h i =
      subst (λ rows. Pending tick rows todo) (ap (λ q. q.1.schedules) (ok-injective _ _ h))
        (subst (λ rows. Pending tick (update (λ r. r.id == s.id) (λ _. ran tick b s) rows) todo)
          (sym (fire-schedules draw tick s s.kind w v b e))
          (Pending-put tick (ran tick b s) s.id w.schedules todo later refl t same i))
  settled-Pending draw tick t s todo w w' ran_it (err Error.value_error) e later same h i =
      subst (λ rows. Pending tick rows todo) (ap (λ q. q.1.schedules) (ok-injective _ _ h))
        (Pending-put tick
          (record s { last_error = some (codes "batch target matched no active users") }) s.id
          w.schedules todo later refl t same i)
  settled-Pending draw tick t s todo w w' ran_it (err x) e later same h i = absurd cc

  run_moved-Pending :
      (draw : Draw) (tick scheduled_for : ℕ) (t s : Schedule) (todo : List Schedule) (w w' : World)
      (ran_it : Bool)
      → is_due tick s ≡ false
      → t.id ≡ s.id
      → run_moved lib draw tick scheduled_for s w ≡ ok (ran_it, w')
      → Pending tick w.schedules (t ∷ todo)
      → Pending tick w'.schedules todo
  unfolding run_moved
  run_moved-Pending draw tick scheduled_for t s todo w w' ran_it later same h i =
      decided (ltb (seconds s.misfire_grace_seconds) (tick - scheduled_for)) h
    where
      missed : Schedule
      missed = record s { last_error = some (codes "misfire grace exceeded") }

      decided :
          (late : Bool)
          → (if late
              then ok (false, put missed w)
              else settled tick s w (fire lib draw tick s s.kind w))
            ≡ ok (ran_it, w')
          → Pending tick w'.schedules todo
      decided true e =
          subst (λ rows. Pending tick rows todo) (ap (λ q. q.1.schedules) (ok-injective _ _ e))
            (Pending-put tick missed s.id w.schedules todo later refl t same i)
      decided false e =
          settled-Pending draw tick t s todo w w' ran_it (fire lib draw tick s s.kind w) refl later
            same e i

  run_all-Pending :
      (draws : ℕ → Draw) (tick n dispatched m : ℕ) (todo : List Schedule) (w w' : World)
      → run_all lib draws tick n dispatched todo w ≡ ok (m, w')
      → Pending tick w.schedules todo
      → All (λ r. is_due tick r ≡ false) w'.schedules
  unfolding run_all run_schedule
  run_all-Pending draws tick n dispatched m [] w w' h i =
      subst (λ v. All (λ r. is_due tick r ≡ false) v.schedules) (ap (λ q. q.1) (ok-injective _ _ h))
        (Pending-nil tick w.schedules i)
  run_all-Pending draws tick n dispatched m (s ∷ todo) w w' h i =
      let (one, e, rest) = >>=-eq-ok (run_schedule lib (draws n) tick s w) _ h in
      let (at, next, moved) = >>=-eq-ok (next_fire_time lib s.cron s.timezone tick) _ e in
      let later : leb at tick ≡ false = next_fire_time-later s.cron s.timezone tick at next in
      let out : is_due tick (record s { next_run_at = at }) ≡ false = ground arith in
      run_all-Pending draws tick (suc n) (if one.0 then suc dispatched else dispatched) m todo one.1
        w' rest
        (run_moved-Pending (draws n) tick s.next_run_at s (record s { next_run_at = at }) todo w
          one.1 one.0 out refl moved i)

  -- After a tick of the leader that returns, no enabled schedule is due at that instant any more: each
  -- that was is moved past it, whether it ran, was too late to run, or found no user.
  pub dispatch_due_schedules-is_due :
      (draws : ℕ → Draw) (tick m : ℕ) (w w' : World)
      → dispatch_due_schedules lib draws true tick w ≡ ok (m, w')
      → All (λ r. is_due tick r ≡ false) w'.schedules
  unfolding dispatch_due_schedules
  dispatch_due_schedules-is_due draws tick m w w' h =
      run_all-Pending draws tick 0 0 m (ordered (select (is_due tick) w.schedules)) w w' h (
        Pending-ordered tick w.schedules (select (is_due tick) w.schedules)
          (Pending-select tick w.schedules))
