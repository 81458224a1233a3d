-- ===== src/Alerts/Retries.antt =====
-- app/alerts.py: the attempts at an alert, their number and their instants.
use leakcheck_hub.Prelude.{
  ℕ, ◌+◌, ◌-◌, ◌≤◌, Bool, true, false, ◌&&◌, Option, some, List, [], ◌∷◌, ◌≡◌, inl, inr, refl,
  arith, All, Text, ltb, leb, ◌==◌, if◌then◌else◌, Bool-cases, Option-cases, All-find, Keyed,
  Keyed-update, All-update_key, total, total-update_key,
}
use leakcheck_hub.Models.{AlertOutbox, AlertOutboxStatus, AlertSinkName, is_pending_alert, seconds}
use leakcheck_hub.Alerts.{
  AlertSink, max_attempts, next_due, failure_of, backoff, settle, attempt, has_id,
  dispatch_next_alert,
}
use leakcheck_hub.Alerts.Order.{next_due-is_due, next_due-find}

-- A pending alert has attempts left, a delivered one had some of them, and a dead one had all.
abbrev pub attempts_fit : AlertOutboxStatus → ℕ → Bool
attempts_fit AlertOutboxStatus.pending n = ltb n max_attempts
attempts_fit AlertOutboxStatus.delivered n = ltb 0 n && leb n max_attempts
attempts_fit AlertOutboxStatus.dead_letter n = n == max_attempts

abbrev pub Fits : AlertOutbox → Type 0
Fits a = attempts_fit a.status a.attempts ≡ true

attempt-Fits :
    (now : ℕ) (failure : Option Text) (a : AlertOutbox)
    → is_pending_alert a.status ≡ true
    → Fits a
    → Fits (attempt now failure a)
unfolding attempt settle
attempt-Fits now failure a pending fits = ground arith

-- The attempts that a row has left.
abbrev pub left : AlertOutbox → ℕ
left a = if is_pending_alert a.status then max_attempts - a.attempts else 0

attempt-left :
    (now : ℕ) (failure : Option Text) (a : AlertOutbox)
    → is_pending_alert a.status ≡ true
    → Fits a
    → left (attempt now failure a) + 1 ≤ left a
unfolding attempt settle
attempt-left now failure a pending fits = ground arith

attempt-id : (now : ℕ) (failure : Option Text) (a : AlertOutbox) → (attempt now failure a).id ≡ a.id
unfolding attempt settle
attempt-id now failure a = ground arith

-- The outbox: unique identifiers, and attempts that fit each row's status.
pub record IsValid (table : List AlertOutbox) : Type 0 where
  pub keyed : Keyed (λ a. a.id) table
  pub fits : All Fits table

module _ (sinks : AlertSinkName → Option AlertSink) (now : ℕ) (table : List AlertOutbox) where
  taken-Fits : (a : AlertOutbox) → IsValid table → next_due now table ≡ some a → Fits a
  taken-Fits a v h =
      All-find Fits (has_id a.id) table a v.fits (next_due-find now table a v.keyed h)

  taken-pending : (a : AlertOutbox) → next_due now table ≡ some a → is_pending_alert a.status ≡ true
  taken-pending a h = let due = next_due-is_due now table a h in ground arith

  -- In a valid outbox identifiers are unique, a pending alert has fewer than five attempts, a
  -- delivered one between one and five, and a dead letter five. A dispatch of a valid outbox
  -- leaves a valid one, whatever the sinks do.
  pub dispatch-IsValid : IsValid table → IsValid (dispatch_next_alert sinks now table).1
  unfolding dispatch_next_alert
  dispatch-IsValid v = elim (Option-cases (next_due now table)) [
    | inl idle ↦ rw (idle, dispatch_next_alert) v
    | inr (a, h) ↦
        rw (h, dispatch_next_alert)
          (record {
            keyed =
                Keyed-update (λ b. b.id) (has_id a.id) (attempt now (failure_of sinks a))
                  (attempt-id now (failure_of sinks a)) table v.keyed;
            fits =
                All-update_key (λ b. b.id) Fits a.id (attempt now (failure_of sinks a)) table a
                  v.keyed (next_due-find now table a v.keyed h) v.fits
                  (attempt-Fits now (failure_of sinks a) a (taken-pending a h) (taken-Fits a v h));
          })
  ]

  -- Each dispatch that finds an alert uses up at least one of the attempts left.
  dispatch_uses_attempt :
      IsValid table
      → (dispatch_next_alert sinks now table).0 ≡ true
      → total left (dispatch_next_alert sinks now table).1 + 1 ≤ total left table
  unfolding dispatch_next_alert
  dispatch_uses_attempt v more = elim (Option-cases (next_due now table)) [
    | inl idle ↦ absurd (ground arith)
    | inr (a, h) ↦
        rw (h, dispatch_next_alert)
          (omega (
            arith,
            total-update_key (λ b. b.id) left a.id (attempt now (failure_of sinks a)) table a
                v.keyed (next_due-find now table a v.keyed h),
            attempt-left now (failure_of sinks a) a (taken-pending a h) (taken-Fits a v h),
          ))
  ]

  -- A dispatch that finds none writes nothing.
  dispatch_idle :
      (dispatch_next_alert sinks now table).0 ≡ false
      → (dispatch_next_alert sinks now table).1 ≡ table
  unfolding dispatch_next_alert
  dispatch_idle none_due = elim (Option-cases (next_due now table)) [
    | inl idle ↦ rw (idle, dispatch_next_alert)
    | inr (a, h) ↦ absurd (ground arith)
  ]

-- How many of the dispatches at these instants find an alert to attempt.
unfoldable pub attempts_made : (AlertSinkName → Option AlertSink) → List ℕ → List AlertOutbox → ℕ
attempts_made sinks [] table = 0
attempts_made sinks (now ∷ nows) table =
    (if (dispatch_next_alert sinks now table).0 then 1 else 0)
    + attempts_made sinks nows (dispatch_next_alert sinks now table).1

-- From a valid outbox, however often and whenever it is dispatched, and whatever the sinks answer,
-- at most as many attempts are made as its pending alerts have left.
pub attempts_made_bound :
    (sinks : AlertSinkName → Option AlertSink) (nows : List ℕ) (table : List AlertOutbox)
    → IsValid table
    → attempts_made sinks nows table ≤ total left table
unfolding attempts_made
attempts_made_bound sinks [] table v = omega arith
attempts_made_bound sinks (now ∷ nows) table v =
    let ih =
      attempts_made_bound sinks nows (dispatch_next_alert sinks now table).1
        (dispatch-IsValid sinks now table v) in
    elim (Bool-cases (dispatch_next_alert sinks now table).0) [
      | inl found ↦ rw found (omega (arith, dispatch_uses_attempt sinks now table v found, ih))
      | inr idle ↦ let same = dispatch_idle sinks now table idle in ground arith
    ]

-- The instants at which an alert is attempted, each failing, and the row that they leave.
pub failures : List ℕ → Text → AlertOutbox → AlertOutbox
failures [] name a = a
failures (now ∷ nows) name a = failures nows name (attempt now (some name) a)

-- A new alert whose every attempt fails waits 15, 30, 60 and 120 seconds after its first four
-- attempts, stays pending through them, and is a dead letter after the fifth, which leaves its
-- instant alone.
pub failures_schedule :
    (t1 t2 t3 t4 t5 : ℕ) (name : Text) (a : AlertOutbox)
    → let fresh = record a { status = AlertOutboxStatus.pending; attempts = 0 } in
      let first = failures (t1 ∷ []) name fresh in
      let second = failures (t1 ∷ t2 ∷ []) name fresh in
      let third = failures (t1 ∷ t2 ∷ t3 ∷ []) name fresh in
      let fourth = failures (t1 ∷ t2 ∷ t3 ∷ t4 ∷ []) name fresh in
      let fifth = failures (t1 ∷ t2 ∷ t3 ∷ t4 ∷ t5 ∷ []) name fresh in
      (first.next_attempt_at ≡ t1 + seconds 15)
      × (second.next_attempt_at ≡ t2 + seconds 30)
      × (third.next_attempt_at ≡ t3 + seconds 60)
      × (fourth.next_attempt_at ≡ t4 + seconds 120)
      × (fourth.status ≡ AlertOutboxStatus.pending)
      × (fifth.status ≡ AlertOutboxStatus.dead_letter)
      × (fifth.next_attempt_at ≡ t4 + seconds 120)
unfolding failures attempt settle backoff
failures_schedule t1 t2 t3 t4 t5 name a = (refl, refl, refl, refl, refl, refl, refl)
