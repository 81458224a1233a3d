-- ===== src/Alerts/Order.antt =====
-- app/alerts.py: the row that a dispatch takes.
use leakcheck_hub.Prelude.{
  ℕ, ◌≤◌, ◌<◌, Bool, true, false, not, Option, none, some, List, ◌≡◌, ◌≢◌, ◌⊎◌, inl, inr, refl,
  arith, Text, ltb, Bool-cases, select, find, update, find-update, select-update_ne, All,
  All-weaken, In, Keyed, leads, first_where-find, first_where-First, first_where-some,
  first_where-none,
}
use leakcheck_hub.Models.{AlertOutbox, AlertSinkName, AlertOutboxStatus, is_pending_alert}
use leakcheck_hub.Alerts.{
  AlertSink, is_due, next_due, has_id, failure_of, attempt, settle, dispatch_next_alert,
}

-- Under the key, the row that a dispatch takes is the one that its identifier names.
pub next_due-find :
    (now : ℕ) (table : List AlertOutbox) (a : AlertOutbox)
    → Keyed (λ b. b.id) table
    → next_due now table ≡ some a
    → find (has_id a.id) table ≡ some a
unfolding next_due
next_due-find now table a keyed h =
    first_where-find (λ b. b.next_attempt_at) (λ b. b.id) (is_due now) table a keyed h

-- The row that a dispatch takes is pending and due.
pub next_due-is_due :
    (now : ℕ) (table : List AlertOutbox) (a : AlertOutbox)
    → next_due now table ≡ some a
    → is_due now a ≡ true
unfolding next_due
next_due-is_due now table a h =
    (first_where-First (λ b. b.next_attempt_at) (λ b. b.id) (is_due now) table a h).0

-- A row that no dispatch takes at this instant.
abbrev pub IsIdle : ℕ → AlertOutbox → Type 0
IsIdle now b = (b.status ≢ AlertOutboxStatus.pending) ⊎ (now < b.next_attempt_at)

-- An alert comes before another: it is due earlier, or at the same instant with a smaller number.
abbrev pub IsBefore : AlertOutbox → AlertOutbox → Type 0
IsBefore a b =
    (a.next_attempt_at < b.next_attempt_at)
    ⊎ ((a.next_attempt_at ≡ b.next_attempt_at) × (a.id ≤ b.id))

not-is_due : (now : ℕ) (b : AlertOutbox) → is_due now b ≡ false → IsIdle now b
not-is_due now b h = elim (Bool-cases (is_pending_alert b.status)) [
  | inl pending ↦ inr (ground arith)
  | inr closed ↦ inl (λ e. absurd (ground arith))
]

leads-IsBefore :
    (now : ℕ) (a b : AlertOutbox)
    → (is_due now b ≡ false) ⊎ (leads (λ c. c.next_attempt_at) (λ c. c.id) a b ≡ true)
    → IsIdle now b ⊎ IsBefore a b
leads-IsBefore now a b (inl out) = inl (not-is_due now b out)
leads-IsBefore now a b (inr first) = elim (Bool-cases (ltb a.next_attempt_at b.next_attempt_at)) [
  | inl earlier ↦ inr (inl (ground arith))
  | inr same ↦ inr (inr (ground arith, ground arith))
]

-- What a dispatch did with the alert that it took.
pub record IsDispatched (sinks : AlertSinkName → Option AlertSink) (now : ℕ)
    (table table' : List AlertOutbox) (a : AlertOutbox) : Type 0 where
  pub stored : In a table
  pub pending : a.status ≡ AlertOutboxStatus.pending
  pub due : a.next_attempt_at ≤ now
  pub first : All (λ b. IsIdle now b ⊎ IsBefore a b) table
  pub written : find (has_id a.id) table' ≡ some (attempt now (failure_of sinks a) a)
  pub others : select (λ b. not (has_id a.id b)) table' ≡ select (λ b. not (has_id a.id b)) table

attempt-id : (now : ℕ) (failure : Option Text) (a : AlertOutbox) → (attempt now failure a).id ≡ a.id
unfolding attempt settle
attempt-id now failure a = ground arith

attempt-has_id :
    (now : ℕ) (failure : Option Text) (k : ℕ) (a : AlertOutbox)
    → has_id k a ≡ true
    → has_id k (attempt now failure a) ≡ true
attempt-has_id now failure k a h = rw (attempt-id now failure a) h

module _ (sinks : AlertSinkName → Option AlertSink) (now : ℕ) (table : List AlertOutbox) where
  taken-IsDispatched :
      (a : AlertOutbox)
      → Keyed (λ b. b.id) table
      → next_due now table ≡ some a
      → IsDispatched sinks now table
          (update (has_id a.id) (attempt now (failure_of sinks a)) table)
          a
  unfolding next_due
  taken-IsDispatched a keyed h =
      let (stored, due, first) =
        first_where-some (λ b. b.next_attempt_at) (λ b. b.id) (is_due now) table a h in
      record {
        stored = stored;
        pending = ground arith;
        due = ground arith;
        first = All-weaken _ _ (leads-IsBefore now a) table first;
        written =
            find-update (has_id a.id) (attempt now (failure_of sinks a))
              (λ b hit. attempt-has_id now (failure_of sinks a) a.id b hit) table a
              (next_due-find now table a keyed h);
        others =
            select-update_ne (has_id a.id) (attempt now (failure_of sinks a))
              (λ b. not (has_id a.id b))
              (λ b hit. (rw hit, rw (attempt-has_id now (failure_of sinks a) a.id b hit))) table;
      }

  -- In an outbox with unique identifiers, a dispatch that reports an alert has taken a pending one
  -- of the outbox that is due, such that every other pending alert that is due has a later instant,
  -- or the same one and no smaller identifier; that row alone is rewritten, as one attempt
  -- at its sink leaves it. A dispatch that reports none changes nothing, and then no alert is
  -- pending and due.
  pub dispatch-IsDispatched :
      Keyed (λ b. b.id) table
      → let (sent, table') = dispatch_next_alert sinks now table in
        ((sent ≡ false) × (table' ≡ table) × All (IsIdle now) table)
        ⊎ ((sent ≡ true) × (a : AlertOutbox) × IsDispatched sinks now table table' a)
  unfolding dispatch_next_alert
  dispatch-IsDispatched keyed = found (next_due now table) refl
    where
      found :
          (o : Option AlertOutbox)
          → next_due now table ≡ o
          → let (sent, table') = elim o as (λ _. Bool × List AlertOutbox) [
            | none ↦ (false, table)
            | some a ↦ (true, update (has_id a.id) (attempt now (failure_of sinks a)) table)
          ] in
            ((sent ≡ false) × (table' ≡ table) × All (IsIdle now) table)
            ⊎ ((sent ≡ true) × (a : AlertOutbox) × IsDispatched sinks now table table' a)
      found none e = inl (
        refl,
        refl,
        All-weaken _ _ (not-is_due now) table (
            first_where-none (λ b. b.next_attempt_at) (λ b. b.id) (is_due now) table
              (unfold next_due in e)),
      )
      found (some a) e = inr (refl, a, taken-IsDispatched a keyed e)
