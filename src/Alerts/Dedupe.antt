-- ===== src/Alerts/Dedupe.antt =====
-- app/alerts.py: deduplication in the outbox.
use leakcheck_hub.Prelude.{
  Bytes, ℕ, Text, ap, subst, Outcome, ok, err, ◌>>=◌, ok-injective, true, List, [], ◌∷◌, ◌++◌,
  text_eq_refl, is_some, find, ◌≡◌, refl, arith, inl, inr, Bool-cases,
}
use leakcheck_hub.Models.{AlertOutbox, AlertSinkName, Fields}
use leakcheck_hub.Alerts.{has_key, insert_alert, alert_row, dedupe_key, enqueue_alert}

-- Once a key is stored, an alert with that key is dropped.
insert_stored :
    (row : AlertOutbox) (table : List AlertOutbox)
    → is_some (find (has_key row.dedupe_key) table) ≡ true
    → insert_alert row table ≡ table
unfolding insert_alert
insert_stored row table h = rw h refl

find_last :
    (row : AlertOutbox) (table : List AlertOutbox)
    → is_some (find (has_key row.dedupe_key) (table ++ row ∷ [])) ≡ true
unfolding find
find_last row [] = rw (text_eq_refl row.dedupe_key) refl
find_last row (a ∷ table) = ground (arith, find_last row table)

insert_again :
    (row again : AlertOutbox) (table : List AlertOutbox)
    → again.dedupe_key ≡ row.dedupe_key
    → insert_alert again (insert_alert row table) ≡ insert_alert row table
unfolding insert_alert
insert_again row again table same =
    elim (Bool-cases (is_some (find (has_key row.dedupe_key) table))) [
      | inl e ↦ rw e (insert_stored again table (rw same e))
      | inr e ↦ rw e (insert_stored again (table ++ row ∷ []) (rw same (find_last row table)))
    ]

-- After an alert was enqueued, enqueueing one for the same sink and the same scope succeeds and
-- changes nothing, whatever its identifier, instant and payload.
pub enqueue_alert-enqueue_alert :
    (sha256 : Bytes → Bytes) (id id' now now' : ℕ) (sink : AlertSinkName)
    (payload payload' : Fields) (scope : Text) (table table' : List AlertOutbox)
    → enqueue_alert sha256 id now sink payload scope table ≡ ok table'
    → enqueue_alert sha256 id' now' sink payload' scope table' ≡ ok table'
unfolding enqueue_alert alert_row
enqueue_alert-enqueue_alert sha256 id id' now now' sink payload payload' scope table table' h =
    by (dedupe_key sha256 sink scope) h
  where
    by :
        (key : Outcome Bytes)
        → (key >>= λ k. ok (insert_alert (alert_row id now sink payload k) table)) ≡ ok table'
        → (key >>= λ k. ok (insert_alert (alert_row id' now' sink payload' k) table')) ≡ ok table'
    by (err e) h = absurd cc
    by (ok k) h =
        let stored : insert_alert (alert_row id now sink payload k) table ≡ table' =
          ok-injective _ _ h in
        ap ok (
          subst (λ t. insert_alert (alert_row id' now' sink payload' k) t ≡ t) stored
            (insert_again (alert_row id now sink payload k) (alert_row id' now' sink payload' k)
              table refl))
