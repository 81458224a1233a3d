-- ===== src/Alerts/Examples.antt =====
-- The theorems on the outbox at a table of two alerts and a sink that is down.
use leakcheck_hub.Prelude.{
  All, ◌⊎◌, false, update, first_where, first_row, earlier, Bytes, ok, all, find, text_eq, ◌++◌, ℕ,
  ◌+◌, ◌≤◌, true, Option, none, some, List, [], ◌∷◌, codes, select, total, ◌≡◌, refl,
}
use leakcheck_hub.Models.{AlertOutbox, AlertSinkName, AlertOutboxStatus, Fields, seconds}
use leakcheck_hub.Alerts.{AlertSink, next_due, attempt, failure_of, dispatch_next_alert}
use leakcheck_hub.Alerts.{enqueue_alert, insert_alert, dedupe_key, sink_value, alert_row}
use leakcheck_hub.Alerts.Dedupe.{enqueue_alert-enqueue_alert}
use leakcheck_hub.Alerts.Order.{IsIdle, IsDispatched, dispatch-IsDispatched}
use leakcheck_hub.Alerts.Retries.{
  IsValid, left, attempts_made, failures, dispatch-IsValid, attempts_made_bound, failures_schedule,
}

abbrev alert : ℕ → ℕ → AlertOutbox
alert k at = record {
  id = k;
  sink = AlertSinkName.wazuh;
  payload = Fields.end;
  status = AlertOutboxStatus.pending;
  dedupe_key = k ∷ [];
  attempts = 0;
  next_attempt_at = at;
  last_error = none;
  created_at = 0;
  delivered_at = none;
}

abbrev outbox : List AlertOutbox
outbox = alert 1 30 ∷ alert 2 20 ∷ []

abbrev sinks : AlertSinkName → Option AlertSink
sinks _ = some (λ payload. some (codes "ConnectError"))

dispatch-IsDispatched_example :
    let (sent, table') = dispatch_next_alert sinks 40 outbox in
    ((sent ≡ false) × (table' ≡ outbox) × All (IsIdle 40) outbox)
    ⊎ ((sent ≡ true) × (a : AlertOutbox) × IsDispatched sinks 40 outbox table' a)
dispatch-IsDispatched_example = dispatch-IsDispatched sinks 40 outbox ((refl, tt), (tt, tt))

-- The one that is due first goes first, whatever the order of the rows.
sample_dispatch :
    dispatch_next_alert sinks 40 outbox
    ≡ (true, alert 1 30 ∷ attempt 40 (some (codes "ConnectError")) (alert 2 20) ∷ [])
unfolding dispatch_next_alert next_due first_where first_row earlier select update failure_of
sample_dispatch = refl

valid : IsValid outbox
valid = record { keyed = ((refl, tt), (tt, tt)); fits = (refl, (refl, tt)) }

dispatch-IsValid_example : IsValid (dispatch_next_alert sinks 40 outbox).1
dispatch-IsValid_example = dispatch-IsValid sinks 40 outbox valid

attempts_made_bound_example : attempts_made sinks (40 ∷ 41 ∷ 42 ∷ []) outbox ≤ total left outbox
attempts_made_bound_example = attempts_made_bound sinks (40 ∷ 41 ∷ 42 ∷ []) outbox valid

failures_schedule_example :
    let fresh = alert 1 30 in
    ((failures (40 ∷ []) (codes "LookupError") fresh).next_attempt_at ≡ 40 + seconds 15)
    × ((failures (40 ∷ 100 ∷ []) (codes "LookupError") fresh).next_attempt_at ≡ 100 + seconds 30)
    × ((failures (40 ∷ 100 ∷ 200 ∷ []) (codes "LookupError") fresh).next_attempt_at
        ≡ 200 + seconds 60)
    × ((failures (40 ∷ 100 ∷ 200 ∷ 300 ∷ []) (codes "LookupError") fresh).next_attempt_at
        ≡ 300 + seconds 120)
    × ((failures (40 ∷ 100 ∷ 200 ∷ 300 ∷ []) (codes "LookupError") fresh).status
        ≡ AlertOutboxStatus.pending)
    × ((failures (40 ∷ 100 ∷ 200 ∷ 300 ∷ 500 ∷ []) (codes "LookupError") fresh).status
        ≡ AlertOutboxStatus.dead_letter)
    × ((failures (40 ∷ 100 ∷ 200 ∷ 300 ∷ 500 ∷ []) (codes "LookupError") fresh).next_attempt_at
        ≡ 300 + seconds 120)
failures_schedule_example = failures_schedule 40 100 200 300 500 (codes "LookupError") (alert 1 30)

-- A stand-in for the digest: it is only applied.
abbrev same_bytes : Bytes → Bytes
same_bytes b = b

abbrev test_key : Bytes
test_key = codes "leakcheck/alert-outbox/v1" ++ 0 ∷ (codes "wazuh" ++ 0 ∷ codes "test:9")

abbrev queued : List AlertOutbox
queued =
    alert 1 30 ∷ alert 2 20 ∷ record (alert 9 60) { dedupe_key = test_key; created_at = 60 } ∷ []

enqueued :
    enqueue_alert same_bytes 9 60 AlertSinkName.wazuh Fields.end (codes "test:9") outbox ≡ ok queued
unfolding enqueue_alert insert_alert dedupe_key sink_value alert_row all find text_eq
enqueued = refl

enqueue_alert-enqueue_alert_example :
    enqueue_alert same_bytes 10 70 AlertSinkName.wazuh Fields.end (codes "test:9") queued
    ≡ ok queued
enqueue_alert-enqueue_alert_example =
    enqueue_alert-enqueue_alert same_bytes 9 10 60 70 AlertSinkName.wazuh Fields.end Fields.end
      (codes "test:9") outbox queued enqueued
