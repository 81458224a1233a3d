-- ===== src/Alerts.antt =====
-- app/alerts.py: the SIEM alert outbox. The database's clock gives the default instants, and
-- identifiers are drawn by the caller.
pub mod Dedupe
pub mod Order
pub mod Retries
mod Examples
use leakcheck_hub.Prelude.{
  first_where, Outcome, ok, err, Error, ◌>>=◌, all, ℕ, ◌+◌, ◌-◌, ◌*◌, ◌^◌, min, Bool, true, false,
  ◌&&◌, ◌||◌, Option, none, some, List, [], ◌∷◌, ◌++◌, Text, Bytes, codes, text_eq, ltb, leb, ◌==◌,
  if◌then◌else◌, is_some, find, select, update,
}
use leakcheck_hub.Models.{
  AlertOutbox, AlertSinkName, AlertOutboxStatus, Fields, is_pending_alert, seconds,
}

-- `_MAX_ATTEMPTS`
abbrev pub max_attempts : ℕ
max_attempts = 5

-- `send` of an adapter: none when the sink accepted the payload, else the exception's class name.
abbrev pub AlertSink : Type 0
AlertSink = Fields → Option Text

abbrev pub has_key : Bytes → AlertOutbox → Bool
has_key key a = text_eq a.dedupe_key key

-- `INSERT … ON CONFLICT (dedupe_key) DO NOTHING`
pub insert_alert : AlertOutbox → List AlertOutbox → List AlertOutbox
unfolding find
insert_alert row table =
    if is_some (find (has_key row.dedupe_key) table) then table else table ++ row ∷ []

-- `AlertSinkName.value`
sink_value : AlertSinkName → Text
sink_value AlertSinkName.wazuh = codes "wazuh"
sink_value AlertSinkName.dfir_iris = codes "dfir_iris"

-- `_dedupe_key`: UnicodeEncodeError, a ValueError, for a scope that is not ASCII.
dedupe_key : (Bytes → Bytes) → AlertSinkName → Text → Outcome Bytes
unfolding sink_value all
dedupe_key sha256 sink scope =
    if all (λ c. ltb c 128) scope
    then ok (sha256 (codes "leakcheck/alert-outbox/v1" ++ 0 ∷ (sink_value sink ++ 0 ∷ scope)))
    else err Error.value_error

-- The row of a new alert, with the columns' defaults at the instant of the transaction.
alert_row : ℕ → ℕ → AlertSinkName → Fields → Bytes → AlertOutbox
alert_row id now sink payload key = record {
  id = id;
  sink = sink;
  payload = payload;
  status = AlertOutboxStatus.pending;
  dedupe_key = key;
  attempts = 0;
  next_attempt_at = now;
  last_error = none;
  created_at = now;
  delivered_at = none;
}

pub enqueue_alert :
    (Bytes → Bytes)
    → ℕ
    → ℕ
    → AlertSinkName
    → Fields
    → Text
    → List AlertOutbox
    → Outcome (List AlertOutbox)
unfolding insert_alert dedupe_key alert_row
enqueue_alert sha256 id now sink payload dedupe_scope table = do
  key ← dedupe_key sha256 sink dedupe_scope
  ok (insert_alert (alert_row id now sink payload key) table)

abbrev pub is_due : ℕ → AlertOutbox → Bool
is_due now a = is_pending_alert a.status && leb a.next_attempt_at now

-- The query of `dispatch_next_alert`, with `ORDER BY next_attempt_at, id LIMIT 1`.
pub next_due : ℕ → List AlertOutbox → Option AlertOutbox
next_due now table = first_where (λ a. a.next_attempt_at) (λ a. a.id) (is_due now) table

-- Why an attempt failed: the sink is not configured, or its adapter raised.
pub failure_of : (AlertSinkName → Option AlertSink) → AlertOutbox → Option Text
failure_of sinks a = elim (sinks a.sink) [
  | none ↦ some (codes "LookupError")
  | some send ↦ send a.payload
]

-- The seconds to wait after a failed attempt, by the number of attempts so far.
pub backoff : ℕ → ℕ
backoff attempts = min (15 * 2 ^ (attempts - 1)) (15 * 60)

-- The `try` statement, on the row whose attempts were counted already.
pub settle : ℕ → Option Text → AlertOutbox → AlertOutbox
settle now none a = record a {
  status = AlertOutboxStatus.delivered;
  delivered_at = some now;
  last_error = none;
}
settle now (some name) a =
    if leb max_attempts a.attempts
    then record a { status = AlertOutboxStatus.dead_letter; last_error = some name }
    else record a { next_attempt_at = now + seconds (backoff a.attempts); last_error = some name }

pub attempt : ℕ → Option Text → AlertOutbox → AlertOutbox
unfolding settle
attempt now failure a = settle now failure (record a { attempts = a.attempts + 1 })

abbrev pub has_id : ℕ → AlertOutbox → Bool
has_id k a = a.id == k

pub dispatch_next_alert :
    (AlertSinkName → Option AlertSink) → ℕ → List AlertOutbox → Bool × List AlertOutbox
unfolding next_due attempt failure_of
dispatch_next_alert sinks now table = elim (next_due now table) [
  | none ↦ (false, table)
  | some a ↦ (true, update (has_id a.id) (attempt now (failure_of sinks a)) table)
]
