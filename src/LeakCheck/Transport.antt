-- ===== src/LeakCheck/Transport.antt =====
-- app/leakcheck.py: `_send`, the circuit breaker and the retries of `_request_page`. What the
-- network does in each attempt, and the instants that the clock gives, are arguments.
pub mod Breaker
pub mod Bounds
mod Examples
use leakcheck_hub.Prelude.{
  ℕ, zero, suc, ◌+◌, ◌-◌, ◌*◌, ◌^◌, min, Bool, true, false, not, ◌&&◌, ◌||◌, Option, none, some,
  List, [], ◌∷◌, ◌++◌, Text, Bytes, ltb, leb, ◌==◌, if◌then◌else◌, length, Outcome, ok, err, Error,
}
use leakcheck_hub.Python.{ℤ, pos, negsuc, parse_int}
use leakcheck_hub.Models.{Json}
use leakcheck_hub.LeakCheck.Records.{ParsedPage, parse_page}

-- What an HTTP exchange does: it fails, or it answers with a status, perhaps a declared length, and
-- the chunks of a body; none among the chunks is a failure while they arrive.
pub data Exchange : Type 0 where
  broken : Exchange
  answered : ℕ → Option Text → List (Option Bytes) → Exchange

pub record Limits : Type 0 where
  pub max_response_bytes : ℕ
  pub max_retries : ℕ
  pub circuit_failure_threshold : ℕ
  pub circuit_reset_seconds : ℕ

-- `_circuit_failures` and `_circuit_opened_at`
pub record Circuit : Type 0 where
  pub failures : ℕ
  pub opened_at : Option ℕ

above : ℕ → ℤ → Bool
above limit (pos n) = ltb limit n
above limit (negsuc n) = false

check_declared : ℕ → Option Text → Outcome (Unit {0})
unfolding above
check_declared limit none = ok tt
check_declared limit (some text) = elim (parse_int text) [
  | none ↦ err Error.protocol_error
  | some n ↦ if above limit n then err Error.response_too_large else ok tt
]

-- The loop over `aiter_bytes`, on the body so far.
read_chunks : ℕ → Bytes → List (Option Bytes) → Outcome Bytes
read_chunks limit body [] = ok body
read_chunks limit body (none ∷ chunks) = err Error.transport_error
read_chunks limit body (some chunk ∷ chunks) =
    let longer = body ++ chunk in
    let rest = read_chunks limit longer chunks in
    if ltb limit (length longer) then err Error.response_too_large else rest

pub send : ℕ → Exchange → Outcome (ℕ × Bytes)
unfolding check_declared read_chunks
send limit broken = err Error.transport_error
send limit (answered status declared chunks) = elim (check_declared limit declared) [
  | err e ↦ err e
  | ok _ ↦ elim (read_chunks limit [] chunks) [ err e ↦ err e | ok body ↦ ok (status, body) ]
]

-- `_ensure_circuit_available`: none is the exception.
pub ensure_circuit_available : Limits → ℕ → Circuit → Option Circuit
ensure_circuit_available l now c = elim c.opened_at [
  | none ↦ some c
  | some at ↦
      if ltb (now - at) (l.circuit_reset_seconds * 1000000)
      then none
      else some (record { failures = 0; opened_at = none })
]

pub record_failure : Limits → ℕ → Circuit → Circuit
record_failure l now c =
    let failures = c.failures + 1 in
    if leb l.circuit_failure_threshold failures
    then record { failures = failures; opened_at = some now }
    else record { failures = failures; opened_at = c.opened_at }

abbrev pub record_success : Circuit → Circuit
record_success c = record { failures = 0; opened_at = none }

-- What one attempt meets: the instant of the circuit's check, the microseconds of each sleep in the
-- rounds of the limiter's `acquire`, the exchange, and the instant at which its result is recorded.
-- How long a caller queues for the semaphore is in the instants.
pub record Attempt : Type 0 where
  pub checked_at : ℕ
  pub waits : List ℕ
  pub exchange : Exchange
  pub recorded_at : ℕ

-- What a request leaves behind: its result, the circuit, how many exchanges it began, the seconds
-- that it slept after failed ones, and the sleeps of the limiter.
pub record Trace : Type 0 where
  pub result : Outcome ParsedPage
  pub circuit : Circuit
  pub sends : ℕ
  pub sleeps : List ℕ
  pub waits : List ℕ

-- How one attempt ends: the request is over, or it failed and may be tried again.
pub data Step : Type 0 where
  over : Outcome ParsedPage → Circuit → Step
  again : Circuit → Step

-- The statuses of an answer, in the order of their tests.
on_status : (Bytes → Option Json) → Limits → ℕ → Circuit → ℕ → Bytes → Step
on_status loads l now c status body =
    if status == 401
    then over (err Error.configuration_error) (record_success c)
    else if status == 400
    then over (err Error.protocol_error) (record_success c)
    else if status == 429 || leb 500 status
    then again (record_failure l now c)
    else if not (status == 200)
    then over (err Error.protocol_error) (record_success c)
    else over (parse_page loads body) (record_success c)

-- Only failures of the transport are caught; what `_send` raises itself ends the request.
pub attempt_once : (Bytes → Option Json) → Limits → Attempt → Circuit → Step
unfolding on_status
attempt_once loads l a c = elim (send l.max_response_bytes a.exchange) [
  | ok (status, body) ↦ on_status loads l a.recorded_at c status body
  | err Error.transport_error ↦ again (record_failure l a.recorded_at c)
  | err e ↦ over (err e) c
]

abbrev refused : Circuit → Trace
refused c = record {
  result = err Error.unavailable;
  circuit = c;
  sends = 0;
  sleeps = [];
  waits = [];
}

-- `await self._limiter.acquire()`, before the rest of a pass.
abbrev pub acquired : List ℕ → Trace → Trace
acquired waits t = record t { waits = waits ++ t.waits }

-- The rest of a request, after an exchange that failed and a sleep.
abbrev slept : ℕ → Trace → Trace
slept n t = record t { sends = t.sends + 1; sleeps = min (2 ^ n) 8 ∷ t.sleeps }

-- One pass of the loop of `_request_page`, with the passes after it.
pass : Limits → ℕ → Step → (Circuit → Trace) → Trace
pass l n (over result c) rest = record {
  result = result;
  circuit = c;
  sends = 1;
  sleeps = [];
  waits = [];
}
pass l n (again c) rest =
    if ltb n l.max_retries
    then slept n (rest c)
    else record { result = err Error.unavailable; circuit = c; sends = 1; sleeps = []; waits = [] }

checked_pass : Option Circuit → Circuit → (Circuit → Trace) → Trace
checked_pass none c go = refused c
checked_pass (some c') c go = go c'

module _ (loads : Bytes → Option Json) (l : Limits) (attempts : ℕ → Attempt) where
  -- `for attempt in range(max_retries + 1)`, with the passes left and the number of this one.
  pub passes : ℕ → ℕ → Circuit → Trace
  unfolding pass checked_pass
  passes zero n c = refused c
  passes (suc left) n c =
      checked_pass (ensure_circuit_available l (attempts n).checked_at c) c λ c'.
        acquired (attempts n).waits
          (pass l n (attempt_once loads l (attempts n) c') (passes left (suc n)))

  pub request_page : Circuit → Trace
  unfolding passes
  request_page c = passes (l.max_retries + 1) 0 c
