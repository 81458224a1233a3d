-- ===== src/LeakCheck/Transport/Examples.antt =====
-- The theorems on one request at a service that fails once and then answers an empty page.
use leakcheck_hub.Prelude.{
  ℕ, zero, suc, ◌≤◌, none, some, [], ◌∷◌, ok, err, Error, All, length, ◌≡◌, refl, arith,
}
use leakcheck_hub.LeakCheck.Records.Samples.{loads, empty_page}
use leakcheck_hub.LeakCheck.Transport.{
  Exchange, Limits, Circuit, Attempt, send, request_page, check_declared, read_chunks, passes, pass,
  checked_pass, ensure_circuit_available, record_failure, attempt_once, on_status,
}
use leakcheck_hub.LeakCheck.Transport.Bounds.{send-le, limiter_waits, request_page-IsShort}
use leakcheck_hub.LeakCheck.Transport.Breaker.{
  IsSound, request_page-IsSound, request_page_ok, request_page-open,
}

abbrev limits : Limits
limits = record {
  max_response_bytes = 8;
  max_retries = 2;
  circuit_failure_threshold = 2;
  circuit_reset_seconds = 60;
}

abbrev answer : Exchange
answer = Exchange.answered 200 none (some (123 ∷ []) ∷ some (125 ∷ []) ∷ [])

sent : send 8 answer ≡ ok (200, 123 ∷ 125 ∷ [])
unfolding send check_declared read_chunks
sent = refl

send-le_example : 2 ≤ 8
send-le_example = send-le 8 answer 200 (123 ∷ 125 ∷ []) sent

abbrev attempts : ℕ → Attempt
attempts zero = record {
  checked_at = 100;
  waits = [];
  exchange = Exchange.broken;
  recorded_at = 110;
}
attempts (suc _) = record {
  checked_at = 200;
  waits = 333334 ∷ [];
  exchange = answer;
  recorded_at = 210;
}

abbrev untouched : Circuit
untouched = record { failures = 0; opened_at = none }

request_page-IsShort_example :
    let t = request_page loads limits attempts untouched in
    (t.sends ≤ 3)
    × (length t.sleeps ≤ t.sends)
    × All (λ s. s ≤ 8) t.sleeps
    × (t.waits ≡ limiter_waits attempts t.sends 0)
request_page-IsShort_example = request_page-IsShort loads limits attempts untouched

request_page-IsSound_example : IsSound limits (request_page loads limits attempts untouched).circuit
request_page-IsSound_example =
    request_page-IsSound loads limits attempts (omega arith) untouched refl

returned :
    (request_page loads limits attempts untouched).result
    ≡ ok (record { records = []; quota = none; found = 0 })
unfolding request_page passes pass checked_pass ensure_circuit_available record_failure attempt_once
    on_status send check_declared read_chunks
returned = empty_page (123 ∷ 125 ∷ [])

request_page_ok_example :
    (request_page loads limits attempts untouched).circuit
    ≡ record { failures = 0; opened_at = none }
request_page_ok_example =
    request_page_ok loads limits attempts untouched
      (record { records = []; quota = none; found = 0 }) returned

abbrev tripped : Circuit
tripped = record { failures = 2; opened_at = some 50 }

request_page-open_example : request_page loads limits attempts tripped ≡ record {
  result = err Error.unavailable;
  circuit = tripped;
  sends = 0;
  sleeps = [];
  waits = [];
}
request_page-open_example = request_page-open loads limits attempts tripped 50 refl (omega arith)
