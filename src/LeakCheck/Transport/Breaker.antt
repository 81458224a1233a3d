-- ===== src/LeakCheck/Transport/Breaker.antt =====
-- app/leakcheck.py: the circuit breaker.
use leakcheck_hub.Prelude.{
  ℕ, zero, suc, ◌+◌, ◌-◌, ◌*◌, ◌<◌, Option, none, some, [], Bytes, ltb, leb, ok, err, Error, ◌≡◌,
  refl, ap, arith, Bool-cases, inl, inr, is_some,
}
use leakcheck_hub.Models.{Json}
use leakcheck_hub.LeakCheck.Records.{ParsedPage}
use leakcheck_hub.LeakCheck.Transport.{
  Limits, Circuit, ensure_circuit_available, Attempt, Trace, Step, over, again, attempt_once, pass,
  checked_pass, passes, request_page, record_failure,
}

-- The breaker is open exactly when the failures in a row have reached the threshold.
abbrev pub IsSound : Limits → Circuit → Type 0
IsSound l c = is_some c.opened_at ≡ leb l.circuit_failure_threshold c.failures

abbrev circuit_of : Step → Circuit
circuit_of (over _ c) = c
circuit_of (again c) = c

abbrev closed : Circuit
closed = record { failures = 0; opened_at = none }

module _ (loads : Bytes → Option Json) (l : Limits) (attempts : ℕ → Attempt) where
  module _ (positive : 0 < l.circuit_failure_threshold) where
    ensure-IsSound :
        (now : ℕ) (c c' : Circuit)
        → IsSound l c
        → ensure_circuit_available l now c ≡ some c'
        → IsSound l c'
    unfolding ensure_circuit_available
    ensure-IsSound now c c' v h = ground arith

    attempt_once-IsSound :
        (a : Attempt) (c : Circuit)
        → IsSound l c
        → IsSound l (circuit_of (attempt_once loads l a c))
    unfolding attempt_once record_failure
    attempt_once-IsSound a c v = ground arith

    pass-IsSound :
        (n : ℕ) (s : Step) (rest : Circuit → Trace)
        → IsSound l (circuit_of s)
        → ((c : Circuit) → IsSound l c → IsSound l (rest c).circuit)
        → IsSound l (pass l n s rest).circuit
    unfolding pass
    pass-IsSound n (over result c) rest v h = v
    pass-IsSound n (again c) rest v h = elim (Bool-cases (ltb n l.max_retries)) [
      | inl more ↦ rw more (h c v)
      | inr last ↦ rw last v
    ]

    checked_pass-IsSound :
        (found : Option Circuit) (now : ℕ) (c : Circuit) (go : Circuit → Trace)
        → ensure_circuit_available l now c ≡ found
        → IsSound l c
        → ((c' : Circuit) → IsSound l c' → IsSound l (go c').circuit)
        → IsSound l (checked_pass found c go).circuit
    unfolding checked_pass
    checked_pass-IsSound none now c go e v h = v
    checked_pass-IsSound (some c') now c go e v h = h c' (ensure-IsSound now c c' v e)

    passes-IsSound :
        (left n : ℕ) (c : Circuit)
        → IsSound l c
        → IsSound l (passes loads l attempts left n c).circuit
    unfolding passes
    passes-IsSound zero n c v = v
    passes-IsSound (suc left) n c v =
        checked_pass-IsSound (ensure_circuit_available l (attempts n).checked_at c)
          (attempts n).checked_at c _ refl v
          λ c' v'.
            pass-IsSound n (attempt_once loads l (attempts n) c')
              (passes loads l attempts left (suc n)) (attempt_once-IsSound (attempts n) c' v')
              (passes-IsSound left (suc n))

    -- At a positive threshold, whatever the service answers in a request, the breaker is open
    -- afterwards exactly when the failures in a row that it has counted reach the threshold, if
    -- that held before.
    pub request_page-IsSound :
        (c : Circuit) → IsSound l c → IsSound l (request_page loads l attempts c).circuit
    unfolding request_page
    request_page-IsSound c v = passes-IsSound (l.max_retries + 1) 0 c v

  attempt_once_ok :
      (a : Attempt) (c c' : Circuit) (page : ParsedPage)
      → attempt_once loads l a c ≡ over (ok page) c'
      → c' ≡ closed
  unfolding attempt_once
  attempt_once_ok a c c' page h = ground arith

  pass_ok :
      (n : ℕ) (s : Step) (rest : Circuit → Trace) (page : ParsedPage)
      → ((c : Circuit) → s ≡ over (ok page) c → c ≡ closed)
      → ((c : Circuit) → (rest c).result ≡ ok page → (rest c).circuit ≡ closed)
      → (pass l n s rest).result ≡ ok page
      → (pass l n s rest).circuit ≡ closed
  unfolding pass
  pass_ok n (over result c) rest page now later h = now c (ap (λ r. over r c) h)
  pass_ok n (again c) rest page now later h = elim (Bool-cases (ltb n l.max_retries)) [
    | inl more ↦ rw more (later c (rw more at h))
    | inr last ↦ absurd (ground arith)
  ]

  checked_pass_ok :
      (found : Option Circuit) (c : Circuit) (go : Circuit → Trace) (page : ParsedPage)
      → ((c' : Circuit) → (go c').result ≡ ok page → (go c').circuit ≡ closed)
      → (checked_pass found c go).result ≡ ok page
      → (checked_pass found c go).circuit ≡ closed
  unfolding checked_pass
  checked_pass_ok none c go page go_ok h = absurd (ground arith)
  checked_pass_ok (some c') c go page go_ok h = go_ok c' h

  passes_ok :
      (left n : ℕ) (c : Circuit) (page : ParsedPage)
      → (passes loads l attempts left n c).result ≡ ok page
      → (passes loads l attempts left n c).circuit ≡ closed
  unfolding passes
  passes_ok zero n c page h = absurd (ground arith)
  passes_ok (suc left) n c page h =
      checked_pass_ok (ensure_circuit_available l (attempts n).checked_at c) c _ page
        (λ c'.
          pass_ok n (attempt_once loads l (attempts n) c') (passes loads l attempts left (suc n))
            page (λ c''. attempt_once_ok (attempts n) c' c'' page)
            (λ c''. passes_ok left (suc n) c'' page))
        h

  -- A request that returns a page leaves the breaker closed and its count at zero, whatever failed
  -- on the way to it.
  pub request_page_ok :
      (c : Circuit) (page : ParsedPage)
      → (request_page loads l attempts c).result ≡ ok page
      → (request_page loads l attempts c).circuit ≡ record { failures = 0; opened_at = none }
  unfolding request_page
  request_page_ok c page h = passes_ok (l.max_retries + 1) 0 c page h

  passes-open :
      (left : ℕ) (c : Circuit) (at : ℕ)
      → c.opened_at ≡ some at
      → (attempts 0).checked_at - at < l.circuit_reset_seconds * 1000000
      → passes loads l attempts (suc left) 0 c
        ≡ record { result = err Error.unavailable; circuit = c; sends = 0; sleeps = []; waits = [] }
  unfolding passes checked_pass
  passes-open left c at opened early =
      let shut : ensure_circuit_available l (attempts 0).checked_at c ≡ none =
        unfold ensure_circuit_available in ground arith in
      rw (shut, checked_pass)

  -- While the breaker is open and its reset time is not over at the request's first check, the
  -- request is refused at once: no exchange, no sleep, no wait at the limiter, and the breaker as it was.
  pub request_page-open :
      (c : Circuit) (at : ℕ)
      → c.opened_at ≡ some at
      → (attempts 0).checked_at - at < l.circuit_reset_seconds * 1000000
      → request_page loads l attempts c
        ≡ record { result = err Error.unavailable; circuit = c; sends = 0; sleeps = []; waits = [] }
  unfolding request_page
  request_page-open c at opened early =
      let more : l.max_retries + 1 ≡ suc l.max_retries = omega arith in
      rw more (passes-open l.max_retries c at opened early)
