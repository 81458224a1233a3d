-- ===== src/LeakCheck/Transport/Bounds.antt =====
-- app/leakcheck.py: how much of a response is kept, and how many exchanges a request makes.
use leakcheck_hub.Prelude.{
  ℕ, zero, suc, ◌+◌, ◌≤◌, Option, none, some, List, [], ◌∷◌, ◌++◌, Bytes, ltb, length, ok, ◌≡◌,
  arith, Bool-cases, inl, inr, All, refl, ap, sym, ◌∙◌,
}
use leakcheck_hub.Models.{Json}
use leakcheck_hub.LeakCheck.Transport.{
  Exchange, broken, answered, Limits, Circuit, read_chunks, send, ensure_circuit_available, Attempt,
  Trace, acquired, Step, over, again, attempt_once, pass, checked_pass, passes, request_page,
}

read_chunks-le :
    (limit : ℕ) (body : Bytes) (chunks : List (Option Bytes)) (out : Bytes)
    → length body ≤ limit
    → read_chunks limit body chunks ≡ ok out
    → length out ≤ limit
unfolding read_chunks
read_chunks-le limit body [] out fits h = ground arith
read_chunks-le limit body (none ∷ chunks) out fits h = ground arith
read_chunks-le limit body (some chunk ∷ chunks) out fits h =
    ground (arith, read_chunks-le limit (body ++ chunk) chunks out)

-- A response that is handed on is within the configured limit, whatever length it declared and
-- however its body was cut into chunks.
pub send-le :
    (limit : ℕ) (x : Exchange) (status : ℕ) (body : Bytes)
    → send limit x ≡ ok (status, body)
    → length body ≤ limit
unfolding send
send-le limit broken status body h = ground arith
send-le limit (answered code declared chunks) status body h =
    ground (arith, read_chunks-le limit [] chunks body)

-- The limiter's sleeps in k passes, from the pass n on.
pub limiter_waits : (ℕ → Attempt) → (k n : ℕ) → List ℕ
limiter_waits attempts zero n = []
limiter_waits attempts (suc k) n = (attempts n).waits ++ limiter_waits attempts k (suc n)

module _ (loads : Bytes → Option Json) (l : Limits) (attempts : ℕ → Attempt) where
  -- What the loop's trace has, from the pass `at` on: one exchange for each pass at most, a sleep
  -- between two, and the limiter's sleeps in the passes that began an exchange, no others.
  abbrev IsShort : (n at : ℕ) → Trace → Type 0
  IsShort n at t =
      (t.sends ≤ n)
      × (length t.sleeps ≤ t.sends)
      × All (λ s. s ≤ 8) t.sleeps
      × (t.waits ≡ limiter_waits attempts t.sends at)

  pass-IsShort :
      (n m : ℕ) (s : Step) (rest : Circuit → Trace)
      → ((c : Circuit) → IsShort m (suc n) (rest c))
      → IsShort (suc m) n (acquired (attempts n).waits (pass l n s rest))
  unfolding pass limiter_waits
  pass-IsShort n m (over result c) rest h = (omega arith, omega arith, tt, refl)
  pass-IsShort n m (again c) rest h = elim (Bool-cases (ltb n l.max_retries)) [
    | inl more ↦
        let next : limiter_waits attempts ((rest c).sends + 1) n
            ≡ (attempts n).waits ++ limiter_waits attempts (rest c).sends (suc n) =
          ap (λ k. limiter_waits attempts k n) {x = (rest c).sends + 1} {y = suc (rest c).sends}
            (omega arith) in
        rw more (
          omega (arith, (h c).0),
          omega (arith, (h c).1),
          (omega arith, (h c).2),
          ap (λ ws. (attempts n).waits ++ ws) (h c).3 ∙ sym next,
        )
    | inr last ↦ rw last (omega arith, omega arith, tt, refl)
  ]

  checked_pass-IsShort :
      (m n : ℕ) (found : Option Circuit) (c : Circuit) (go : Circuit → Trace)
      → ((c' : Circuit) → IsShort (suc m) n (go c'))
      → IsShort (suc m) n (checked_pass found c go)
  unfolding checked_pass limiter_waits
  checked_pass-IsShort m n none c go h = (omega arith, omega arith, tt, refl)
  checked_pass-IsShort m n (some c') c go h = h c'

  passes-IsShort : (left n : ℕ) (c : Circuit) → IsShort left n (passes loads l attempts left n c)
  unfolding passes limiter_waits
  passes-IsShort zero n c = (omega arith, omega arith, tt, refl)
  passes-IsShort (suc left) n c =
      checked_pass-IsShort left n (ensure_circuit_available l (attempts n).checked_at c) c _ λ c'.
        pass-IsShort n left (attempt_once loads l (attempts n) c')
          (passes loads l attempts left (suc n)) (passes-IsShort left (suc n))

  -- Whatever the service answers, a request begins at most one exchange more than the configured
  -- retries, and backs off at most once after each, never for longer than eight seconds. Its other
  -- sleeps are the limiter's: exactly those of one `acquire` before each exchange that it begins.
  -- How long the limiter sleeps is not bounded here.
  pub request_page-IsShort :
      (c : Circuit)
      → let t = request_page loads l attempts c in
        (t.sends ≤ l.max_retries + 1)
        × (length t.sleeps ≤ t.sends)
        × All (λ s. s ≤ 8) t.sleeps
        × (t.waits ≡ limiter_waits attempts t.sends 0)
  unfolding request_page
  request_page-IsShort c = passes-IsShort (l.max_retries + 1) 0 c
