-- ===== src/LeakCheck/Pacing/Bound.antt =====
-- app/leakcheck.py, `TokenBucket`: the starts within a window.
use leakcheck_hub.Prelude.{
  ℕ, ◌+◌, ◌-◌, ◌*◌, ◌≤◌, ◌<◌, true, some, List, [], ◌∷◌, if◌then◌else◌, ◌≡◌, arith, ap, Bool-cases,
  inl, inr,
}
use leakcheck_hub.LeakCheck.Pacing.{token, TokenBucket, refill, take_token, round}

-- Rounds of `acquire`, by the time that passes before each one on the monotonic clock: how many of
-- them let their caller start.
unfoldable pub starts : ℕ → List ℕ → TokenBucket → ℕ
starts now [] b = 0
starts now (gap ∷ gaps) b =
    (if (round (now + gap) b).0 then 1 else 0) + starts (now + gap) gaps (round (now + gap) b).1

unfoldable pub span : List ℕ → ℕ
span [] = 0
span (gap ∷ gaps) = gap + span gaps

-- The bucket after a round holds what it held, what came in, less a token for a start.
round_tokens :
    (now gap : ℕ) (b : TokenBucket)
    → b.updated_at ≡ some now
    → let (go, b') = round (now + gap) b in
      (b'.tokens + (if go then token else 0) ≤ b.tokens + gap * b.rate)
      × (b'.updated_at ≡ some (now + gap))
      × (b'.rate ≡ b.rate)
unfolding round refill take_token
round_tokens now gap b last =
    let gone : now + gap - now ≡ gap = omega arith in
    let come : (now + gap - now) * b.rate ≡ gap * b.rate = ap (λ (n : ℕ). n * b.rate) gone in
    ground arith

-- In a window that begins with the bucket's last round, every start but those that the tokens in
-- hand pay for is paid for by the time that passes.
starts_paid :
    (now : ℕ) (gaps : List ℕ) (b : TokenBucket)
    → b.updated_at ≡ some now
    → starts now gaps b * token ≤ b.tokens + span gaps * b.rate
unfolding starts span
starts_paid now [] b last = omega arith
starts_paid now (gap ∷ gaps) b last =
    let (paid, later, same) = round_tokens now gap b last in
    let ih = starts_paid (now + gap) gaps (round (now + gap) b).1 later in
    let ih' : starts (now + gap) gaps (round (now + gap) b).1 * token
        ≤ (round (now + gap) b).1.tokens + span gaps * b.rate =
      rw (same) at ih in
    elim (Bool-cases (round (now + gap) b).0) [
      | inl go ↦ rw go (let paid' = rw go at paid in omega arith)
      | inr wait ↦ rw wait (let paid' = rw wait at paid in omega arith)
    ]

-- What the constructor sets and every round keeps.
pub record IsUnit (b : TokenBucket) : Type 0 where
  pub one : b.capacity ≡ token
  pub filled : b.tokens ≤ token

pub round-IsUnit : (now : ℕ) (b : TokenBucket) → IsUnit b → IsUnit (round now b).1
unfolding round refill take_token
round-IsUnit now b v = ground arith

spent :
    (now : ℕ) (b : TokenBucket)
    → IsUnit b
    → (round now b).0 ≡ true
    → ((round now b).1.tokens ≡ 0)
      × ((round now b).1.updated_at ≡ some now)
      × ((round now b).1.rate ≡ b.rate)
unfolding round refill take_token
spent now b v go = ground arith

-- With a capacity of one token and at most that in the bucket, from a start on, in a window
-- shorter than k times the spacing that the rate asks for, at most k requests start, that one
-- included.
pub starts_bound :
    (now k : ℕ) (gaps : List ℕ) (b : TokenBucket)
    → IsUnit b
    → (round now b).0 ≡ true
    → span gaps * b.rate < k * token
    → 1 + starts now gaps (round now b).1 ≤ k
starts_bound now k gaps b v go short =
    let (empty, last, same) = spent now b v go in
    let paid = starts_paid now gaps (round now b).1 last in
    let paid' : starts now gaps (round now b).1 * token ≤ 0 + span gaps * b.rate =
      rw (empty, same) at paid in
    omega arith
