-- ===== src/LeakCheck/Pacing.antt =====
-- app/leakcheck.py, `TokenBucket`: instants are microseconds and tokens are millionths, so that a
-- whole rate per second adds whole numbers of them.
pub mod Bound
mod Examples
use leakcheck_hub.Prelude.{
  ℕ, ◌+◌, ◌-◌, ◌*◌, min, Bool, true, false, Option, none, some, List, [], ◌∷◌, ltb, leb,
  if◌then◌else◌,
}

-- One token.
abbrev pub token : ℕ
token = 1000000

pub record TokenBucket : Type 0 where
  pub rate : ℕ
  pub capacity : ℕ
  pub tokens : ℕ
  pub updated_at : Option ℕ

abbrev pub new_bucket : ℕ → TokenBucket
new_bucket rate = record { rate = rate; capacity = token; tokens = token; updated_at = none }

-- The first half of a round: the tokens that have come in since the last one.
pub refill : ℕ → TokenBucket → TokenBucket
refill now b = elim b.updated_at [
  | none ↦ record b { updated_at = some now }
  | some last ↦ record b {
    tokens = min b.capacity (b.tokens + (now - last) * b.rate);
    updated_at = some now;
  }
]

take_token : TokenBucket → Bool × TokenBucket
take_token b =
    if leb token b.tokens then (true, record b { tokens = b.tokens - token }) else (false, b)

-- One round of `acquire` under the lock at the instant `now`: whether the caller may start, and the
-- bucket. A caller that may not sleeps for `(1 - tokens) / rate`, a quotient of floats, and comes
-- back; how long it slept is seen in the instant of its next round.
pub round : ℕ → TokenBucket → Bool × TokenBucket
unfolding refill take_token
round now b = take_token (refill now b)
