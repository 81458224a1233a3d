-- ===== src/LeakCheck/Pacing/Examples.antt =====
-- The theorems on the bucket at a rate of three a second.
use leakcheck_hub.Prelude.{ℕ, ◌+◌, ◌≤◌, true, List, [], ◌∷◌, ◌≡◌, refl, arith}
use leakcheck_hub.LeakCheck.Pacing.{new_bucket, refill, take_token, round}
use leakcheck_hub.LeakCheck.Pacing.Bound.{IsUnit, starts, span, starts_bound}

fresh-IsUnit : IsUnit (new_bucket 3)
fresh-IsUnit = record { one = refl; filled = omega arith }

starts_first : (round 1000000 (new_bucket 3)).0 ≡ true
unfolding round refill take_token
starts_first = refl

-- Five more rounds, within less than a second.
abbrev gaps : List ℕ
gaps = 100000 ∷ 250000 ∷ 10000 ∷ 333334 ∷ 200000 ∷ []

starts_bound_example : 1 + starts 1000000 gaps (round 1000000 (new_bucket 3)).1 ≤ 3
unfolding span
starts_bound_example =
    starts_bound 1000000 3 gaps (new_bucket 3) fresh-IsUnit starts_first (omega arith)
