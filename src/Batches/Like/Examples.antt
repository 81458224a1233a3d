-- ===== src/Batches/Like/Examples.antt =====
-- The theorem on patterns at an operator that satisfies the laws, and a path with an underscore.
use leakcheck_hub.Prelude.{
  ℕ, Bool, true, false, ◌&&◌, ◌||◌, [], ◌∷◌, ◌++◌, Text, codes, ◌==◌, if◌then◌else◌, ◌≡◌, refl,
  arith,
}
use leakcheck_hub.Batches.Like.{
  escaped_ou_prefix, domain_pattern, rstrip_slash, is_special, is_nil, LikeOperator, begins, ends,
}
use leakcheck_hub.Batches.Like.Patterns.{like-escaped_ou_prefix}

abbrev equal : ℕ → ℕ → Bool
equal c d = c == d

anywhere : (Text → Bool) → Text → Bool
anywhere k [] = k []
anywhere k (c ∷ s) = k (c ∷ s) || anywhere k s

one : ℕ → (Text → Bool) → Text → Bool
one c k [] = false
one c k (d ∷ s) = equal c d && k s

-- A pattern, with whether the character before it was the escape character.
matches : Bool → Text → Text → Bool
unfolding anywhere one
matches false [] s = is_nil s
matches true [] s = false
matches true (c ∷ p) s = let rest = matches false p in one c rest s
matches false (c ∷ p) s =
    let rest = matches false p in
    let quoted = matches true p in
    if c == b'%' then anywhere rest s else if c == b'\\' then quoted s else one c rest s

or-false : (a b : Bool) → (a || b) ≡ false → (a ≡ false) × (b ≡ false)
or-false a b h = (ground arith, ground arith)

plain :
    (c : ℕ) (p : Text) (d : ℕ) (s : Text)
    → is_special c ≡ false
    → matches false (c ∷ p) (d ∷ s) ≡ (equal c d && matches false p s)
unfolding matches one
plain c p d s e =
    let (wild, backslash) = or-false (c == b'%' || c == b'_') (c == b'\\') e in
    let percent = (or-false (c == b'%') (c == b'_') wild).0 in rw (percent, backslash) refl

operator : LikeOperator equal
unfolding matches anywhere one
operator = record {
  like = matches false;
  at_end = λ s. refl;
  percent_end = λ p. refl;
  percent = λ p c s. refl;
  escaped_end = λ c p. refl;
  escaped = λ c p d s. refl;
  literal_end = λ c p e. ground arith;
  literal = plain;
}

like-escaped_ou_prefix_example :
    (operator.like (escaped_ou_prefix (codes "/Staff_1/")) (codes "/Staff_1/IT")
      ≡ begins equal (rstrip_slash (codes "/Staff_1/") ++ codes "/") (codes "/Staff_1/IT"))
    × (operator.like (domain_pattern (codes "x.test")) (codes "/Staff_1/IT")
        ≡ ends equal (codes "@" ++ codes "x.test") (codes "/Staff_1/IT"))
like-escaped_ou_prefix_example =
    like-escaped_ou_prefix equal operator (codes "/Staff_1/") (codes "x.test") (codes "/Staff_1/IT")
