-- ===== src/Batches/Like.antt =====
-- app/batches.py: `_escape_like` and `_escaped_ou_prefix`, and what PostgreSQL documents of LIKE.
pub mod Patterns
mod Examples
use leakcheck_hub.Prelude.{
  ℕ, Bool, true, false, ◌&&◌, ◌||◌, List, [], ◌∷◌, ◌++◌, Text, codes, ◌==◌, if◌then◌else◌, ◌≡◌,
  refl, arith, ap, ◌∙◌, sym, inl, inr, Bool-cases,
}

-- `value.replace(old, new)` for a single character.
replace : ℕ → Text → Text → Text
replace old new [] = []
replace old new (c ∷ s) = let rest = replace old new s in if c == old then new ++ rest else c ∷ rest

-- `_escape_like`
pub escape_like : Text → Text
unfolding replace
escape_like value =
    replace b'_' (codes "\\_") (replace b'%' (codes "\\%") (replace b'\\' (codes "\\\\") value))

-- `path.rstrip("/")`
pub rstrip_slash : Text → Text
rstrip_slash [] = []
rstrip_slash (c ∷ s) = elim (rstrip_slash s) [
  | [] ↦ if c == b'/' then [] else c ∷ []
  | d ∷ r ↦ c ∷ d ∷ r
]

-- The pattern of a domain target: `f"%@{_escape_like(domain)}"`.
pub domain_pattern : Text → Text
unfolding escape_like
domain_pattern domain = codes "%@" ++ escape_like domain

-- `_escaped_ou_prefix`
pub escaped_ou_prefix : Text → Text
unfolding escape_like rstrip_slash
escaped_ou_prefix path = escape_like (rstrip_slash path ++ codes "/") ++ codes "%"

abbrev pub is_special : ℕ → Bool
is_special c = c == b'%' || c == b'_' || c == b'\\'

abbrev pub is_nil : Text → Bool
is_nil [] = true
is_nil (c ∷ s) = false

-- LIKE with the escape character `\`, and ILIKE, by the test that compares two characters: a pattern
-- matches a text as a whole.
pub record LikeOperator (same : ℕ → ℕ → Bool) : Type 0 where
  pub like : Text → Text → Bool
  pub at_end : (s : Text) → like [] s ≡ is_nil s
  pub percent_end : (p : Text) → like (b'%' ∷ p) [] ≡ like p []
  pub percent :
      (p : Text) (c : ℕ) (s : Text)
      → like (b'%' ∷ p) (c ∷ s) ≡ (like p (c ∷ s) || like (b'%' ∷ p) s)
  pub escaped_end : (c : ℕ) (p : Text) → like (b'\\' ∷ c ∷ p) [] ≡ false
  pub escaped :
      (c : ℕ) (p : Text) (d : ℕ) (s : Text) → like (b'\\' ∷ c ∷ p) (d ∷ s) ≡ (same c d && like p s)
  pub literal_end : (c : ℕ) (p : Text) → is_special c ≡ false → like (c ∷ p) [] ≡ false
  pub literal :
      (c : ℕ) (p : Text) (d : ℕ) (s : Text)
      → is_special c ≡ false
      → like (c ∷ p) (d ∷ s) ≡ (same c d && like p s)

module _ (same : ℕ → ℕ → Bool) where
  -- A text that begins with a given one, and one that ends with a given one.
  pub begins : Text → Text → Bool
  begins [] s = true
  begins (c ∷ p) [] = false
  begins (c ∷ p) (d ∷ s) = same c d && begins p s

  pub is_same : Text → Text → Bool
  is_same [] [] = true
  is_same [] (d ∷ s) = false
  is_same (c ∷ p) [] = false
  is_same (c ∷ p) (d ∷ s) = same c d && is_same p s

  pub ends : Text → Text → Bool
  unfolding is_same
  ends p [] = is_same p []
  ends p (d ∷ s) = is_same p (d ∷ s) || ends p s
