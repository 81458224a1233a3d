-- ===== src/Batches/Like/Patterns.antt =====
-- app/batches.py: which texts the patterns of batch targets match.
use leakcheck_hub.Prelude.{
  ℕ, Bool, true, false, ◌&&◌, [], ◌∷◌, ◌++◌, Text, codes, ◌==◌, if◌then◌else◌, ◌≡◌, refl, arith, ap,
  ◌∙◌, sym, inl, inr, Bool-cases,
}
use mathlib.Core.List.{append_assoc, append-nil}
use leakcheck_hub.Batches.Like.{
  replace, escape_like, rstrip_slash, escaped_ou_prefix, domain_pattern, is_special, LikeOperator,
  begins, is_same, ends,
}

-- One character behind all three replacements.
==_eq : (a b : ℕ) → (a == b) ≡ true → a ≡ b
==_eq a b h = ground arith

abbrev escape_char : ℕ → Text
escape_char c = if is_special c then b'\\' ∷ c ∷ [] else c ∷ []

escape_like-cons : (c : ℕ) (s : Text) → escape_like (c ∷ s) ≡ escape_char c ++ escape_like s
unfolding escape_like replace
escape_like-cons c s = elim (Bool-cases (c == b'\\')) [
  | inl e ↦ rw (e, ==_eq c b'\\' e) refl
  | inr e ↦ elim (Bool-cases (c == b'%')) [
    | inl f ↦ rw (e, f, ==_eq c b'%' f) refl
    | inr f ↦ elim (Bool-cases (c == b'_')) [
      | inl g ↦ rw (e, f, g, ==_eq c b'_' g) refl
      | inr g ↦ rw (e, f, g) refl
    ]
  ]
]

escape_like-split :
    (c : ℕ) (v p : Text) → escape_like (c ∷ v) ++ p ≡ escape_char c ++ (escape_like v ++ p)
escape_like-split c v p =
    ap (λ q. q ++ p) (escape_like-cons c v) ∙ append_assoc (escape_char c) (escape_like v) p

-- Whether a text goes on with another one and then satisfies a test.
after : (ℕ → ℕ → Bool) → Text → (Text → Bool) → Text → Bool
after same [] k s = k s
after same (c ∷ v) k [] = false
after same (c ∷ v) k (d ∷ s) = same c d && after same v k s

module _ (same : ℕ → ℕ → Bool) (op : LikeOperator same) where
  like-char :
      (c : ℕ) (p : Text) (d : ℕ) (s : Text)
      → op.like (escape_char c ++ p) (d ∷ s) ≡ (same c d && op.like p s)
  like-char c p d s = elim (Bool-cases (is_special c)) [
    | inl e ↦ rw (e, if◌then◌else◌) (op.escaped c p d s)
    | inr e ↦ rw (e, if◌then◌else◌) (op.literal c p d s e)
  ]

  like-char_end : (c : ℕ) (p : Text) → op.like (escape_char c ++ p) [] ≡ false
  like-char_end c p = elim (Bool-cases (is_special c)) [
    | inl e ↦ rw (e, if◌then◌else◌) (op.escaped_end c p)
    | inr e ↦ rw (e, if◌then◌else◌) (op.literal_end c p e)
  ]

  -- The escaped text stands for itself, whatever pattern follows it.
  like-escape : (v p s : Text) → op.like (escape_like v ++ p) s ≡ after same v (op.like p) s
  unfolding after
  like-escape [] p s = unfold escape_like in unfold replace in refl
  like-escape (c ∷ v) p [] =
      ap (λ q. op.like q []) (escape_like-split c v p) ∙ like-char_end c (escape_like v ++ p)
  like-escape (c ∷ v) p (d ∷ s) =
      ap (λ q. op.like q (d ∷ s)) (escape_like-split c v p)
      ∙ like-char c (escape_like v ++ p) d s
      ∙ ap (λ b. same c d && b) (like-escape v p s)

  like-percent : (s : Text) → op.like (codes "%") s ≡ true
  like-percent [] = op.percent_end [] ∙ op.at_end []
  like-percent (d ∷ s) = op.percent [] d s ∙ rw (like-percent s) (ground arith)

  after-begins : (v s : Text) → after same v (op.like (codes "%")) s ≡ begins same v s
  unfolding after begins
  after-begins [] s = like-percent s
  after-begins (c ∷ v) [] = refl
  after-begins (c ∷ v) (d ∷ s) = ap (λ b. same c d && b) (after-begins v s)

  after-is_same : (v s : Text) → after same v (op.like []) s ≡ is_same same v s
  unfolding after is_same
  after-is_same [] [] = op.at_end []
  after-is_same [] (d ∷ s) = op.at_end (d ∷ s)
  after-is_same (c ∷ v) [] = refl
  after-is_same (c ∷ v) (d ∷ s) = ap (λ b. same c d && b) (after-is_same v s)

  like-whole : (v s : Text) → op.like (escape_like v) s ≡ is_same same v s
  like-whole v s =
      ap (λ q. op.like q s) (sym (append-nil (escape_like v)))
      ∙ like-escape v [] s
      ∙ after-is_same v s

  like-ends : (v s : Text) → op.like (b'%' ∷ escape_like v) s ≡ ends same v s
  unfolding ends
  like-ends v [] = op.percent_end (escape_like v) ∙ like-whole v []
  like-ends v (d ∷ s) =
      op.percent (escape_like v) d s ∙ rw (like-whole v (d ∷ s), like-ends v s) refl

  -- With LIKE as PostgreSQL documents it, the pattern of an OU matches exactly the paths that begin
  -- with the OU's path, its trailing slashes replaced by one, whatever `%`, `_` and `\` the path
  -- holds; and the pattern of a domain matches exactly the addresses that end with `@` and it.
  pub like-escaped_ou_prefix :
      (path domain s : Text)
      → (op.like (escaped_ou_prefix path) s ≡ begins same (rstrip_slash path ++ codes "/") s)
        × (op.like (domain_pattern domain) s ≡ ends same (codes "@" ++ domain) s)
  unfolding escaped_ou_prefix domain_pattern
  like-escaped_ou_prefix path domain s = (
    like-escape (rstrip_slash path ++ codes "/") (codes "%") s
        ∙ after-begins (rstrip_slash path ++ codes "/") s,
    ap (λ q. op.like (b'%' ∷ q) s) (sym (escape_like-cons b'@' domain))
        ∙ like-ends (codes "@" ++ domain) s,
  )
