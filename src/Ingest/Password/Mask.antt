-- ===== src/Ingest/Password/Mask.antt =====
-- app/finding_crypto.py: the mask of a password.
use leakcheck_hub.Prelude.{
  ℕ, zero, suc, ◌-◌, ◌≤◌, Bool, not, [], ◌∷◌, Text, ltb, length, length-append, ltb_false→le, count,
  count-append, ◌==◌, ◌≡◌, refl, ap, arith, inl, inr, Bool-cases,
}
use leakcheck_hub.Ingest.Library.{Library}
use leakcheck_hub.Ingest.Password.{bullet, bullets, last_of, safe_mask_character, mask_password}

length-bullets : (n : ℕ) → length (bullets n) ≡ n
unfolding bullets
length-bullets zero = refl
length-bullets (suc n) = ap suc (length-bullets n)

-- A character of the mask that may come from the password.
abbrev is_shown : ℕ → Bool
is_shown c = not (c == bullet)

count-bullets : (n : ℕ) → count is_shown (bullets n) ≡ 0
unfolding bullets count
count-bullets zero = refl
count-bullets (suc n) = omega (arith, count-bullets n)

-- The mask of a password has as many characters as the password, and at most three of them are not
-- bullets.
pub mask_password-length :
    (lib : Library) (p : Text)
    → (length (mask_password lib p) ≡ length p) × (count is_shown (mask_password lib p) ≤ 3)
unfolding mask_password count
mask_password-length lib [] = (refl, omega arith)
mask_password-length lib (c ∷ []) = (refl, ground arith)
mask_password-length lib (c ∷ d ∷ s) = elim (Bool-cases (ltb (length (c ∷ d ∷ s)) 6)) [
  | inl e ↦ rw e (
    omega (arith, length-bullets (suc (suc (length s)) - 1)),
    ground (arith, count-bullets (suc (suc (length s)) - 1)),
  )
  | inr e ↦ rw e (
    (let long : 6 ≤ length (c ∷ d ∷ s) = ltb_false→le (length (c ∷ d ∷ s)) 6 e in
        omega (
          arith,
          length-append (bullets (length (c ∷ d ∷ s) - 3))
              (safe_mask_character lib (last_of d s) ∷ []),
          length-bullets (length (c ∷ d ∷ s) - 3),
        )),
    ground (
      arith,
      count-append is_shown (bullets (length (c ∷ d ∷ s) - 3))
          (safe_mask_character lib (last_of d s) ∷ []),
      count-bullets (length (c ∷ d ∷ s) - 3),
    ),
  )
]
