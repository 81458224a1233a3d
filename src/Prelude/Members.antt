-- ===== src/Prelude/Members.antt =====
-- Membership of a row in a table.
use mathlib.Core.List.{List, [], ◌∷◌}
use leakcheck_hub.Prelude.Lists.{All}

pub data In {A : Type 0} (a : A) : List A → Type 0 where
  here : {xs : List A} → In a (a ∷ xs)
  there : {b : A} {xs : List A} → In a xs → In a (b ∷ xs)

module _ {A : Type 0} where
  pub All-In : (P : A → Type 0) (a : A) (xs : List A) → In a xs → All P xs → P a
  All-In P a [] i h = elim i [ ]
  All-In P a (_ ∷ xs) here h = h.0
  All-In P a (_ ∷ xs) (there i) h = All-In P a xs i h.1

  All-In_past : (b : A) (xs ys : List A) → All (λ a. In a xs) ys → All (λ a. In a (b ∷ xs)) ys
  All-In_past b xs [] h = tt
  All-In_past b xs (y ∷ ys) h = (there h.0, All-In_past b xs ys h.1)

  -- Each row is in its table.
  pub All-In_self : (xs : List A) → All (λ a. In a xs) xs
  All-In_self [] = tt
  All-In_self (x ∷ xs) = (here, All-In_past x xs xs (All-In_self xs))
