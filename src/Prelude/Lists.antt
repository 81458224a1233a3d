-- ===== src/Prelude/Lists.antt =====
-- Lists measured by native numbers, and tables: what `SELECT`, `UPDATE` and `DELETE` do to a list
-- of rows.
use Prim.Native.Nat.{ℕ, zero, suc, ◌+◌, ◌-◌, ◌≤◌, min}
use mathlib.Core.Path.{◌≡◌, refl, ap}
use mathlib.Core.Bool.{Bool, true, false, ◌&&◌, ◌||◌}
use mathlib.Core.Option.{Option, none, some}
use mathlib.Core.List.{List, [], ◌∷◌, ◌++◌}
use native.Mathlib.Omega.{arith}
use mathlib.Core.Logic.{inl, inr}
use leakcheck_hub.Prelude.Tests.{if◌then◌else◌, ◌==◌, Bool-cases}

module _ {ℓ} {A : Type ℓ} where
  abbrev pub length : List A → ℕ
  length [] = 0
  length (x ∷ xs) = suc (length xs)

  abbrev pub take : ℕ → List A → List A
  take zero xs = []
  take (suc n) [] = []
  take (suc n) (x ∷ xs) = x ∷ take n xs

  abbrev pub drop : ℕ → List A → List A
  drop zero xs = xs
  drop (suc n) [] = []
  drop (suc n) (x ∷ xs) = drop n xs

  -- The rows that satisfy a test, in order (`WHERE`).
  unfoldable pub select : (A → Bool) → List A → List A
  select p [] = []
  select p (x ∷ xs) = let rest = select p xs in if p x then x ∷ rest else rest

  -- The first row that satisfies a test.
  unfoldable pub find : (A → Bool) → List A → Option A
  find p [] = none
  find p (x ∷ xs) = let rest = find p xs in if p x then some x else rest

  -- `UPDATE … SET … WHERE`: rewrites the rows that satisfy a test.
  unfoldable pub update : (A → Bool) → (A → A) → List A → List A
  update p f [] = []
  update p f (x ∷ xs) = (if p x then f x else x) ∷ update p f xs

  -- `count(*) FILTER (WHERE …)`
  unfoldable pub count : (A → Bool) → List A → ℕ
  count p [] = 0
  count p (x ∷ xs) = (if p x then 1 else 0) + count p xs

  -- `any(…)`
  unfoldable pub any : (A → Bool) → List A → Bool
  any p [] = false
  any p (x ∷ xs) = p x || any p xs

  -- `all(…)`
  unfoldable pub all : (A → Bool) → List A → Bool
  all p [] = true
  all p (x ∷ xs) = p x && all p xs

  -- Every element satisfies a predicate.
  abbrev pub All {κ} : (A → Type κ) → List A → Type κ
  All P [] = Unit
  All P (x ∷ xs) = P x × All P xs

module _ {ℓ} {A : Type ℓ} where
  pub length-append : (xs ys : List A) → length (xs ++ ys) ≡ length xs + length ys
  length-append [] ys = omega arith
  length-append (x ∷ xs) ys = omega (arith, length-append xs ys)

  pub length-update : (p : A → Bool) (f : A → A) (xs : List A) → length (update p f xs) ≡ length xs
  unfolding update
  length-update p f [] = refl
  length-update p f (x ∷ xs) = ap suc (length-update p f xs)

  pub length-take : (n : ℕ) (xs : List A) → length (take n xs) ≤ n
  length-take zero xs = omega arith
  length-take (suc n) [] = omega arith
  length-take (suc n) (x ∷ xs) = omega (arith, length-take n xs)

  pub length-take-min : (n : ℕ) (xs : List A) → length (take n xs) ≡ min n (length xs)
  length-take-min zero xs = omega arith
  length-take-min (suc n) [] = omega arith
  length-take-min (suc n) (x ∷ xs) = omega (arith, length-take-min n xs)

  pub length-drop : (n : ℕ) (xs : List A) → length (drop n xs) ≡ length xs - n
  length-drop zero xs = omega arith
  length-drop (suc n) [] = omega arith
  length-drop (suc n) (x ∷ xs) = omega (arith, length-drop n xs)

  pub take_all : (n : ℕ) (xs : List A) → length xs ≤ n → take n xs ≡ xs
  take_all zero [] h = refl
  take_all zero (x ∷ xs) h = absurd (omega arith)
  take_all (suc n) [] h = refl
  take_all (suc n) (x ∷ xs) h = ap (λ l. x ∷ l) (take_all n xs (omega arith))

  -- Two consecutive slices are one.
  pub take-append-take :
      (m n k : ℕ) (xs : List A) → k ≡ m + n → take m xs ++ take n (drop m xs) ≡ take k xs
  take-append-take zero n k xs e = let same : n ≡ k = omega arith in rw same
  take-append-take (suc m) n zero xs e = absurd (omega arith)
  take-append-take (suc m) zero (suc k) [] e = refl
  take-append-take (suc m) (suc n) (suc k) [] e = refl
  take-append-take (suc m) n (suc k) (x ∷ xs) e =
      ap (λ l. x ∷ l) (take-append-take m n k xs (omega arith))

  pub count-append : (p : A → Bool) (xs ys : List A) → count p (xs ++ ys) ≡ count p xs + count p ys
  unfolding count
  count-append p [] ys = omega arith
  count-append p (x ∷ xs) ys = ground (arith, count-append p xs ys)

  pub count-snoc :
      (p : A → Bool) (xs : List A) (x : A)
      → count p (xs ++ x ∷ []) ≡ count p xs + (if p x then 1 else 0)
  unfolding count
  count-snoc p xs x = omega (arith, count-append p xs (x ∷ []))

  pub count-le-length : (p : A → Bool) (xs : List A) → count p xs ≤ length xs
  unfolding count
  count-le-length p [] = omega arith
  count-le-length p (x ∷ xs) = ground (arith, count-le-length p xs)

  pub find-holds : (p : A → Bool) (xs : List A) (x : A) → find p xs ≡ some x → p x ≡ true
  unfolding find
  find-holds p [] x h = ground arith
  find-holds p (y ∷ xs) x h = ground (arith, find-holds p xs x)

  pub any-append : (p : A → Bool) (xs ys : List A) → any p (xs ++ ys) ≡ (any p xs || any p ys)
  unfolding any
  any-append p [] ys = refl
  any-append p (x ∷ xs) ys = ground (arith, any-append p xs ys)

-- `value in ids` on numbers.
unfoldable pub mem : ℕ → List ℕ → Bool
mem k [] = false
mem k (x ∷ xs) = k == x || mem k xs

-- What a search finds after rows were rewritten.
module _ {ℓ} {A : Type ℓ} (p : A → Bool) (f : A → A) where
  pub find-update :
      ((x : A) → p x ≡ true → p (f x) ≡ true)
      → (xs : List A) (x : A) → find p xs ≡ some x
      → find p (update p f xs) ≡ some (f x)
  unfolding find update
  find-update keep [] x h = ground arith
  find-update keep (y ∷ xs) x h = ground (arith, keep y, find-update keep xs x)

  -- A row that is found after the rewriting comes from one that was found before it.
  pub find-update_from :
      (q : A → Bool)
      → ((x : A) → q (f x) ≡ q x)
      → (xs : List A) (y : A) → find q (update p f xs) ≡ some y
      → (x : A) × (find q xs ≡ some x) × (y ≡ (if p x then f x else x))
  unfolding find update
  find-update_from q keep [] y h = absurd (ground arith)
  find-update_from q keep (x ∷ xs) y h = elim (Bool-cases (q x)) [
    | inl hit ↦ (x, ground arith, ground (arith, keep x))
    | inr miss ↦
        let (z, found, same) = find-update_from q keep xs y (ground (arith, keep x)) in
        (z, ground arith, same)
  ]

  -- Rewriting other rows does not change which rows a test finds.
  pub find-update_keep :
      (q : A → Bool)
      → ((x : A) → q (f x) ≡ q x)
      → (xs : List A) → find q xs ≡ none
      → find q (update p f xs) ≡ none
  unfolding find update
  find-update_keep q keep [] h = refl
  find-update_keep q keep (y ∷ xs) h = ground (arith, keep y, find-update_keep q keep xs)

  -- What rewriting preserves still holds of the row that a test finds.
  pub find-update_holds {κ} :
      (q : A → Bool) (P : A → Type κ)
      → ((x : A) → q (f x) ≡ q x)
      → ((x : A) → P x → P (f x))
      → (xs : List A) → ((x : A) × (find q xs ≡ some x) × P x)
      → (x : A) × (find q (update p f xs) ≡ some x) × P x
  unfolding find update
  find-update_holds q P keep holds [] (x, h, e) = absurd (ground arith)
  find-update_holds q P keep holds (y ∷ xs) (x, h, e) = elim (Bool-cases (q y)) [
    | inl hit ↦
        let same : y ≡ x = ground arith in
        let py : P y = rw same e in
        elim (Bool-cases (p y)) [
          | inl set ↦ (f y, ground (arith, keep y), holds y py)
          | inr unset ↦ (y, ground arith, py)
        ]
    | inr miss ↦
        let (z, found, pz) = find-update_holds q P keep holds xs (x, ground arith, e) in
        (z, ground (arith, keep y), pz)
  ]

  pub All-update {κ} :
      (P : A → Type κ)
      → ((x : A) → P x → P (f x))
      → (xs : List A) → All P xs
      → All P (update p f xs)
  unfolding update
  All-update P keep [] h = tt
  All-update P keep (x ∷ xs) h = elim (Bool-cases (p x)) [
    | inl e ↦ rw e (keep x h.0, All-update P keep xs h.1)
    | inr e ↦ rw e (h.0, All-update P keep xs h.1)
  ]

-- Rewriting the rows of a test.
module _ {ℓ} {A : Type ℓ} (p : A → Bool) (f : A → A) where
  pub count-update_out : ((x : A) → p (f x) ≡ false) → (xs : List A) → count p (update p f xs) ≡ 0
  unfolding count update
  count-update_out out [] = refl
  count-update_out out (x ∷ xs) = ground (arith, out x, count-update_out out xs)

  -- Rows that another test selects are as they were, if no row passes both tests, before or after.
  pub select-update_ne :
      (q : A → Bool)
      → ((x : A) → p x ≡ true → (q x ≡ false) × (q (f x) ≡ false))
      → (xs : List A) → select q (update p f xs) ≡ select q xs
  unfolding select update
  select-update_ne q apart [] = refl
  select-update_ne q apart (x ∷ xs) = ground (arith, apart x, select-update_ne q apart xs)

module _ {ℓ} {A : Type ℓ} where
  pub All-find {κ} :
      (P : A → Type κ) (p : A → Bool) (xs : List A) (x : A) → All P xs → find p xs ≡ some x → P x
  unfolding find
  All-find P p [] x h e = absurd (ground arith)
  All-find P p (y ∷ xs) x h e = elim (Bool-cases (p y)) [
    | inl hit ↦ let same : y ≡ x = ground arith in rw (← same) h.0
    | inr miss ↦ All-find P p xs x h.1 (ground arith)
  ]

  pub find-append :
      (p : A → Bool) (xs ys : List A) (x : A) → find p xs ≡ some x → find p (xs ++ ys) ≡ some x
  unfolding find
  find-append p [] ys x h = ground arith
  find-append p (y ∷ xs) ys x h = ground (arith, find-append p xs ys x)

  pub find-append_none :
      (p : A → Bool) (xs ys : List A) → find p xs ≡ none → find p (xs ++ ys) ≡ find p ys
  unfolding find
  find-append_none p [] ys h = refl
  find-append_none p (y ∷ xs) ys h = ground (arith, find-append_none p xs ys)

  pub All-append {κ} : (P : A → Type κ) (xs ys : List A) → All P xs → All P ys → All P (xs ++ ys)
  All-append P [] ys hx hy = hy
  All-append P (x ∷ xs) ys hx hy = (hx.0, All-append P xs ys hx.1 hy)
