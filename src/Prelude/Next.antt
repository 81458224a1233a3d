-- ===== src/Prelude/Next.antt =====
-- `SELECT … WHERE … ORDER BY at, id LIMIT 1` on a table: the row that is taken, and what it is.
use Prim.Native.Nat.{ℕ, ◌≤◌}
use mathlib.Core.Path.{◌≡◌, refl, subst}
use mathlib.Core.Logic.{◌≢◌, ◌⊎◌, inl, inr}
use mathlib.Core.Bool.{Bool, true, false, ◌&&◌, ◌||◌}
use mathlib.Core.Option.{Option, none, some}
use mathlib.Core.List.{List, [], ◌∷◌}
use native.Mathlib.Omega.{arith}
use leakcheck_hub.Prelude.Tests.{if◌then◌else◌, ◌==◌, ltb, leb, Bool-cases, Option-cases}
use leakcheck_hub.Prelude.Lists.{find, select, All}
use leakcheck_hub.Prelude.Members.{In, All-In_self}
use leakcheck_hub.Prelude.Keys.{Keyed, All-find_self, All-select}

module _ {A : Type 0} (at id : A → ℕ) where
  -- The order of the rows.
  abbrev pub leads : A → A → Bool
  leads a b = ltb (at a) (at b) || (at a == at b && leb (id a) (id b))

  unfoldable pub earlier : A → Option A → Option A
  earlier a none = some a
  earlier a (some b) = if leads a b then some a else some b

  unfoldable pub first_row : List A → Option A
  unfolding earlier
  first_row [] = none
  first_row (a ∷ rest) = earlier a (first_row rest)

  -- The first row that satisfies a test.
  unfoldable pub first_where : (A → Bool) → List A → Option A
  unfolding first_row select
  first_where due xs = first_row (select due xs)

  leads_trans : (a b c : A) → leads a b ≡ true → leads b c ≡ true → leads a c ≡ true
  leads_trans a b c h k = ground arith

  leads_total : (a b : A) → leads a b ≡ false → leads b a ≡ true
  leads_total a b h = ground arith

  leads_refl : (a : A) → leads a a ≡ true
  leads_refl a = ground arith

  pub leads-le : (a b : A) → leads a b ≡ true → at a ≤ at b
  leads-le a b h = ground arith

  -- A row that leads every row of a list.
  abbrev pub First : A → List A → Type 0
  First a xs = All (λ b. leads a b ≡ true) xs

  First-leads : (a b : A) (xs : List A) → leads a b ≡ true → First b xs → First a xs
  First-leads a b [] h all = tt
  First-leads a b (c ∷ xs) h all = (leads_trans a b c h all.0, First-leads a b xs h all.1)

  earlier-some : (a : A) (o : Option A) → earlier a o ≢ none
  unfolding earlier
  earlier-some a none = ground arith
  earlier-some a (some b) = ground arith

  first_row-none : (xs : List A) → first_row xs ≡ none → xs ≡ []
  unfolding first_row
  first_row-none [] h = refl
  first_row-none (a ∷ xs) h = absurd (earlier-some a (first_row xs) h)

  First-nil : (a : A) (xs : List A) → xs ≡ [] → First a xs
  First-nil a [] e = tt
  First-nil a (b ∷ xs) e = absurd (ground arith)

  first_row-First : (xs : List A) (a : A) → first_row xs ≡ some a → First a xs
  unfolding first_row earlier
  first_row-First [] a h = tt
  first_row-First (b ∷ xs) a h = elim (Option-cases (first_row xs)) [
    | inl e ↦
        subst (λ c. First c (b ∷ xs)) {x = b} {y = a} (ground arith)
          (leads_refl b, First-nil b xs (first_row-none xs e))
    | inr (c, e) ↦ elim (Bool-cases (leads b c)) [
      | inl first ↦
          subst (λ d. First d (b ∷ xs)) {x = b} {y = a} (ground arith)
            (leads_refl b, First-leads b c xs first (first_row-First xs c e))
      | inr second ↦
          subst (λ d. First d (b ∷ xs)) {x = c} {y = a} (ground arith)
            (leads_total b c second, first_row-First xs c e)
    ]
  ]

  -- The row that is found is one of the list: what holds of all of them holds of it.
  first_row-All : (P : A → Type 0) (xs : List A) (a : A) → All P xs → first_row xs ≡ some a → P a
  unfolding first_row earlier
  first_row-All P [] a all h = absurd (ground arith)
  first_row-All P (b ∷ xs) a all h = elim (Option-cases (first_row xs)) [
    | inl e ↦ subst P {x = b} {y = a} (ground arith) all.0
    | inr (c, e) ↦ elim (Bool-cases (leads b c)) [
      | inl first ↦ subst P {x = b} {y = a} (ground arith) all.0
      | inr second ↦ first_row-All P xs a all.1 (ground arith)
    ]
  ]

  module _ (due : A → Bool) where
    All-select_due : (xs : List A) → All (λ a. due a ≡ true) (select due xs)
    unfolding select
    All-select_due [] = tt
    All-select_due (a ∷ xs) = elim (Bool-cases (due a)) [
      | inl hit ↦ rw hit (hit, All-select_due xs)
      | inr miss ↦ rw miss (All-select_due xs)
    ]

    pub first_where-All :
        (P : A → Type 0) (xs : List A) (a : A) → All P xs → first_where due xs ≡ some a → P a
    unfolding first_where
    first_where-All P xs a all h = first_row-All P (select due xs) a (All-select P due xs all) h

    -- Under the key, the row that is taken is the one that its identifier names.
    pub first_where-find :
        (xs : List A) (a : A)
        → Keyed id xs
        → first_where due xs ≡ some a
        → find (λ b. id b == id a) xs ≡ some a
    first_where-find xs a keyed h =
        first_where-All (λ b. find (λ c. id c == id b) xs ≡ some b) xs a (All-find_self id xs keyed)
          h

    -- The row that is taken satisfies the test and leads every row that does.
    pub first_where-First :
        (xs : List A) (a : A)
        → first_where due xs ≡ some a
        → (due a ≡ true) × First a (select due xs)
    unfolding first_where
    first_where-First xs a h = (
      first_row-All (λ b. due b ≡ true) (select due xs) a (All-select_due xs) h,
      first_row-First (select due xs) a h,
    )

    -- A row that leads the selected ones leads every row that satisfies the test.
    First-due :
        (xs : List A) (a : A)
        → First a (select due xs)
        → All (λ b. (due b ≡ false) ⊎ (leads a b ≡ true)) xs
    unfolding select
    First-due [] a h = tt
    First-due (b ∷ xs) a h = elim (Bool-cases (due b)) [
      | inl hit ↦
          let h' : First a (b ∷ select due xs) = rw hit at h in (inr h'.0, First-due xs a h'.1)
      | inr miss ↦ let h' : First a (select due xs) = rw miss at h in (inl miss, First-due xs a h')
    ]

    All-miss : (xs : List A) → select due xs ≡ [] → All (λ b. due b ≡ false) xs
    unfolding select
    All-miss [] h = tt
    All-miss (b ∷ xs) h = elim (Bool-cases (due b)) [
      | inl hit ↦ absurd (ground arith)
      | inr miss ↦ (miss, All-miss xs (rw miss at h))
    ]

    -- The row that is taken is one of the table, satisfies the test, and leads every row that does.
    pub first_where-some :
        (xs : List A) (a : A)
        → first_where due xs ≡ some a
        → In a xs × (due a ≡ true) × All (λ b. (due b ≡ false) ⊎ (leads a b ≡ true)) xs
    first_where-some xs a h =
        let (hit, first) = first_where-First xs a h in
        (first_where-All (λ b. In b xs) xs a (All-In_self xs) h, hit, First-due xs a first)

    -- Where no row is taken, none satisfies the test.
    pub first_where-none : (xs : List A) → first_where due xs ≡ none → All (λ b. due b ≡ false) xs
    unfolding first_where
    first_where-none xs h = All-miss xs (first_row-none (select due xs) h)
