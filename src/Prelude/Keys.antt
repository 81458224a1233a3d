-- ===== src/Prelude/Keys.antt =====
-- Tables with a numeric primary key: what an update of one row does to properties of all rows and
-- to sums over them.
use Prim.Native.Nat.{ℕ, ◌+◌}
use mathlib.Core.Path.{◌≡◌, refl, sym, subst}
use mathlib.Core.Logic.{inl, inr}
use mathlib.Core.Bool.{Bool, false}
use mathlib.Core.Option.{some}
use mathlib.Core.List.{List, [], ◌∷◌}
use native.Mathlib.Omega.{arith}
use leakcheck_hub.Prelude.Tests.{if◌then◌else◌, ◌==◌, Bool-cases, ==_iff}
use leakcheck_hub.Prelude.Lists.{find, update, select, All}

module _ {ℓ} {A : Type ℓ} where
  -- The sum of a measure over the rows.
  unfoldable pub total : (A → ℕ) → List A → ℕ
  total g [] = 0
  total g (x ∷ xs) = g x + total g xs

module _ {ℓ} {A : Type ℓ} (key : A → ℕ) where
  -- No row of the list has this key.
  abbrev pub Lacks : ℕ → List A → Type 0
  Lacks k xs = All (λ x. (key x == k) ≡ false) xs

  -- No key stands twice.
  abbrev pub Keyed : List A → Type 0
  Keyed [] = Unit
  Keyed (x ∷ xs) = Lacks (key x) xs × Keyed xs

  abbrev with_key : ℕ → A → Bool
  with_key k x = key x == k

  Lacks-update : (k : ℕ) (f : A → A) (xs : List A) → Lacks k xs → update (with_key k) f xs ≡ xs
  unfolding update
  Lacks-update k f [] h = refl
  Lacks-update k f (x ∷ xs) h = ground (arith, h.0, Lacks-update k f xs h.1)

  -- Another key's update keeps what a key lacks.
  pub All-update_key {κ} :
      (P : A → Type κ) (k : ℕ) (f : A → A) (xs : List A) (a : A)
      → Keyed xs
      → find (with_key k) xs ≡ some a
      → All P xs
      → P (f a)
      → All P (update (with_key k) f xs)
  unfolding find update
  All-update_key P k f [] a keyed h all new = tt
  All-update_key P k f (x ∷ xs) a keyed h all new = elim (Bool-cases (key x == k)) [
    | inl hit ↦
        let eq : key x ≡ k = (==_iff (key x) k).0 hit in
        let same : a ≡ x = ground arith in
        let rest : update (with_key k) f xs ≡ xs =
          Lacks-update k f xs (subst (λ n. Lacks n xs) eq keyed.0) in
        rw hit (subst (λ y. P (f y)) same new, subst (λ ys. All P ys) (sym rest) all.1)
    | inr miss ↦ rw miss (all.0, All-update_key P k f xs a keyed.1 (ground arith) all.1 new)
  ]

  pub total-update_key :
      (g : A → ℕ) (k : ℕ) (f : A → A) (xs : List A) (a : A)
      → Keyed xs
      → find (with_key k) xs ≡ some a
      → total g (update (with_key k) f xs) + g a ≡ total g xs + g (f a)
  unfolding find update total
  total-update_key g k f [] a keyed h = absurd (ground arith)
  total-update_key g k f (x ∷ xs) a keyed h = elim (Bool-cases (key x == k)) [
    | inl hit ↦
        let eq : key x ≡ k = (==_iff (key x) k).0 hit in
        let rest : update (with_key k) f xs ≡ xs =
          Lacks-update k f xs (subst (λ n. Lacks n xs) eq keyed.0) in
        ground arith
    | inr miss ↦ ground (arith, total-update_key g k f xs a keyed.1)
  ]

  found_past :
      (y : A) (ys xs : List A)
      → Lacks (key y) xs
      → All (λ b. find (with_key (key b)) ys ≡ some b) xs
      → All (λ b. find (with_key (key b)) (y ∷ ys) ≡ some b) xs
  unfolding find
  found_past y ys [] h all = tt
  found_past y ys (x ∷ xs) h all = (ground (arith, h.0, all.0), found_past y ys xs h.1 all.1)

  -- Under the key, each row is the one that its key finds.
  pub All-find_self : (xs : List A) → Keyed xs → All (λ b. find (with_key (key b)) xs ≡ some b) xs
  unfolding find
  All-find_self [] keyed = tt
  All-find_self (x ∷ xs) keyed =
      (ground arith, found_past x xs xs keyed.0 (All-find_self xs keyed.1))

  -- Keys that an update leaves alone stay unique.
  Lacks-update_keep :
      (p : A → Bool) (f : A → A) (n : ℕ)
      → ((x : A) → key (f x) ≡ key x)
      → (xs : List A) → Lacks n xs
      → Lacks n (update p f xs)
  unfolding update
  Lacks-update_keep p f n keep [] h = tt
  Lacks-update_keep p f n keep (x ∷ xs) h =
      (ground (arith, keep x, h.0), Lacks-update_keep p f n keep xs h.1)

  pub Keyed-update :
      (p : A → Bool) (f : A → A)
      → ((x : A) → key (f x) ≡ key x)
      → (xs : List A) → Keyed xs
      → Keyed (update p f xs)
  unfolding update
  Keyed-update p f keep [] h = tt
  Keyed-update p f keep (x ∷ xs) h =
      let same : key (if p x then f x else x) ≡ key x = ground (arith, keep x) in
      (
        subst (λ n. Lacks n (update p f xs)) (sym same) (Lacks-update_keep p f (key x) keep xs h.0),
        Keyed-update p f keep xs h.1,
      )

module _ {ℓ} {A : Type ℓ} where
  -- What holds of every row holds of the selected ones.
  pub All-select {κ} :
      (P : A → Type κ) (p : A → Bool) (xs : List A) → All P xs → All P (select p xs)
  unfolding select
  All-select P p [] h = tt
  All-select P p (x ∷ xs) h = elim (Bool-cases (p x)) [
    | inl e ↦ rw e (h.0, All-select P p xs h.1)
    | inr e ↦ rw e (All-select P p xs h.1)
  ]
