-- ===== src/Prelude/Rows.antt =====
-- What an update does to counts and to properties of all rows, by the rows that it reaches.
use Prim.Native.Nat.{ℕ, ◌≤◌}
use mathlib.Core.Path.{◌≡◌, refl, subst}
use mathlib.Core.Logic.{inl, inr}
use mathlib.Core.Bool.{Bool, true, false}
use mathlib.Core.Option.{some}
use mathlib.Core.List.{List, [], ◌∷◌}
use native.Mathlib.Omega.{arith}
use leakcheck_hub.Prelude.Tests.{◌==◌, Bool-cases, ==_iff}
use leakcheck_hub.Prelude.Lists.{find, update, count, All}
use leakcheck_hub.Prelude.Keys.{Keyed, Lacks}

module _ {A : Type 0} where
  -- A count stays when no row that is rewritten changes sides.
  pub count-update_same :
      (q p : A → Bool) (f : A → A) (xs : List A)
      → All (λ x. p x ≡ true → q (f x) ≡ q x) xs
      → count q (update p f xs) ≡ count q xs
  unfolding count update
  count-update_same q p f [] h = refl
  count-update_same q p f (x ∷ xs) h = elim (Bool-cases (p x)) [
    | inl e ↦ let same : q (f x) ≡ q x = h.0 e in rw (e, same, count-update_same q p f xs h.1) refl
    | inr e ↦ rw (e, count-update_same q p f xs h.1) refl
  ]

  pub count-update-le :
      (q p : A → Bool) (f : A → A) (xs : List A)
      → ((x : A) → p x ≡ true → q (f x) ≡ false)
      → count q (update p f xs) ≤ count q xs
  unfolding count update
  count-update-le q p f [] h = omega arith
  count-update-le q p f (x ∷ xs) h = ground (arith, h x, count-update-le q p f xs h)

  pub All-update_by {κ} :
      (P Q : A → Type κ) (p : A → Bool) (f : A → A)
      → ((x : A) → p x ≡ true → P x → Q (f x))
      → ((x : A) → p x ≡ false → P x → Q x)
      → (xs : List A) → All P xs
      → All Q (update p f xs)
  unfolding update
  All-update_by P Q p f hit miss [] h = tt
  All-update_by P Q p f hit miss (x ∷ xs) h = elim (Bool-cases (p x)) [
    | inl e ↦ rw e (hit x e h.0, All-update_by P Q p f hit miss xs h.1)
    | inr e ↦ rw e (miss x e h.0, All-update_by P Q p f hit miss xs h.1)
  ]

  pub All-weaken {κ} :
      (P Q : A → Type κ) → ((x : A) → P x → Q x) → (xs : List A) → All P xs → All Q xs
  All-weaken P Q f [] h = tt
  All-weaken P Q f (x ∷ xs) h = (f x h.0, All-weaken P Q f xs h.1)

module _ {A : Type 0} (key : A → ℕ) (P : A → Type 0) where
  All-Lacks : (k : ℕ) (xs : List A) → Lacks key k xs → All (λ x. (key x == k) ≡ true → P x) xs
  All-Lacks k [] h = tt
  All-Lacks k (x ∷ xs) h = ((λ e. absurd (ground arith)), All-Lacks k xs h.1)

  -- Under the key, what holds of the row that a key finds holds of every row with that key.
  pub All-named :
      (k : ℕ) (xs : List A) (a : A)
      → Keyed key xs
      → find (λ x. key x == k) xs ≡ some a
      → P a
      → All (λ x. (key x == k) ≡ true → P x) xs
  unfolding find
  All-named k [] a keyed h pa = tt
  All-named k (x ∷ xs) a keyed h pa = elim (Bool-cases (key x == k)) [
    | inl hit ↦
        let same : a ≡ x = ground arith in
        let eq : key x ≡ k = (==_iff (key x) k).0 hit in
        ((λ e. subst P same pa), All-Lacks k xs (subst (λ n. Lacks key n xs) eq keyed.0))
    | inr miss ↦ ((λ e. absurd (ground arith)), All-named k xs a keyed.1 (ground arith) pa)
  ]
