-- ===== src/Findings/Retention/Keys.antt =====
-- Selections and deletions of findings by their identifiers.
use leakcheck_hub.Prelude.{
  ℕ, zero, suc, Bool, true, false, not, List, [], ◌∷◌, ◌≡◌, inl, inr, refl, mem, select, take,
  length, ◌+◌, All, arith, ◌==◌, Bool-cases, ==_iff, sym, subst,
}
use leakcheck_hub.Models.{Finding, FindingEvent}
use leakcheck_hub.Findings.Tables.{ids, IsKeyed}

-- Identifiers that a selection keeps were there.
mem-ids-select :
    (k n : ℕ) (p : Finding → Bool) (fs : List Finding)
    → mem k (ids (take n (select p fs))) ≡ true
    → mem k (ids fs) ≡ true
unfolding mem select
mem-ids-select k zero p fs h = ground arith
mem-ids-select k (suc n) p [] h = ground arith
mem-ids-select k (suc n) p (f ∷ fs) h =
    ground (arith, mem-ids-select k n p fs, mem-ids-select k (suc n) p fs)

-- No finding of the list that fails the test is among the identifiers.
abbrev pub Spares : List ℕ → (Finding → Bool) → List Finding → Type 0
Spares gone p fs = All (λ f. p f ≡ false → mem f.id gone ≡ false) fs

Spares-cons :
    (k : ℕ) (gone : List ℕ) (p : Finding → Bool) (fs : List Finding)
    → mem k (ids fs) ≡ false
    → Spares gone p fs
    → Spares (k ∷ gone) p fs
unfolding mem
Spares-cons k gone p [] h s = tt
Spares-cons k gone p (f ∷ fs) h s =
    (λ out. ground (arith, s.0 out), Spares-cons k gone p fs (ground arith) s.1)

Spares-nil : (p : Finding → Bool) (fs : List Finding) → Spares [] p fs
unfolding mem
Spares-nil p [] = tt
Spares-nil p (f ∷ fs) = (λ out. refl, Spares-nil p fs)

select-hit :
    (p : Finding → Bool) (f : Finding) (fs : List Finding)
    → p f ≡ true
    → select p (f ∷ fs) ≡ f ∷ select p fs
unfolding select
select-hit p f fs h = rw h

select-miss :
    (p : Finding → Bool) (f : Finding) (fs : List Finding)
    → p f ≡ false
    → select p (f ∷ fs) ≡ select p fs
unfolding select
select-miss p f fs h = rw h

-- What is not stored is not selected.
fresh-select :
    (k n : ℕ) (p : Finding → Bool) (fs : List Finding)
    → mem k (ids fs) ≡ false
    → mem k (ids (take n (select p fs))) ≡ false
fresh-select k n p fs h = ground (arith, mem-ids-select k n p fs)

-- Under the key, what the test does not select is not among the selected identifiers.
pub Spares-select :
    (n : ℕ) (p : Finding → Bool) (fs : List Finding)
    → IsKeyed fs
    → Spares (ids (take n (select p fs))) p fs
Spares-select n p [] key = tt
Spares-select zero p (f ∷ fs) key = Spares-nil p (f ∷ fs)
Spares-select (suc n) p (f ∷ fs) key = elim (Bool-cases (p f)) [
  | inl hit ↦
      subst (λ l. Spares (ids (take (suc n) l)) p (f ∷ fs)) (sym (select-hit p f fs hit))
        (
          λ out. absurd (ground arith),
          Spares-cons f.id (ids (take n (select p fs))) p fs key.0 (Spares-select n p fs key.1),
        )
  | inr miss ↦
      subst (λ l. Spares (ids (take (suc n) l)) p (f ∷ fs)) (sym (select-miss p f fs miss))
        (λ out. fresh-select f.id (suc n) p fs key.0, Spares-select (suc n) p fs key.1)
]

-- Deleting spared identifiers leaves what the test does not select as it was.
pub select-Spares :
    (gone : List ℕ) (p : Finding → Bool) (fs : List Finding)
    → Spares gone p fs
    → select (λ f. not (p f)) (select (λ f. not (mem f.id gone)) fs) ≡ select (λ f. not (p f)) fs
unfolding select
select-Spares gone p [] s = refl
select-Spares gone p (f ∷ fs) s = ground (arith, s.0, select-Spares gone p fs s.1)

-- An identifier that is not deleted is still stored.
kept :
    (k : ℕ) (gone : List ℕ) (fs : List Finding)
    → mem k gone ≡ false
    → mem k (ids fs) ≡ true
    → mem k (ids (select (λ f. not (mem f.id gone)) fs)) ≡ true
unfolding mem select
kept k gone [] stays h = h
kept k gone (f ∷ fs) stays h = elim (Bool-cases (k == f.id)) [
  | inl same ↦
      let eq : k ≡ f.id = (==_iff k f.id).0 same in
      let still : mem f.id gone ≡ false = rw (← eq) stays in ground arith
  | inr other ↦ ground (arith, kept k gone fs stays)
]

-- The foreign key of events survives the deletion of findings together with their events.
pub IsLinked-delete :
    (gone : List ℕ) (fs : List Finding) (es : List FindingEvent)
    → All (λ e. mem e.finding_id (ids fs) ≡ true) es
    → All
        (λ e. mem e.finding_id (ids (select (λ f. not (mem f.id gone)) fs)) ≡ true)
        (select (λ e. not (mem e.finding_id gone)) es)
unfolding select
IsLinked-delete gone fs [] h = tt
IsLinked-delete gone fs (e ∷ es) h = elim (Bool-cases (mem e.finding_id gone)) [
  | inl out ↦ rw out (IsLinked-delete gone fs es h.1)
  | inr stays ↦ rw stays (kept e.finding_id gone fs stays h.0, IsLinked-delete gone fs es h.1)
]

-- Nothing is deleted by no identifier.
length-kept_all : (fs : List Finding) → length (select (λ f. not (mem f.id [])) fs) ≡ length fs
unfolding mem select
length-kept_all [] = refl
length-kept_all (f ∷ fs) = omega (arith, length-kept_all fs)

-- An identifier that is not stored deletes nothing more.
length-kept_fresh :
    (k : ℕ) (gone : List ℕ) (fs : List Finding)
    → mem k (ids fs) ≡ false
    → length (select (λ f. not (mem f.id (k ∷ gone))) fs)
      ≡ length (select (λ f. not (mem f.id gone)) fs)
unfolding mem select
length-kept_fresh k gone [] h = refl
length-kept_fresh k gone (f ∷ fs) h = ground (arith, length-kept_fresh k gone fs)

-- Under the key, deleting the selected identifiers removes as many findings as there are.
pub length-kept :
    (n : ℕ) (p : Finding → Bool) (fs : List Finding)
    → IsKeyed fs
    → length fs
      ≡ length (select (λ f. not (mem f.id (ids (take n (select p fs))))) fs)
        + length (ids (take n (select p fs)))
length-kept zero p fs key = omega (arith, length-kept_all fs)
length-kept (suc n) p [] key = unfold select in refl
length-kept (suc n) p (f ∷ fs) key = elim (Bool-cases (p f)) [
  | inl hit ↦
      let gone = ids (take n (select p fs)) in
      let out = select-miss (λ g. not (mem g.id (f.id ∷ gone))) f fs (unfold mem in ground arith) in
      rw (select-hit p f fs hit, out)
        (omega (arith, length-kept_fresh f.id gone fs key.0, length-kept n p fs key.1))
  | inr miss ↦
      let gone = ids (take (suc n) (select p fs)) in
      let stays =
        select-hit (λ g. not (mem g.id gone)) f fs
          (ground (arith, fresh-select f.id (suc n) p fs key.0)) in
      rw (select-miss p f fs miss, stays) (omega (arith, length-kept (suc n) p fs key.1))
]
