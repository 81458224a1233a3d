-- ===== src/Auth/Local/Totp/Windows.antt =====
-- app/auth/local.py: which codes `verify_totp` accepts.
use leakcheck_hub.Prelude.{
  ℕ, ◌+◌, ◌-◌, ◌/◌, ◌≤◌, Bool, true, false, not, ◌||◌, Text, Bytes, leb, text_eq, text_eq→eq,
  text_eq_refl, ◌==◌, if◌then◌else◌, length, all, Outcome, ok, err, Error, ◌≡◌, ◌↔◌, refl, sym, ap,
  subst, arith, inl, inr, ◌⊎◌, ok-injective, >>=-eq-ok, Bool-cases, ◌∙◌,
}
use leakcheck_hub.Models.{seconds}
use leakcheck_hub.Python.{pos}
use leakcheck_hub.Auth.Local.{Library, is_ascii}
use leakcheck_hub.Auth.Local.Totp.{
  totp_key, six_digits, code_of, code_at, totp_code, is_digit, any_code, verify_totp,
}

-- Codes have six decimal digits.
six_digits-all : (n : ℕ) → all is_digit (six_digits n) ≡ true
unfolding six_digits all is_digit
six_digits-all n = ground arith

six_digits-ascii : (n : ℕ) → is_ascii (six_digits n) ≡ true
unfolding six_digits all is_ascii
six_digits-ascii n = ground arith

-- Instants at most half a minute apart are in the same period or in neighbouring ones.
near :
    (now t : ℕ)
    → 30000000 ≤ now
    → t ≤ now + 30000000
    → now ≤ t + 30000000
    → ((t / 1000000 / 30 ≡ (now - 30000000) / 1000000 / 30)
        ⊎ (t / 1000000 / 30 ≡ now / 1000000 / 30))
      ⊎ (t / 1000000 / 30 ≡ (now + 30000000) / 1000000 / 30)
near now t h before after = omega arith

abbrev is_malformed : Text → Bool
is_malformed s = not (length s == 6) || not (is_ascii s) || not (all is_digit s)

module _ (lib : Library) (secret : Text) (now : ℕ) (late : 30000000 ≤ now) where
  -- The three codes of a valid seed.
  verify_totp-keyed :
      (key : Bytes) (supplied : Text)
      → totp_key lib secret ≡ ok key
      → verify_totp lib secret supplied now ≡ (
          if is_malformed supplied
          then false
          else text_eq supplied (code_of lib key ((now - 30000000) / 1000000 / 30))
            || text_eq supplied (code_of lib key (now / 1000000 / 30))
            || text_eq supplied (code_of lib key ((now + 30000000) / 1000000 / 30)))
  unfolding verify_totp any_code totp_code code_at
  verify_totp-keyed key supplied e =
      let first : leb (seconds 30) now ≡ true = ground arith in rw (first, e) refl

  verify_totp-unkeyed :
      (e : Error) (supplied : Text)
      → totp_key lib secret ≡ err e
      → verify_totp lib secret supplied now ≡ false
  unfolding verify_totp any_code totp_code code_at
  verify_totp-unkeyed e supplied h =
      let first : leb (seconds 30) now ≡ true = ground arith in rw (first, h) ground arith

  text_eq_of : (s t : Text) → s ≡ t → text_eq s t ≡ true
  text_eq_of s t e = subst (λ u. text_eq s u ≡ true) e (text_eq_refl s)

  -- A code of one of the three periods.
  IsNearby : Bytes → Text → Type 0
  IsNearby key supplied =
      ((supplied ≡ code_of lib key ((now - 30000000) / 1000000 / 30))
        ⊎ (supplied ≡ code_of lib key (now / 1000000 / 30)))
      ⊎ (supplied ≡ code_of lib key ((now + 30000000) / 1000000 / 30))

  IsNearby-accepted :
      (key : Bytes) (supplied : Text)
      → totp_key lib secret ≡ ok key
      → is_malformed supplied ≡ false
      → IsNearby key supplied
      → verify_totp lib secret supplied now ≡ true
  unfolding IsNearby
  IsNearby-accepted key supplied e formed near_by =
      verify_totp-keyed key supplied e ∙ elim near_by [
        | inl (inl a) ↦ let one = text_eq_of _ _ a in ground (arith, formed, one)
        | inl (inr a) ↦ let one = text_eq_of _ _ a in ground (arith, formed, one)
        | inr a ↦ let one = text_eq_of _ _ a in ground (arith, formed, one)
      ]

  accepted-IsNearby :
      (key : Bytes) (supplied : Text)
      → totp_key lib secret ≡ ok key
      → verify_totp lib secret supplied now ≡ true
      → IsNearby key supplied
  unfolding IsNearby
  accepted-IsNearby key supplied e h =
      let a = text_eq supplied (code_of lib key ((now - 30000000) / 1000000 / 30)) in
      let b = text_eq supplied (code_of lib key (now / 1000000 / 30)) in
      let c = text_eq supplied (code_of lib key ((now + 30000000) / 1000000 / 30)) in
      let shown : (if is_malformed supplied then false else a || b || c) ≡ true =
        sym (verify_totp-keyed key supplied e) ∙ h in
      elim (Bool-cases a) [
        | inl y ↦ inl (inl (text_eq→eq _ _ y))
        | inr n ↦ elim (Bool-cases b) [
          | inl y ↦ inl (inr (text_eq→eq _ _ y))
          | inr m ↦ inr (text_eq→eq _ _ (any_third (is_malformed supplied) a b c shown n m))
        ]
      ]
    where
      any_third :
          (bad a b c : Bool)
          → (if bad then false else a || b || c) ≡ true
          → a ≡ false
          → b ≡ false
          → c ≡ true
      any_third bad a b c h n m = ground arith

digits_of : (lib : Library) (key : Bytes) (n : ℕ) → (m : ℕ) × (code_of lib key n ≡ six_digits m)
unfolding code_of
digits_of lib key n = (_, refl)

well_formed : (lib : Library) (key : Bytes) (n : ℕ) → is_malformed (code_of lib key n) ≡ false
unfolding six_digits
well_formed lib key n =
    let (m, e) = digits_of lib key n in
    subst (λ s. is_malformed s ≡ false) (sym e) (rw (six_digits-ascii m, six_digits-all m) refl)

totp_code-ok :
    (lib : Library) (secret supplied : Text) (t : ℕ)
    → totp_code lib secret (pos t) ≡ ok supplied
    → (key : Bytes) × (totp_key lib secret ≡ ok key)
      × (code_of lib key (t / 1000000 / 30) ≡ supplied)
unfolding totp_code code_at
totp_code-ok lib secret supplied t h =
    let (key, e, same) = >>=-eq-ok (totp_key lib secret) _ h in (key, e, ok-injective _ _ same)

totp_code-keyed :
    (lib : Library) (secret : Text) (key : Bytes) (t : ℕ)
    → totp_key lib secret ≡ ok key
    → totp_code lib secret (pos t) ≡ ok (code_of lib key (t / 1000000 / 30))
unfolding totp_code code_at
totp_code-keyed lib secret key t e = rw e refl

Outcome-cases : {A : Type 0} (o : Outcome A) → ((a : A) × (o ≡ ok a)) ⊎ ((e : Error) × (o ≡ err e))
Outcome-cases (ok a) = inl (a, refl)
Outcome-cases (err e) = inr (e, refl)

-- A code that is given within half a minute of an instant.
Within : Library → (secret supplied : Text) → ℕ → Type 0
Within lib secret supplied now =
    (t : ℕ) × (t ≤ now + seconds 30)
    × (now ≤ t + seconds 30)
    × (totp_code lib secret (pos t) ≡ ok supplied)

shown-Within :
    (lib : Library) (secret supplied : Text) (now : ℕ)
    → seconds 30 ≤ now
    → verify_totp lib secret supplied now ≡ true
    → Within lib secret supplied now
unfolding Within IsNearby
shown-Within lib secret supplied now late h = elim (Outcome-cases (totp_key lib secret)) [
  | inr (e, bad) ↦
      let no = verify_totp-unkeyed lib secret now late e supplied bad in absurd (ground arith)
  | inl (key, e) ↦ elim (accepted-IsNearby lib secret now late key supplied e h) [
    | inl (inl a) ↦ (
      now - seconds 30,
      omega arith,
      omega arith,
      totp_code-keyed lib secret key (now - seconds 30) e ∙ ap ok (sym a),
    )
    | inl (inr a) ↦
        (now, omega arith, omega arith, totp_code-keyed lib secret key now e ∙ ap ok (sym a))
    | inr a ↦ (
      now + seconds 30,
      omega arith,
      omega arith,
      totp_code-keyed lib secret key (now + seconds 30) e ∙ ap ok (sym a),
    )
  ]
]

Within-accepted :
    (lib : Library) (secret supplied : Text) (now : ℕ)
    → seconds 30 ≤ now
    → Within lib secret supplied now
    → verify_totp lib secret supplied now ≡ true
unfolding Within IsNearby
Within-accepted lib secret supplied now late (t, after, before, h) =
    let (key, e, same) = totp_code-ok lib secret supplied t h in
    IsNearby-accepted lib secret now late key supplied e
      (subst (λ s. is_malformed s ≡ false) same (well_formed lib key (t / 1000000 / 30)))
      (elim (near now t late after before) [
        | inl (inl n) ↦ inl (inl (sym same ∙ ap (code_of lib key) n))
        | inl (inr n) ↦ inl (inr (sym same ∙ ap (code_of lib key) n))
        | inr n ↦ inr (sym same ∙ ap (code_of lib key) n)
      ])

-- `verify_totp` accepts exactly the codes that `totp_code` gives at the instants that are at most half
-- a minute away, whatever the hash; the instant of the check is at least half a minute after the
-- epoch.
pub verify_totp-totp_code :
    (lib : Library) (secret supplied : Text) (now : ℕ)
    → seconds 30 ≤ now
    → (verify_totp lib secret supplied now ≡ true) ↔ (
        (t : ℕ) × (t ≤ now + seconds 30)
        × (now ≤ t + seconds 30)
        × (totp_code lib secret (pos t) ≡ ok supplied))
unfolding Within
verify_totp-totp_code lib secret supplied now late =
    (shown-Within lib secret supplied now late, Within-accepted lib secret supplied now late)
