-- ===== src/Auth/Local/Logins/Elsewhere.antt =====
-- app/auth/local.py: an attempt leaves the rows of other addresses as they are.
use leakcheck_hub.Prelude.{
  ℕ, false, Option, none, some, List, [], ◌∷◌, Text, Bytes, text_eq, text_eq→eq, find, update,
  find-holds, find-append, ok, ◌≡◌, inl, inr, refl, sym, ◌∙◌, ap, subst, arith, Bool-cases,
  ok-injective,
}
use leakcheck_hub.Models.{User, AdminLoginRateLimit}
use leakcheck_hub.Auth.Local.{Library, canonical_ip}
use leakcheck_hub.Auth.Local.Provisioning.{Tables}
use leakcheck_hub.Auth.Local.Logins.{
  Settings, Attempt, is_before, fresh_limit, loaded, load_ip_limit, has_ip,
  reset_ip_limit_if_elapsed, record_ip_failure, ip_hash, authenticate,
}
use leakcheck_hub.Auth.Local.Logins.Writes.{
  record_ip_failure-ip_hash, authenticate-Writes, authenticate_blocked,
}

reset-ip_hash :
    (s : Settings) (now : ℕ) (l : AdminLoginRateLimit)
    → (reset_ip_limit_if_elapsed s now l).ip_hash ≡ l.ip_hash
unfolding reset_ip_limit_if_elapsed
reset-ip_hash s now l = ground arith

module _ (key other : Bytes) (apart : text_eq other key ≡ false) where
  -- Writing a row of another address.
  find-update_other :
      (m : AdminLoginRateLimit)
      → m.ip_hash ≡ other
      → (xs : List AdminLoginRateLimit)
      → find (has_ip key) (update (has_ip other) (λ _. m) xs) ≡ find (has_ip key) xs
  unfolding find update
  find-update_other m same [] = refl
  find-update_other m same (x ∷ xs) =
      let new : has_ip key m ≡ false = rw same apart in
      elim (Bool-cases (has_ip other x)) [
        | inl hit ↦
            let old : has_ip key x ≡ false =
              subst (λ h. text_eq h key ≡ false) (sym (text_eq→eq x.ip_hash other hit)) apart in
            ground (arith, find-update_other m same xs)
        | inr miss ↦ ground (arith, find-update_other m same xs)
      ]

  find-after :
      (before after : List AdminLoginRateLimit) (k : Bytes) (m : AdminLoginRateLimit)
      → k ≡ other
      → m.ip_hash ≡ other
      → after ≡ update (has_ip k) (λ _. m) before
      → find (has_ip key) after ≡ find (has_ip key) before
  find-after before after k m named same written =
      rw (written, named) (find-update_other m same before)

  load-other :
      (now : ℕ) (limits : List AdminLoginRateLimit) (l : AdminLoginRateLimit)
      → find (has_ip key) limits ≡ some l
      → let found = load_ip_limit other now limits in
        (found.0.ip_hash ≡ other) × (find (has_ip key) found.1 ≡ some l)
  unfolding load_ip_limit loaded fresh_limit
  load-other now limits l h = go (find (has_ip other) limits) refl
    where
      go :
          (row : Option AdminLoginRateLimit)
          → find (has_ip other) limits ≡ row
          → let found = loaded other now limits row in
            (found.0.ip_hash ≡ other) × (find (has_ip key) found.1 ≡ some l)
      go none e = (refl, find-append (has_ip key) limits (fresh_limit other now ∷ []) l h)
      go (some r) e = (text_eq→eq r.ip_hash other (find-holds (has_ip other) limits r e), h)

-- An attempt from an address with another hash leaves the row that this one's hash finds.
pub authenticate_elsewhere :
    (lib : Library) (s : Settings) (a : Attempt) (ip : Text) (key : Bytes) (db db' : Tables)
    (o : Option User) (l : AdminLoginRateLimit)
    → canonical_ip lib a.client_ip ≡ ok ip
    → text_eq (ip_hash lib s a ip) key ≡ false
    → find (has_ip key) db.limits ≡ some l
    → authenticate lib s a db ≡ ok (o, db')
    → find (has_ip key) db'.limits ≡ some l
authenticate_elsewhere lib s a ip key db db' o l known apart h done =
    let other = ip_hash lib s a ip in
    let found = load_ip_limit other a.now db.limits in
    let (named, kept) = load-other key other apart a.now db.limits l h in
    let row = reset_ip_limit_if_elapsed s a.now found.0 in
    let row_named : row.ip_hash ≡ other = reset-ip_hash s a.now found.0 ∙ named in
    elim (Bool-cases (is_before a.now found.0.blocked_until)) [
      | inl blocked ↦
          let pair =
            ok-injective _ _ (sym (authenticate_blocked lib s a ip known db blocked) ∙ done) in
          subst (λ (ls : List AdminLoginRateLimit). find (has_ip key) ls ≡ some l)
            (ap (λ p. p.1.limits) pair) kept
      | inr free ↦ elim (authenticate-Writes lib s a ip known db db' o free done) [
        | inl (_, written) ↦
            find-after key other apart found.1 db'.limits row.ip_hash
              (record_ip_failure s a.now row) row_named
              (record_ip_failure-ip_hash s a.now row ∙ row_named) written
            ∙ kept
        | inr (v, _, written) ↦
            find-after key other apart found.1 db'.limits row.ip_hash row row_named row_named
              written
            ∙ kept
      ]
    ]
