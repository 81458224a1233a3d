-- ===== src/Auth/Local/Logins/Writes.antt =====
-- app/auth/local.py: what one attempt does to the rows of the addresses.
use leakcheck_hub.Prelude.{
  ℕ, Bool, true, false, not, ◌&&◌, ◌||◌, Option, none, some, List, Text, if◌then◌else◌, update, ok,
  ◌≡◌, ◌⊎◌, inl, inr, refl, sym, ◌∙◌, ap, arith, ok-injective, >>=-eq-ok,
}
use leakcheck_hub.Models.{User, AdminCredential, AdminLoginRateLimit, is_super_admin}
use leakcheck_hub.Auth.Local.{
  Library, normalise_login_email, verify_password, password_needs_rehash, canonical_ip,
}
use leakcheck_hub.Auth.Local.Provisioning.{Tables}
use leakcheck_hub.Auth.Local.Logins.{
  Settings, Attempt, is_before, load_ip_limit, has_ip, reset_ip_limit_if_elapsed, failed_once,
  record_ip_failure, put_credential, account_of, totp_valid, unlocked, fail_account, refuse,
  rehashed, admit, check_factors, check_account, check_email, check_limit, ip_hash, check_ip,
  authenticate,
}

pub record_ip_failure-ip_hash :
    (s : Settings) (now : ℕ) (l : AdminLoginRateLimit)
    → (record_ip_failure s now l).ip_hash ≡ l.ip_hash
unfolding record_ip_failure failed_once reset_ip_limit_if_elapsed
record_ip_failure-ip_hash s now l = ground arith

module _ (lib : Library) (s : Settings) (a : Attempt) where
  -- A refusal writes the row with one failure more, a login writes it as it is.
  abbrev pub Writes :
      AdminLoginRateLimit → Option User → (before after : List AdminLoginRateLimit) → Type 0
  Writes l o before after =
      ((o ≡ none) × (after ≡ update (has_ip l.ip_hash) (λ _. record_ip_failure s a.now l) before))
      ⊎ ((v : User) × (o ≡ some v) × (after ≡ update (has_ip l.ip_hash) (λ _. l) before))

  refuse-Writes :
      (l : AdminLoginRateLimit) (db db' : Tables) (o : Option User)
      → refuse lib s a l db ≡ ok (o, db')
      → Writes l o db.limits db'.limits
  unfolding refuse
  refuse-Writes l db db' o h =
      let failed = record_ip_failure s a.now l in
      let pair = ok-injective _ _ h in
      inl (
        sym (ap (λ p. p.0) pair),
        sym (ap (λ p. p.1.limits) pair)
            ∙ ap (λ k. update (has_ip k) (λ _. failed) db.limits)
                (record_ip_failure-ip_hash s a.now l),
      )

  admit-Writes :
      (u : User) (c : AdminCredential) (l : AdminLoginRateLimit) (db db' : Tables) (o : Option User)
      → admit lib s a u c l db ≡ ok (o, db')
      → Writes l o db.limits db'.limits
  unfolding admit
  admit-Writes u c l db db' o h =
      let cleared = record c { failed_attempts = 0; locked_until = none } in
      let (needs, _, rest) = >>=-eq-ok (password_needs_rehash lib c.password_hash) _ h in
      let (c', e, out) = >>=-eq-ok (rehashed lib s a cleared needs) _ rest in
      let pair = ok-injective _ _ out in
      inr (
        record u { last_login_at = some a.now },
        sym (ap (λ p. p.0) pair),
        sym (ap (λ p. p.1.limits) pair),
      )

  check_factors-Writes :
      (u : User) (c : AdminCredential) (l : AdminLoginRateLimit) (db db' : Tables) (o : Option User)
      → check_factors lib s a u c l db ≡ ok (o, db')
      → Writes l o db.limits db'.limits
  unfolding check_factors
  check_factors-Writes u c l db db' o h =
      let (valid, _, rest) = >>=-eq-ok (verify_password lib c.password_hash a.password) _ h in
      decided (valid && totp_valid lib s u.id c.totp_enabled_at c.totp_secret_enc a.totp_code a.now)
        rest
    where
      decided :
          (b : Bool)
          → (if b
              then admit lib s a u c l db
              else refuse lib s a l (put_credential (fail_account s a.now c) db))
            ≡ ok (o, db')
          → Writes l o db.limits db'.limits
      decided true e = admit-Writes u c l db db' o e
      decided false e = refuse-Writes l (put_credential (fail_account s a.now c) db) db' o e

  check_account-Writes :
      (l : AdminLoginRateLimit) (db db' : Tables) (found : Option (User × AdminCredential))
      (o : Option User)
      → check_account lib s a l db found ≡ ok (o, db')
      → Writes l o db.limits db'.limits
  unfolding check_account
  check_account-Writes l db db' none o h = refuse-Writes l db db' o h
  check_account-Writes l db db' (some (u, c)) o h =
      decided (not u.is_active || not (is_super_admin u.role)) (is_before a.now c.locked_until) h
    where
      decided :
          (out locked : Bool)
          → (if out
              then refuse lib s a l db
              else if locked
              then refuse lib s a l db
              else check_factors lib s a u (unlocked c) l db)
            ≡ ok (o, db')
          → Writes l o db.limits db'.limits
      decided true locked e = refuse-Writes l db db' o e
      decided false true e = refuse-Writes l db db' o e
      decided false false e = check_factors-Writes u (unlocked c) l db db' o e

  check_email-Writes :
      (l : AdminLoginRateLimit) (db db' : Tables) (email : Option Text) (o : Option User)
      → check_email lib s a l db email ≡ ok (o, db')
      → Writes l o db.limits db'.limits
  unfolding check_email
  check_email-Writes l db db' none o h = refuse-Writes l db db' o h
  check_email-Writes l db db' (some email) o h =
      check_account-Writes l db db' (account_of lib email db) o h

  module _ (ip : Text) (known : canonical_ip lib a.client_ip ≡ ok ip) (db : Tables) where
    -- An attempt from an address that is not blocked writes the row as the window leaves it.
    pub authenticate-Writes :
        (db' : Tables) (o : Option User)
        → (let found = load_ip_limit (ip_hash lib s a ip) a.now db.limits in
            is_before a.now found.0.blocked_until ≡ false)
        → authenticate lib s a db ≡ ok (o, db')
        → let found = load_ip_limit (ip_hash lib s a ip) a.now db.limits in
          Writes (reset_ip_limit_if_elapsed s a.now found.0) o found.1 db'.limits
    unfolding authenticate check_ip check_limit
    authenticate-Writes db' o free h =
        let found = load_ip_limit (ip_hash lib s a ip) a.now db.limits in
        let h' = rw known at h in
        let h'' = rw free at h' in
        check_email-Writes (reset_ip_limit_if_elapsed s a.now found.0)
          (record db { limits = found.1 }) db' (normalise_login_email lib a.username) o h''

    -- An attempt from one that is blocked is refused.
    pub authenticate_blocked :
        (let found = load_ip_limit (ip_hash lib s a ip) a.now db.limits in
          is_before a.now found.0.blocked_until ≡ true)
        → authenticate lib s a db
          ≡ ok (none, record db { limits = (load_ip_limit (ip_hash lib s a ip) a.now db.limits).1 })
    unfolding authenticate check_ip check_limit
    authenticate_blocked blocked = rw known (rw blocked refl)
