-- ===== src/Auth/Local/Logins/Guards.antt =====
-- app/auth/local.py: the tests that a login passes on its way through `authenticate`.
use leakcheck_hub.Prelude.{
  Bool, true, false, not, ◌&&◌, ◌||◌, Option, none, some, List, Text, if◌then◌else◌, Outcome, ok,
  err, ◌≡◌, refl, sym, ap, subst, arith, inl, inr, Option-cases, ok-injective, >>=-eq-ok, ◌∙◌,
}
use leakcheck_hub.Models.{User, AdminCredential, AdminLoginRateLimit, is_super_admin}
use leakcheck_hub.Auth.Local.{
  Library, normalise_login_email, verify_password, canonical_ip, password_needs_rehash,
}
use leakcheck_hub.Auth.Local.Provisioning.{Tables}
use leakcheck_hub.Auth.Local.Logins.{
  Settings, Attempt, is_before, load_ip_limit, reset_ip_limit_if_elapsed, account_of, totp_valid,
  unlocked, refuse, rehashed, admit, check_factors, check_account, check_email, check_limit,
  ip_hash, check_ip, authenticate,
}

-- The tests of the code, by its own names, at the row and the account that it loaded.
pub record IsPassed (lib : Library) (s : Settings) (a : Attempt) (db : Tables) (v : User)
    : Type 0 where
  pub ip : Text
  pub email : Text
  pub user : User
  pub credential : AdminCredential
  pub known_ip : canonical_ip lib a.client_ip ≡ ok ip
  pub unblocked :
      is_before a.now (load_ip_limit (ip_hash lib s a ip) a.now db.limits).0.blocked_until ≡ false
  pub named : normalise_login_email lib a.username ≡ some email
  pub joined : account_of lib email db ≡ some (user, credential)
  pub active : user.is_active ≡ true
  pub role : is_super_admin user.role ≡ true
  pub unlocked : is_before a.now credential.locked_until ≡ false
  pub password : verify_password lib credential.password_hash a.password ≡ ok true
  pub totp :
      totp_valid lib s user.id credential.totp_enabled_at credential.totp_secret_enc a.totp_code
        a.now
      ≡ true
  pub same : v ≡ record user { last_login_at = some a.now }

unlocked-same :
    (c : AdminCredential)
    → ((unlocked c).password_hash ≡ c.password_hash)
      × ((unlocked c).totp_enabled_at ≡ c.totp_enabled_at)
      × ((unlocked c).totp_secret_enc ≡ c.totp_secret_enc)
unlocked-same c = elim (Option-cases c.locked_until) [
  | inl e ↦ rw e (refl, refl, refl)
  | inr (t, e) ↦ rw e (refl, refl, refl)
]

-- A test whose other branch lets nobody in.
let_in :
    (b : Bool) (x : Outcome (Option User × Tables)) (d db' : Tables) (v : User)
    → (if b then x else ok (none, d)) ≡ ok (some v, db')
    → (b ≡ true) × (x ≡ ok (some v, db'))
let_in true x d db' v h = (refl, h)
let_in false x d db' v h = absurd cc

let_in_else :
    (b : Bool) (x : Outcome (Option User × Tables)) (d db' : Tables) (v : User)
    → (if b then ok (none, d) else x) ≡ ok (some v, db')
    → (b ≡ false) × (x ≡ ok (some v, db'))
let_in_else false x d db' v h = (refl, h)
let_in_else true x d db' v h = absurd cc

both : (b c : Bool) → (b && c) ≡ true → (b ≡ true) × (c ≡ true)
both b c h = (ground arith, ground arith)

neither : (b c : Bool) → (not b || not c) ≡ false → (b ≡ true) × (c ≡ true)
neither b c h = (ground arith, ground arith)

module _ (lib : Library) (s : Settings) (a : Attempt) where
  admit-same :
      (u v : User) (c : AdminCredential) (l : AdminLoginRateLimit) (db db' : Tables)
      → admit lib s a u c l db ≡ ok (some v, db')
      → v ≡ record u { last_login_at = some a.now }
  unfolding admit
  admit-same u v c l db db' h =
      let (needs, _, rest) = >>=-eq-ok (password_needs_rehash lib c.password_hash) _ h in
      let (c', _, out) =
        >>=-eq-ok (rehashed lib s a (record c { failed_attempts = 0; locked_until = none }) needs) _
          rest in
      let pair = ok-injective _ _ out in cc

  check_factors-some :
      (u v : User) (c : AdminCredential) (l : AdminLoginRateLimit) (db db' : Tables)
      → check_factors lib s a u c l db ≡ ok (some v, db')
      → (verify_password lib c.password_hash a.password ≡ ok true)
        × (totp_valid lib s u.id c.totp_enabled_at c.totp_secret_enc a.totp_code a.now ≡ true)
        × (v ≡ record u { last_login_at = some a.now })
  unfolding check_factors refuse
  check_factors-some u v c l db db' h =
      let (valid, e, rest) = >>=-eq-ok (verify_password lib c.password_hash a.password) _ h in
      let (passed, admitted) = let_in _ _ _ db' v rest in
      let (valid_eq, code) = both valid _ passed in
      (e ∙ ap ok valid_eq, code, admit-same u v c l db db' admitted)

  -- What an account that is let in has shown.
  Shown : User → (User × AdminCredential) → Type 0
  Shown v (u, c) =
      (u.is_active ≡ true)
      × (is_super_admin u.role ≡ true)
      × (is_before a.now c.locked_until ≡ false)
      × (verify_password lib c.password_hash a.password ≡ ok true)
      × (totp_valid lib s u.id c.totp_enabled_at c.totp_secret_enc a.totp_code a.now ≡ true)
      × (v ≡ record u { last_login_at = some a.now })

  check_account-some :
      (l : AdminLoginRateLimit) (db db' : Tables) (v : User) (o : Option (User × AdminCredential))
      → check_account lib s a l db o ≡ ok (some v, db')
      → (p : User × AdminCredential) × (o ≡ some p) × Shown v p
  unfolding check_account refuse Shown
  check_account-some l db db' v none h = absurd cc
  check_account-some l db db' v (some (u, c)) h =
      let (eligible, rest) =
        let_in_else (not u.is_active || not (is_super_admin u.role)) _ _ db' v h in
      let (active, role) = neither u.is_active _ eligible in
      let (free, rest) = let_in_else (is_before a.now c.locked_until) _ _ db' v rest in
      let (password, code, same) = check_factors-some u v (unlocked c) l db db' rest in
      let (hash, at, secret) = unlocked-same c in
      (
        (u, c),
        refl,
        (
          active,
          role,
          free,
          subst (λ h. verify_password lib h a.password ≡ ok true) hash password,
          subst (λ e. totp_valid lib s u.id c.totp_enabled_at e a.totp_code a.now ≡ true) secret
              (subst
                (λ t. totp_valid lib s u.id t (unlocked c).totp_secret_enc a.totp_code a.now ≡ true)
                at code),
          same,
        ),
      )

  check_email-some :
      (l : AdminLoginRateLimit) (db db' : Tables) (v : User) (o : Option Text)
      → check_email lib s a l db o ≡ ok (some v, db')
      → (email : Text) × (o ≡ some email)
        × (p : User × AdminCredential) × (account_of lib email db ≡ some p)
        × Shown v p
  unfolding check_email refuse
  check_email-some l db db' v none h = absurd cc
  check_email-some l db db' v (some email) h =
      let (p, e, shown) = check_account-some l db db' v (account_of lib email db) h in
      (email, refl, p, e, shown)

  check_limit-some :
      (l : AdminLoginRateLimit) (db db' : Tables) (v : User)
      → check_limit lib s a l db ≡ ok (some v, db')
      → (is_before a.now l.blocked_until ≡ false)
        × (email : Text) × (normalise_login_email lib a.username ≡ some email)
        × (p : User × AdminCredential) × (account_of lib email db ≡ some p)
        × Shown v p
  unfolding check_limit Shown
  check_limit-some l db db' v h =
      let (free, rest) = let_in_else (is_before a.now l.blocked_until) _ _ db' v h in
      let (email, e, p, f, shown) =
        check_email-some (reset_ip_limit_if_elapsed s a.now l) db db' v
          (normalise_login_email lib a.username) rest in
      (free, email, e, p, f, shown)

  account_of-limits :
      (email : Text) (db : Tables) (limits : List AdminLoginRateLimit)
      → account_of lib email (record db { limits = limits }) ≡ account_of lib email db
  unfolding account_of
  account_of-limits email db limits = refl

  check_ip-some :
      (o : Outcome Text) (db db' : Tables) (v : User)
      → canonical_ip lib a.client_ip ≡ o
      → check_ip lib s a o db ≡ ok (some v, db')
      → IsPassed lib s a db v
  unfolding check_ip Shown
  check_ip-some (err e) db db' v known h = absurd cc
  check_ip-some (ok ip) db db' v known h =
      let found = load_ip_limit (ip_hash lib s a ip) a.now db.limits in
      let (free, email, e, p, f, (active, role, unlocked, password, totp, same)) =
        check_limit-some found.0 (record db { limits = found.1 }) db' v h in
      record {
        ip = ip;
        email = email;
        user = p.0;
        credential = p.1;
        known_ip = known;
        unblocked = free;
        named = e;
        joined = sym (account_of-limits email db found.1) ∙ f;
        active = active;
        role = role;
        unlocked = unlocked;
        password = password;
        totp = totp;
        same = same;
      }

-- A login that ends with a user has passed every test.
pub authenticate-IsPassed :
    (lib : Library) (s : Settings) (a : Attempt) (db db' : Tables) (v : User)
    → authenticate lib s a db ≡ ok (some v, db')
    → IsPassed lib s a db v
unfolding authenticate
authenticate-IsPassed lib s a db db' v h =
    check_ip-some lib s a (canonical_ip lib a.client_ip) db db' v refl h
