-- ===== src/Auth/Local/Logins/Admission.antt =====
-- app/auth/local.py: whom `authenticate` lets in, in terms of the stored rows, the libraries and the
-- clock.
use leakcheck_hub.Prelude.{
  ℕ, ◌≤◌, Bool, true, false, Option, none, some, List, Text, Bytes, find, Outcome, ok, err, ◌≡◌,
  ◌⊎◌, refl, arith, inl, inr, Option-cases, some-injective, ap, subst, ◌∙◌,
}
use leakcheck_hub.Models.{User, UserRole, AdminCredential, AdminLoginRateLimit, is_super_admin}
use leakcheck_hub.Unicode.{utf8}
use leakcheck_hub.Auth.Local.{Library, normalise_login_email, verify_password, caught, canonical_ip}
use leakcheck_hub.Auth.Local.Totp.{decrypt_totp_secret, verify_totp}
use leakcheck_hub.Auth.Local.Provisioning.{Tables, has_email}
use leakcheck_hub.Auth.Local.Logins.{
  Settings, Attempt, is_before, has_ip, has_user, load_ip_limit, loaded, account_of,
  join_credential, totp_valid, caught_code, ip_hash, authenticate,
}
use leakcheck_hub.Auth.Local.Logins.Guards.{authenticate-IsPassed}

-- No block, or one that has ended.
abbrev pub IsOver : ℕ → Option ℕ → Type 0
IsOver now blocked = (blocked ≡ none) ⊎ ((until : ℕ) × (blocked ≡ some until) × (until ≤ now))

-- No second factor is set up, or the stored seed decrypts under the data key and the code that was
-- given is one of the seed at this instant.
abbrev pub HasSecondFactor : Library → Settings → Attempt → User → AdminCredential → Type 0
HasSecondFactor lib s a u c =
    (c.totp_enabled_at ≡ none)
    ⊎ ((at : ℕ) × (encrypted : Bytes) × (code : Text) × (secret : Text) × (c.totp_enabled_at
          ≡ some at)
        × (c.totp_secret_enc ≡ some encrypted)
        × (a.totp_code ≡ some code)
        × (decrypt_totp_secret lib s.data_key u.id encrypted ≡ ok secret)
        × (verify_totp lib secret code a.now ≡ true))

-- What an account needs to be let in at an attempt.
pub record IsAdmitted (lib : Library) (s : Settings) (a : Attempt) (db : Tables) (v : User)
    : Type 0 where
  pub ip : Text
  pub email : Text
  pub user : User
  pub credential : AdminCredential
  pub known_ip : lib.ip_address a.client_ip ≡ some ip
  pub unblocked :
      let row = find (has_ip (lib.hmac_sha256 s.ip_key (utf8 ip))) db.limits in
      (row ≡ none) ⊎ ((l : AdminLoginRateLimit) × (row ≡ some l) × IsOver a.now l.blocked_until)
  pub named : normalise_login_email lib a.username ≡ some email
  pub stored : find (has_email lib email) db.users ≡ some user
  pub credentials : find (has_user user.id) db.credentials ≡ some credential
  pub active : user.is_active ≡ true
  pub role : user.role ≡ UserRole.super_admin
  pub unlocked : IsOver a.now credential.locked_until
  pub password : lib.argon2_verify credential.password_hash a.password ≡ ok true
  pub second_factor : HasSecondFactor lib s a user credential
  pub same : v ≡ record user { last_login_at = some a.now }

not-is_before : (now : ℕ) (blocked : Option ℕ) → is_before now blocked ≡ false → IsOver now blocked
not-is_before now none h = inl refl
not-is_before now (some until) h = inr (until, refl, ground arith)

role-of : (r : UserRole) → is_super_admin r ≡ true → r ≡ UserRole.super_admin
role-of r h = ground arith

ip-of :
    (lib : Library) (value ip : Text)
    → canonical_ip lib value ≡ ok ip
    → lib.ip_address value ≡ some ip
unfolding canonical_ip
ip-of lib value ip h = elim (Option-cases (lib.ip_address value)) [
  | inl e ↦ absurd (ground arith)
  | inr (found, e) ↦ ground arith
]

caught-true : (o : Outcome Bool) → caught o ≡ ok true → o ≡ ok true
unfolding caught
caught-true o h = ground arith

joined-of :
    (credentials : List AdminCredential) (found : Option User) (u : User) (c : AdminCredential)
    → join_credential credentials found ≡ some (u, c)
    → (found ≡ some u) × (find (has_user u.id) credentials ≡ some c)
unfolding join_credential
joined-of credentials none u c h = absurd (ground arith)
joined-of credentials (some v) u c h =
    let row = find (has_user v.id) credentials in
    elim (Option-cases row) [
      | inl e ↦ absurd (ground arith)
      | inr (d, e) ↦
          let pair : ◌≡◌ {A = User × AdminCredential} (v, d) (u, c) =
            some-injective _ _ (one_row row d e h) in
          let same : v ≡ u = ap (λ q. q.0) pair in
          (
            ap some same,
            subst (λ (w : User). find (has_user w.id) credentials ≡ some c) same
                (e ∙ ap some (ap (λ q. q.1) pair)),
          )
    ]
  where
    one_row :
        (row : Option AdminCredential) (d : AdminCredential)
        → row ≡ some d
        → (elim row as (λ _. Option (User × AdminCredential)) [
          | none ↦ none
          | some d ↦ some (v, d)
        ])
          ≡ some (u, c)
        → ◌≡◌ {A = Option (User × AdminCredential)} (some (v, d)) (some (u, c))
    one_row row d e h = rw e at h

loaded-of :
    (now at : ℕ) (key : Bytes) (limits : List AdminLoginRateLimit)
    (row : Option AdminLoginRateLimit)
    → is_before now (loaded key at limits row).0.blocked_until ≡ false
    → (row ≡ none) ⊎ ((l : AdminLoginRateLimit) × (row ≡ some l) × IsOver now l.blocked_until)
unfolding loaded
loaded-of now at key limits none h = inl refl
loaded-of now at key limits (some l) h = inr (l, refl, not-is_before now l.blocked_until h)

caught_code-true :
    (lib : Library) (code : Text) (now : ℕ) (o : Outcome Text)
    → caught_code lib code now o ≡ true
    → (secret : Text) × (o ≡ ok secret) × (verify_totp lib secret code now ≡ true)
unfolding caught_code
caught_code-true lib code now (err e) h = absurd (ground arith)
caught_code-true lib code now (ok secret) h = (secret, refl, h)

SecondFactor-of :
    (lib : Library) (s : Settings) (user_id : ℕ) (enabled : Option ℕ) (seed : Option Bytes)
    (code : Option Text) (now : ℕ)
    → totp_valid lib s user_id enabled seed code now ≡ true
    → (enabled ≡ none)
      ⊎ ((at : ℕ) × (encrypted : Bytes) × (given : Text) × (secret : Text) × (enabled ≡ some at)
          × (seed ≡ some encrypted)
          × (code ≡ some given)
          × (decrypt_totp_secret lib s.data_key user_id encrypted ≡ ok secret)
          × (verify_totp lib secret given now ≡ true))
unfolding totp_valid
SecondFactor-of lib s user_id none seed code now h = inl refl
SecondFactor-of lib s user_id (some at) none code now h = absurd (ground arith)
SecondFactor-of lib s user_id (some at) (some encrypted) none now h = absurd (ground arith)
SecondFactor-of lib s user_id (some at) (some encrypted) (some given) now h =
    let (secret, e, valid) =
      caught_code-true lib given now (decrypt_totp_secret lib s.data_key user_id encrypted) h in
    inr (at, encrypted, given, secret, refl, refl, refl, e, valid)

-- Whoever `authenticate` lets in is the stored user with the name that was given: active, a
-- super-admin, with a credential whose hash Argon2 verifies the password against. Where a second
-- factor is set up, the stored seed decrypts and the code that was given is one of it at that
-- instant. Neither the address nor the account has a block that ends later than that.
pub authenticate-IsAdmitted :
    (lib : Library) (s : Settings) (a : Attempt) (db db' : Tables) (v : User)
    → authenticate lib s a db ≡ ok (some v, db')
    → IsAdmitted lib s a db v
unfolding account_of verify_password load_ip_limit ip_hash
authenticate-IsAdmitted lib s a db db' v h =
    let p = authenticate-IsPassed lib s a db db' v h in
    let key = lib.hmac_sha256 s.ip_key (utf8 p.ip) in
    let (stored, credentials) =
      joined-of db.credentials (find (has_email lib p.email) db.users) p.user p.credential
        p.joined in
    record {
      ip = p.ip;
      email = p.email;
      user = p.user;
      credential = p.credential;
      known_ip = ip-of lib a.client_ip p.ip p.known_ip;
      unblocked = loaded-of a.now a.now key db.limits (find (has_ip key) db.limits) p.unblocked;
      named = p.named;
      stored = stored;
      credentials = credentials;
      active = p.active;
      role = role-of p.user.role p.role;
      unlocked = not-is_before a.now p.credential.locked_until p.unlocked;
      password = caught-true (lib.argon2_verify p.credential.password_hash a.password) p.password;
      second_factor =
          SecondFactor-of lib s p.user.id p.credential.totp_enabled_at p.credential.totp_secret_enc
            a.totp_code a.now p.totp;
      same = p.same;
    }
