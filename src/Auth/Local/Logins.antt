-- ===== src/Auth/Local/Logins.antt =====
-- app/auth/local.py: `LocalAuthenticator`. Instants are numbers of microseconds; a call that raises
-- leaves its caller's transaction to be rolled back.
pub mod Guards
pub mod Admission
pub mod Writes
pub mod LimitRows
pub mod Elsewhere
pub mod Blocking
mod Examples
use leakcheck_hub.Prelude.{
  ◌>>=◌, ◌>>◌, ℕ, ◌+◌, Bool, true, false, not, ◌&&◌, ◌||◌, Option, none, some, List, [], ◌∷◌, ◌++◌,
  Text, Bytes, codes, ltb, leb, text_eq, ◌==◌, if◌then◌else◌, find, update, is_some, Outcome, ok,
  err, Error, raise_if,
}
use leakcheck_hub.Models.{
  User, UserRole, AdminCredential, AdminLoginRateLimit, is_super_admin, seconds,
}
use leakcheck_hub.Unicode.{utf8}
use leakcheck_hub.Auth.Local.{
  Library, normalise_login_email, verify_password, password_needs_rehash, hash_password,
  canonical_ip,
}
use leakcheck_hub.Auth.Local.Totp.{decrypt_totp_secret, verify_totp}
use leakcheck_hub.Auth.Local.Provisioning.{Tables, has_email}

-- What the authenticator takes from the settings.
pub record Settings : Type 0 where
  pub account_max_failures : ℕ
  pub account_lockout : ℕ
  pub ip_max_failures : ℕ
  pub ip_window : ℕ
  pub ip_lockout : ℕ
  pub ip_key : Bytes
  pub data_key : Text

-- `hmac.new(session_secret, b"leakcheck/admin-login-ip/v1", sha256)`
pub new_authenticator :
    Library
    → (session_secret data_key : Text)
    → (max_failures lockout ip_max_failures ip_window ip_lockout : ℕ) → Settings
unfolding utf8
new_authenticator lib session_secret data_key max_failures lockout ip_max ip_window ip_lockout =
    record {
      account_max_failures = max_failures;
      account_lockout = seconds lockout;
      ip_max_failures = ip_max;
      ip_window = seconds ip_window;
      ip_lockout = seconds ip_lockout;
      ip_key = lib.hmac_sha256 (utf8 session_secret) (codes "leakcheck/admin-login-ip/v1");
      data_key = data_key;
    }

pub record Attempt : Type 0 where
  pub username : Text
  pub password : Text
  pub totp_code : Option Text
  pub client_ip : Text
  pub now : ℕ
  pub salt : Bytes

-- `current < until` and `now >= until` of an instant that may be NULL.
abbrev pub is_before : ℕ → Option ℕ → Bool
is_before now none = false
is_before now (some until) = ltb now until

abbrev pub is_elapsed : ℕ → Option ℕ → Bool
is_elapsed now none = false
is_elapsed now (some until) = leb until now

abbrev pub has_ip : Bytes → AdminLoginRateLimit → Bool
has_ip ip_hash l = text_eq l.ip_hash ip_hash

pub fresh_limit : Bytes → ℕ → AdminLoginRateLimit
fresh_limit ip_hash now = record {
  ip_hash = ip_hash;
  window_started_at = now;
  attempts = 0;
  blocked_until = none;
}

-- `_load_ip_limit`: the row, and the table with it.
loaded :
    Bytes
    → ℕ
    → List AdminLoginRateLimit
    → Option AdminLoginRateLimit
    → AdminLoginRateLimit × List AdminLoginRateLimit
loaded ip_hash now limits (some l) = (l, limits)
loaded ip_hash now limits none = (fresh_limit ip_hash now, limits ++ fresh_limit ip_hash now ∷ [])

pub load_ip_limit :
    Bytes → ℕ → List AdminLoginRateLimit → AdminLoginRateLimit × List AdminLoginRateLimit
unfolding loaded fresh_limit find
load_ip_limit ip_hash now limits = loaded ip_hash now limits (find (has_ip ip_hash) limits)

-- `_reset_ip_limit_if_elapsed`
pub reset_ip_limit_if_elapsed : Settings → ℕ → AdminLoginRateLimit → AdminLoginRateLimit
reset_ip_limit_if_elapsed s now l =
    if is_elapsed now l.blocked_until
    then record l { attempts = 0; blocked_until = none; window_started_at = now }
    else if leb (l.window_started_at + s.ip_window) now
    then record l { attempts = 0; window_started_at = now }
    else l

-- `_record_ip_failure`
failed_once : Settings → ℕ → AdminLoginRateLimit → AdminLoginRateLimit
failed_once s now l =
    let counted = record l { attempts = l.attempts + 1 } in
    if leb s.ip_max_failures counted.attempts
    then record counted { blocked_until = some (now + s.ip_lockout) }
    else counted

pub record_ip_failure : Settings → ℕ → AdminLoginRateLimit → AdminLoginRateLimit
unfolding reset_ip_limit_if_elapsed failed_once
record_ip_failure s now l = failed_once s now (reset_ip_limit_if_elapsed s now l)

abbrev pub has_user : ℕ → AdminCredential → Bool
has_user k c = c.user_id == k

-- The rows that the flush writes: they were locked, and no statement in between reads them.
abbrev pub put_limit : AdminLoginRateLimit → Tables → Tables
put_limit l db = record db { limits = update (has_ip l.ip_hash) (λ _. l) db.limits }

abbrev pub put_credential : AdminCredential → Tables → Tables
put_credential c db = record db {
  credentials = update (has_user c.user_id) (λ _. c) db.credentials;
}

-- `SELECT … JOIN … WHERE users.email = …`
join_credential : List AdminCredential → Option User → Option (User × AdminCredential)
unfolding find
join_credential credentials none = none
join_credential credentials (some u) = elim (find (has_user u.id) credentials) [
  | none ↦ none
  | some c ↦ some (u, c)
]

pub account_of : Library → Text → Tables → Option (User × AdminCredential)
unfolding find join_credential
account_of lib email db = join_credential db.credentials (find (has_email lib email) db.users)

-- A result of decryption and verification; an error in between is no.
caught_code : Library → Text → ℕ → Outcome Text → Bool
caught_code lib code now (err e) = false
caught_code lib code now (ok secret) = verify_totp lib secret code now

-- `totp_valid` of a password that is valid.
pub totp_valid : Library → Settings → ℕ → Option ℕ → Option Bytes → Option Text → ℕ → Bool
unfolding caught_code
totp_valid lib s user_id none secret code now = true
totp_valid lib s user_id (some at) (some encrypted) (some code) now =
    caught_code lib code now (decrypt_totp_secret lib s.data_key user_id encrypted)
totp_valid lib s user_id (some at) _ _ now = false

abbrev pub unlocked : AdminCredential → AdminCredential
unlocked c = elim c.locked_until [
  | none ↦ c
  | some until ↦ record c { failed_attempts = 0; locked_until = none }
]

-- A wrong password or code.
pub fail_account : Settings → ℕ → AdminCredential → AdminCredential
fail_account s now c =
    let counted = record c { failed_attempts = c.failed_attempts + 1 } in
    if leb s.account_max_failures counted.failed_attempts
    then record counted { locked_until = some (now + s.account_lockout) }
    else counted

module _ (lib : Library) (s : Settings) (a : Attempt) where
  -- A failure: `_record_ip_failure` and the flush.
  pub refuse : AdminLoginRateLimit → Tables → Outcome (Option User × Tables)
  unfolding record_ip_failure
  refuse l db = ok (none, put_limit (record_ip_failure s a.now l) db)

  pub rehashed : AdminCredential → Bool → Outcome AdminCredential
  rehashed c false = ok c
  rehashed c true =
      hash_password lib a.salt a.password >>= λ hash. ok (record c { password_hash = hash })

  -- Both factors passed.
  pub admit : User → AdminCredential → AdminLoginRateLimit → Tables → Outcome (Option User × Tables)
  unfolding rehashed
  admit u c l db = do
    needs ← password_needs_rehash lib c.password_hash
    c' ← rehashed (record c { failed_attempts = 0; locked_until = none }) needs
    let u' = record u { last_login_at = some a.now }
    ok (
      some u',
      put_limit l
          (put_credential c' (record db { users = update (λ v. v.id == u.id) (λ _. u') db.users })),
    )

  -- The part behind the check of the lock.
  pub check_factors :
      User → AdminCredential → AdminLoginRateLimit → Tables → Outcome (Option User × Tables)
  unfolding refuse admit totp_valid fail_account
  check_factors u c l db = verify_password lib c.password_hash a.password >>= λ password_valid.
      if password_valid
        && totp_valid lib s u.id c.totp_enabled_at c.totp_secret_enc a.totp_code a.now
      then admit u c l db
      else refuse l (put_credential (fail_account s a.now c) db)

  -- The part behind the query of the account.
  pub check_account :
      AdminLoginRateLimit
      → Tables
      → Option (User × AdminCredential)
      → Outcome (Option User × Tables)
  unfolding check_factors
  check_account l db none = refuse l db
  check_account l db (some (u, c)) =
      if not u.is_active || not (is_super_admin u.role)
      then refuse l db
      else if is_before a.now c.locked_until
      then refuse l db
      else check_factors u (unlocked c) l db

  check_email : AdminLoginRateLimit → Tables → Option Text → Outcome (Option User × Tables)
  unfolding check_account account_of
  check_email l db none = refuse l db
  check_email l db (some email) = check_account l db (account_of lib email db)

  -- The part behind `_load_ip_limit`.
  pub check_limit : AdminLoginRateLimit → Tables → Outcome (Option User × Tables)
  unfolding check_email reset_ip_limit_if_elapsed
  check_limit l db =
      if is_before a.now l.blocked_until
      then ok (none, db)
      else check_email (reset_ip_limit_if_elapsed s a.now l) db
          (normalise_login_email lib a.username)

  -- `_ip_hash`
  pub ip_hash : Text → Bytes
  unfolding utf8
  ip_hash ip = lib.hmac_sha256 s.ip_key (utf8 ip)

  check_ip : Outcome Text → Tables → Outcome (Option User × Tables)
  unfolding check_limit load_ip_limit
  check_ip (err e) db = ok (none, db)
  check_ip (ok ip) db =
      let found = load_ip_limit (ip_hash ip) a.now db.limits in
      check_limit found.0 (record db { limits = found.1 })

  -- `authenticate`
  pub authenticate : Tables → Outcome (Option User × Tables)
  unfolding check_ip
  authenticate db = check_ip (canonical_ip lib a.client_ip) db
