-- ===== src/Auth/Local/Provisioning.antt =====
-- app/auth/local.py: `create_superadmin` on the tables of local logins. A raised error rolls the
-- caller's transaction back.
use leakcheck_hub.Prelude.{
  ◌>>=◌, ◌>>◌, ℕ, Bool, true, ◌||◌, none, List, [], ◌∷◌, ◌++◌, Text, Bytes, ◌==◌, if◌then◌else◌,
  find, is_some, Outcome, ok, err, Error, raise_if,
}
use leakcheck_hub.Models.{User, UserRole, UserSource, AdminCredential, AdminLoginRateLimit}
use leakcheck_hub.Auth.Local.{Library, normalise_admin_email, normalise_display_name, hash_password}

pub record Tables : Type 0 where
  pub users : List User
  pub credentials : List AdminCredential
  pub limits : List AdminLoginRateLimit

pub record Draws : Type 0 where
  pub user_id : ℕ
  pub salt : Bytes
  pub clock : ℕ

abbrev pub has_email : Library → Text → User → Bool
has_email lib email u = lib.same_email u.email email

superadmin_row : Draws → (email name : Text) → User
superadmin_row draws email name = record {
  id = draws.user_id;
  email = email;
  google_sub = none;
  display_name = name;
  ou_path = none;
  role = UserRole.super_admin;
  is_active = true;
  source = UserSource.manual;
  created_at = draws.clock;
  last_login_at = none;
}

credential_row : ℕ → Text → AdminCredential
credential_row user_id hash = record {
  user_id = user_id;
  password_hash = hash;
  totp_secret_enc = none;
  totp_enabled_at = none;
  failed_attempts = 0;
  locked_until = none;
}

-- The flush of both rows; a user's identifier is the key of both tables.
add_superadmin : User → AdminCredential → Tables → Outcome (User × Tables)
unfolding find
add_superadmin u c db =
    if is_some (find (λ (v : User). v.id == u.id) db.users)
      || is_some (find (λ (d : AdminCredential). d.user_id == c.user_id) db.credentials)
    then err Error.integrity_error
    else ok (u, record db { users = db.users ++ u ∷ []; credentials = db.credentials ++ c ∷ [] })

-- `create_superadmin`
pub create_superadmin :
    Library → Draws → (email name password : Text) → Tables → Outcome (User × Tables)
unfolding find superadmin_row credential_row add_superadmin
create_superadmin lib draws email name password db = do
  normalised ← normalise_admin_email lib email
  shown ← normalise_display_name name
  raise_if (is_some (find (has_email lib normalised) db.users)) Error.already_exists
  hash ← hash_password lib draws.salt password
  add_superadmin (superadmin_row draws normalised shown) (credential_row draws.user_id hash) db
