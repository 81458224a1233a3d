-- ===== src/Auth/Local/Sample.antt =====
-- Libraries that compute in the open, and the tables after a super-admin was created.
use leakcheck_hub.Prelude.{ℕ, true, false, none, some, [], ◌∷◌, Text, Bytes, codes, text_eq, ok}
use leakcheck_hub.Models.{User, UserRole, UserSource, AdminCredential}
use leakcheck_hub.Auth.Local.{Library}
use leakcheck_hub.Auth.Local.Provisioning.{Tables, Draws}
use leakcheck_hub.Auth.Local.Logins.{Settings, Attempt}

abbrev twenty : Bytes
twenty = codes "abcdefghijklmnopqrst"

abbrev pub sample_lib : Library
sample_lib = record {
  lower = λ s. s;
  same_email = text_eq;
  hmac_sha1 = λ k m. twenty;
  hmac_sha256 = λ k m. m;
  b32decode = λ s. some twenty;
  urlsafe_b64decode = λ s. some s;
  b32encode = λ b. b;
  aes_gcm_encrypt = λ k n p a. p;
  aes_gcm_decrypt = λ k n c a. some c;
  argon2_hash = λ salt p. p;
  argon2_verify = λ h p. ok (text_eq h p);
  argon2_needs_rehash = λ h. ok false;
  ip_address = λ ip. some ip;
  uuid_bytes = λ k. k ∷ [];
}

abbrev pub sample_settings : Settings
sample_settings = record {
  account_max_failures = 2;
  account_lockout = 900000000;
  ip_max_failures = 3;
  ip_window = 900000000;
  ip_lockout = 900000000;
  ip_key = [];
  data_key = codes "k";
}

abbrev pub sample_password : Text
sample_password = codes "correct horse battery"

abbrev pub login_at : ℕ → Text → Attempt
login_at now password = record {
  username = codes " root@x.test ";
  password = password;
  totp_code = none;
  client_ip = codes "10.0.0.1";
  now = now;
  salt = [];
}

abbrev pub sample_draws : Draws
sample_draws = record { user_id = 1; salt = []; clock = 5 }

abbrev pub no_admins : Tables
no_admins = record { users = []; credentials = []; limits = [] }

abbrev pub root_user : User
root_user = record {
  id = 1;
  email = codes "root@x.test";
  google_sub = none;
  display_name = codes "Root";
  ou_path = none;
  role = UserRole.super_admin;
  is_active = true;
  source = UserSource.manual;
  created_at = 5;
  last_login_at = none;
}

abbrev pub root_credential : AdminCredential
root_credential = record {
  user_id = 1;
  password_hash = sample_password;
  totp_secret_enc = none;
  totp_enabled_at = none;
  failed_attempts = 0;
  locked_until = none;
}

abbrev pub root_db : Tables
root_db = record { users = root_user ∷ []; credentials = root_credential ∷ []; limits = [] }
