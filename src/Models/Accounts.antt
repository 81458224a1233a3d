-- ===== src/Models/Accounts.antt =====
-- Accounts, credentials, throttles and sessions (app/models.py).
use leakcheck_hub.Prelude.{ℕ, Bool, Option, Text, Bytes}
use leakcheck_hub.Models.Enums.{UserRole, UserSource}

pub record User : Type 0 where
  pub id : ℕ
  pub email : Text
  pub google_sub : Option Text
  pub display_name : Text
  pub ou_path : Option Text
  pub role : UserRole
  pub is_active : Bool
  pub source : UserSource
  pub created_at : ℕ
  pub last_login_at : Option ℕ

pub record AdminCredential : Type 0 where
  pub user_id : ℕ
  pub password_hash : Text
  pub totp_secret_enc : Option Bytes
  pub totp_enabled_at : Option ℕ
  pub failed_attempts : ℕ
  pub locked_until : Option ℕ

pub record AdminLoginRateLimit : Type 0 where
  pub ip_hash : Bytes
  pub window_started_at : ℕ
  pub attempts : ℕ
  pub blocked_until : Option ℕ

pub record Session : Type 0 where
  pub id_hash : Bytes
  pub user_id : ℕ
  pub created_at : ℕ
  pub expires_at : ℕ
  pub last_seen_at : ℕ
  pub idle_expires_at : ℕ
  pub ip_hash : Bytes
  pub ua_hash : Bytes
  pub revoked_at : Option ℕ
