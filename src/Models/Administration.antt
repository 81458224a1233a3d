-- ===== src/Models/Administration.antt =====
-- Settings, the audit log, schedules and the watchlist (app/models.py).
use leakcheck_hub.Prelude.{ℕ, Bool, Option, Text, Bytes}
use leakcheck_hub.Models.Values.{Fields}

pub data ScheduleKind : Type 0 where
  scan_ou scan_domain digest : ScheduleKind

pub record PlatformSetting : Type 0 where
  pub key : Text
  pub ciphertext : Bytes
  pub nonce : Bytes
  pub schema_version : ℕ
  pub updated_at : ℕ
  pub updated_by : ℕ

pub record AuditLog : Type 0 where
  pub id : ℕ
  pub actor_id : Option ℕ
  pub action : Text
  pub target_type : Option Text
  pub target_id : Option Text
  pub ip_hash : Bytes
  pub at : ℕ
  pub meta : Fields

pub record Schedule : Type 0 where
  pub id : ℕ
  pub kind : ScheduleKind
  pub target : Text
  pub cron : Text
  pub timezone : Text
  pub enabled : Bool
  pub misfire_grace_seconds : ℕ
  pub last_run_at : Option ℕ
  pub last_batch_id : Option ℕ
  pub next_run_at : ℕ
  pub last_error : Option Text
  pub created_by : ℕ
  pub created_at : ℕ

pub record WatchlistEntry : Type 0 where
  pub id : ℕ
  pub subject_id : Option ℕ
  pub user_id : Option ℕ
  pub alert_soc : Bool
  pub alert_user : Bool
  pub alert_wazuh : Bool
  pub alert_iris : Bool
  pub enabled : Bool
  pub created_by : ℕ
  pub created_at : ℕ
