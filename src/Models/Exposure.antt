-- ===== src/Models/Exposure.antt =====
-- Subjects, scans, breach sources, findings and their history (app/models.py).
use leakcheck_hub.Prelude.{ℕ, Bool, Option, List, Text, Bytes}
use leakcheck_hub.Models.Enums.{
  SubjectKind, ScanTrigger, ScanStatus, FindingSeverity, FindingEventType,
}
use leakcheck_hub.Models.Values.{Fields}

pub record Subject : Type 0 where
  pub id : ℕ
  pub kind : SubjectKind
  pub value_norm : Text
  pub value_display : Text
  pub first_scanned_at : Option ℕ
  pub last_scanned_at : Option ℕ
  pub linked_user_id : Option ℕ

pub record Scan : Type 0 where
  pub id : ℕ
  pub subject_id : ℕ
  pub requested_by : Option ℕ
  pub trigger : ScanTrigger
  pub status : ScanStatus
  pub started_at : Option ℕ
  pub finished_at : Option ℕ
  pub result_count : ℕ
  pub new_count : ℕ
  pub quota : Option ℕ
  pub truncated : Bool
  pub error : Option Text

pub record BreachSource : Type 0 where
  pub id : ℕ
  pub name : Text
  pub name_norm : Text
  pub breach_date : Option ℕ
  pub breach_date_norm : ℕ
  pub unverified : Option Bool
  pub passwordless : Option Bool
  pub compilation : Option Bool
  pub extra : Fields

pub record Finding : Type 0 where
  pub id : ℕ
  pub subject_id : ℕ
  pub source_id : ℕ
  pub email : Option Text
  pub username : Option Text
  pub phone : Option Text
  pub origin : Option Text
  pub identity_key : Option Bytes
  pub password_ciphertext : Option Bytes
  pub password_nonce : Option Bytes
  pub password_sha256 : Option Bytes
  pub password_mask : Option Text
  pub password_len : Option ℕ
  pub password_charset : Option Text
  pub fields : List Text
  pub raw : Fields
  pub fingerprint : Bytes
  pub severity : FindingSeverity
  pub first_seen_at : ℕ
  pub last_seen_at : ℕ
  pub remediated_at : Option ℕ
  pub remediated_by : Option ℕ
  pub remediation_note : Option Text
  pub superseded_by_id : Option ℕ
  pub notified_at : Option ℕ

pub record FindingEvent : Type 0 where
  pub id : ℕ
  pub finding_id : ℕ
  pub event : FindingEventType
  pub actor_id : Option ℕ
  pub at : ℕ
  pub meta : Fields
