-- ===== src/Models/Enums.antt =====
-- The enumerations of app/models.py, and the Boolean tests that the code makes on them (`is`, `==`).
use leakcheck_hub.Prelude.{ℕ, ◌*◌, Bool, true, false}

pub data UserRole : Type 0 where
  user analyst super_admin : UserRole

pub data UserSource : Type 0 where
  google workspace_sync manual : UserSource

pub data SubjectKind : Type 0 where
  email domain username phone origin password : SubjectKind

pub data ScanTrigger : Type 0 where
  manual self batch scheduled : ScanTrigger

pub data ScanStatus : Type 0 where
  pending running succeeded failed : ScanStatus

pub data BatchTarget : Type 0 where
  ou domain selection : BatchTarget

pub data BatchStatus : Type 0 where
  pending running succeeded partial failed : BatchStatus

pub data QueueStatus : Type 0 where
  queued running succeeded failed : QueueStatus

pub data NotificationStatus : Type 0 where
  pending dry_run sent suppressed failed : NotificationStatus

pub data AlertSinkName : Type 0 where
  wazuh dfir_iris : AlertSinkName

pub data AlertOutboxStatus : Type 0 where
  pending delivered dead_letter : AlertOutboxStatus

pub data FindingSeverity : Type 0 where
  low medium high : FindingSeverity

pub data FindingEventType : Type 0 where
  discovered remediated unremediated re_leaked password_viewed notified alerted : FindingEventType

abbrev pub is_super_admin : UserRole → Bool
is_super_admin UserRole.super_admin = true
is_super_admin _ = false

abbrev pub is_email : SubjectKind → Bool
is_email SubjectKind.email = true
is_email _ = false

abbrev pub is_queued : QueueStatus → Bool
is_queued QueueStatus.queued = true
is_queued _ = false

abbrev pub is_running : QueueStatus → Bool
is_running QueueStatus.running = true
is_running _ = false

abbrev pub is_succeeded : QueueStatus → Bool
is_succeeded QueueStatus.succeeded = true
is_succeeded _ = false

abbrev pub is_failed : QueueStatus → Bool
is_failed QueueStatus.failed = true
is_failed _ = false

abbrev pub is_pending_batch : BatchStatus → Bool
is_pending_batch BatchStatus.pending = true
is_pending_batch _ = false

abbrev pub is_pending_alert : AlertOutboxStatus → Bool
is_pending_alert AlertOutboxStatus.pending = true
is_pending_alert _ = false

abbrev pub is_pending_notification : NotificationStatus → Bool
is_pending_notification NotificationStatus.pending = true
is_pending_notification _ = false

abbrev pub is_sent : NotificationStatus → Bool
is_sent NotificationStatus.sent = true
is_sent _ = false

abbrev pub is_high : FindingSeverity → Bool
is_high FindingSeverity.high = true
is_high _ = false

-- `timedelta(seconds=…)` in microseconds.
abbrev pub seconds : ℕ → ℕ
seconds n = n * 1000000
