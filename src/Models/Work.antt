-- ===== src/Models/Work.antt =====
-- Batches and their queue, and the two outboxes (app/models.py).
use leakcheck_hub.Prelude.{ℕ, Option, List, Text, Bytes}
use leakcheck_hub.Models.Enums.{
  BatchTarget, BatchStatus, QueueStatus, NotificationStatus, AlertSinkName, AlertOutboxStatus,
}
use leakcheck_hub.Models.Values.{Fields}

pub record ScanBatch : Type 0 where
  pub id : ℕ
  pub target_type : BatchTarget
  pub target : Fields
  pub status : BatchStatus
  pub created_by : ℕ
  pub total_count : ℕ
  pub completed_count : ℕ
  pub failed_count : ℕ
  pub created_at : ℕ
  pub started_at : Option ℕ
  pub finished_at : Option ℕ

pub record ScanQueue : Type 0 where
  pub id : ℕ
  pub batch_id : ℕ
  pub subject_id : ℕ
  pub status : QueueStatus
  pub attempts : ℕ
  pub locked_by : Option Text
  pub locked_at : Option ℕ
  pub last_error : Option Text
  pub created_at : ℕ
  pub finished_at : Option ℕ

pub record Notification : Type 0 where
  pub id : ℕ
  pub user_id : ℕ
  pub template : Text
  pub finding_ids : List Text
  pub status : NotificationStatus
  pub dedupe_key : Bytes
  pub attempts : ℕ
  pub error : Option Text
  pub created_at : ℕ
  pub sent_at : Option ℕ

pub record AlertOutbox : Type 0 where
  pub id : ℕ
  pub sink : AlertSinkName
  pub payload : Fields
  pub status : AlertOutboxStatus
  pub dedupe_key : Bytes
  pub attempts : ℕ
  pub next_attempt_at : ℕ
  pub last_error : Option Text
  pub created_at : ℕ
  pub delivered_at : Option ℕ
