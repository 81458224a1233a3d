-- ===== src/Batches/Queue.antt =====
-- app/batches.py: claiming work and finishing it. The instants that a statement takes from the
-- process and from the database's clock are arguments.
pub mod Claims
pub mod Exclusion
pub mod Examples
use leakcheck_hub.Prelude.{
  ◌>>=◌, ℕ, ◌+◌, Bool, true, false, ◌&&◌, ◌||◌, Option, none, some, List, [], ◌∷◌, Text, codes, ltb,
  ◌==◌, if◌then◌else◌, take, find, update, count, first_where, Outcome, ok, err, Error,
}
use leakcheck_hub.Models.{
  Subject, ScanBatch, ScanQueue, QueueStatus, BatchStatus, is_queued, is_running, is_succeeded,
  is_failed, is_pending_batch, seconds,
}
use leakcheck_hub.Batches.Tables.{Tables, is_row, is_batch}

-- `_STALE_AFTER`
abbrev pub stale_after : ℕ
stale_after = seconds 600

pub record ClaimedWork : Type 0 where
  pub queue_id : ℕ
  pub batch_id : ℕ
  pub subject_id : ℕ
  pub query : Text

-- `locked_at < claimed_at - _STALE_AFTER`; a NULL instant is not earlier.
abbrev pub is_stale : ℕ → Option ℕ → Bool
is_stale now none = false
is_stale now (some at) = ltb (at + stale_after) now

abbrev pub is_claimable : ℕ → ScanQueue → Bool
is_claimable now r = is_queued r.status || is_running r.status && is_stale now r.locked_at

abbrev pub claim_row : Text → ℕ → ScanQueue → ScanQueue
claim_row worker_id now r = record r {
  status = QueueStatus.running;
  locked_by = some (take 255 worker_id);
  locked_at = some now;
  attempts = r.attempts + 1;
  last_error = none;
}

-- The row that `claim_statement` takes.
unfoldable pub candidate : ℕ → List ScanQueue → Option ScanQueue
candidate now queue = first_where (λ r. r.created_at) (λ r. r.id) (is_claimable now) queue

abbrev pub start : ℕ → ScanBatch → ScanBatch
start clock b = record b { status = BatchStatus.running; started_at = some clock }

abbrev pub is_waiting : ℕ → ScanBatch → Bool
is_waiting k b = b.id == k && is_pending_batch b.status

-- `claim_next` behind the claim, and its lookup of the subject: NoResultFound when there is none.
claimed_work :
    Text → (now clock : ℕ) → ScanQueue → Tables → Option Subject → Outcome (ClaimedWork × Tables)
claimed_work worker_id now clock r db none = err Error.no_result
claimed_work worker_id now clock r db (some s) = ok (
  record {
    queue_id = r.id;
    batch_id = r.batch_id;
    subject_id = r.subject_id;
    query = s.value_norm;
  },
  record db {
    queue = update (is_row r.id) (claim_row worker_id now) db.queue;
    batches = update (is_waiting r.batch_id) (start clock) db.batches;
  },
)

claim_candidate :
    Text → (now clock : ℕ) → Tables → Option ScanQueue → Outcome (Option ClaimedWork × Tables)
unfolding claimed_work find
claim_candidate worker_id now clock db none = ok (none, db)
claim_candidate worker_id now clock db (some r) =
    claimed_work worker_id now clock r db (find (λ s. s.id == r.subject_id) db.subjects)
    >>= λ claimed. ok (some claimed.0, claimed.1)

pub claim_next : Text → (now clock : ℕ) → Tables → Outcome (Option ClaimedWork × Tables)
unfolding candidate claim_candidate
claim_next worker_id now clock db = claim_candidate worker_id now clock db (candidate now db.queue)

-- `error or "scan failed"`, cut to the column's width.
pub failure_text : Option Text → Text
failure_text none = codes "scan failed"
failure_text (some []) = codes "scan failed"
failure_text (some (c ∷ s)) = take 255 (c ∷ s)

abbrev pub finish_row : Bool → Option Text → ℕ → ScanQueue → ScanQueue
finish_row succeeded error clock r = record r {
  status = if succeeded then QueueStatus.succeeded else QueueStatus.failed;
  finished_at = some clock;
  locked_by = none;
  locked_at = none;
  last_error = if succeeded then none else some (failure_text error);
}

abbrev pub is_under_way : ℕ → ScanQueue → Bool
is_under_way k r = r.id == k && is_running r.status

abbrev pub is_done : ℕ → ScanQueue → Bool
is_done k r = r.batch_id == k && is_succeeded r.status

abbrev pub is_lost : ℕ → ScanQueue → Bool
is_lost k r = r.batch_id == k && is_failed r.status

abbrev pub is_of : ℕ → ScanQueue → Bool
is_of k r = r.batch_id == k

-- The values that `finish_work` gives the batch, by the counts of its rows.
unfoldable pub settle_batch : (completed failed total now : ℕ) → ScanBatch → ScanBatch
settle_batch completed failed total now b =
    let counted = record b { completed_count = completed; failed_count = failed } in
    if completed + failed == total
    then record counted {
      status = if failed == 0 then BatchStatus.succeeded else BatchStatus.partial;
      finished_at = some now;
    }
    else counted

unfoldable pub finish_work : ClaimedWork → Bool → Option Text → (now clock : ℕ) → Tables → Tables
unfolding update count settle_batch
finish_work work succeeded error now clock db =
    let queue = update (is_under_way work.queue_id) (finish_row succeeded error clock) db.queue in
    record db {
      queue = queue;
      batches =
          update (is_batch work.batch_id)
            (settle_batch (count (is_done work.batch_id) queue)
              (count (is_lost work.batch_id) queue) (count (is_of work.batch_id) queue) now)
            db.batches;
    }
