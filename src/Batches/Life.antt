-- ===== src/Batches/Life.antt =====
-- app/batches.py: the steps of batches and workers, one transaction each, and the worlds that they
-- reach.
pub mod Counts
pub mod Steps
pub mod Opening
pub mod Reached
mod Examples
use leakcheck_hub.Prelude.{
  In, ℕ, Bool, true, false, ◌&&◌, ◌||◌, Option, some, List, [], ◌∷◌, Text, ◌==◌, ◌≡◌, count, find,
  mem, All, Keyed, Outcome, ok,
}
use leakcheck_hub.Models.{
  ScanBatch, ScanQueue, BatchTarget, BatchStatus, QueueStatus, is_queued, is_running,
}
use leakcheck_hub.Batches.Tables.{Tables, batch_ids, is_row}
use leakcheck_hub.Batches.Creation.{Library, Draws, TargetValue, create_batch}
use leakcheck_hub.Batches.Queue.{ClaimedWork, claim_next, finish_work, is_done, is_lost}

-- The tables, and the work that was ever claimed: a worker may finish late, twice or never.
pub record World : Type 0 where
  pub db : Tables
  pub held : List ClaimedWork

pub data Step (lib : Library) : World → World → Type 0 where
  created :
      (w : World) (draws : Draws) (actor_id : ℕ) (target_type : BatchTarget) (value : TargetValue)
      (b : ScanBatch) (db' : Tables)
      → create_batch lib draws actor_id target_type value w.db ≡ ok (b, db')
      → Step lib w (record { db = db'; held = w.held })
  claimed :
      (w : World) (worker_id : Text) (now clock : ℕ) (work : ClaimedWork) (db' : Tables)
      → claim_next worker_id now clock w.db ≡ ok (some work, db')
      → Step lib w (record { db = db'; held = work ∷ w.held })
  finished :
      (w : World) (work : ClaimedWork) (succeeded : Bool) (error : Option Text) (now clock : ℕ)
      → In work w.held
      → Step lib w (record { db = finish_work work succeeded error now clock w.db; held = w.held })

pub data Reach (lib : Library) (start : World) : World → Type 0 where
  at_start : Reach lib start start
  next : {v w : World} → Reach lib start v → Step lib v w → Reach lib start w

abbrev pub is_over : BatchStatus → Bool
is_over BatchStatus.pending = false
is_over BatchStatus.running = false
is_over _ = true

abbrev pub is_open : QueueStatus → Bool
is_open s = is_queued s || is_running s

abbrev pub is_open_of : ℕ → ScanQueue → Bool
is_open_of k r = r.batch_id == k && is_open r.status

-- A batch's numbers agree with its rows in the queue, and no row of a batch that is over is open.
pub record Tally (queue : List ScanQueue) (b : ScanBatch) : Type 0 where
  pub completed : b.completed_count ≡ count (is_done b.id) queue
  pub failed : b.failed_count ≡ count (is_lost b.id) queue
  pub over : is_over b.status ≡ true → count (is_open_of b.id) queue ≡ 0

-- The row that claimed work names belongs to the batch that the work names.
pub HasRow : List ScanQueue → ClaimedWork → Type 0
HasRow queue work =
    (r : ScanQueue) × (find (is_row work.queue_id) queue ≡ some r) × (r.batch_id ≡ work.batch_id)

pub record IsTallied (w : World) : Type 0 where
  pub keyed : Keyed (λ r. r.id) w.db.queue
  pub linked : All (λ r. mem r.batch_id (batch_ids w.db.batches) ≡ true) w.db.queue
  pub tallied : All (Tally w.db.queue) w.db.batches
  pub known : All (HasRow w.db.queue) w.held
