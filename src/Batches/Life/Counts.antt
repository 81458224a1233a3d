-- ===== src/Batches/Life/Counts.antt =====
-- app/batches.py: what claims and results do to the numbers of a batch.
use leakcheck_hub.Prelude.{
  ℕ, ◌+◌, ◌≤◌, Bool, true, false, Option, List, [], ◌∷◌, Text, ◌==◌, ==_iff, if◌then◌else◌, ◌≡◌,
  refl, sym, ◌∙◌, subst, arith, inl, inr, Bool-cases, count, update, All, count-update_same,
  count-update-le, All-weaken,
}
use leakcheck_hub.Models.{ScanBatch, ScanQueue, QueueStatus, is_succeeded, is_failed}
use leakcheck_hub.Batches.Tables.{is_row, is_batch}
use leakcheck_hub.Batches.Queue.{
  is_claimable, claim_row, start, finish_row, is_under_way, is_done, is_lost, is_of, settle_batch,
}
use leakcheck_hub.Batches.Life.{Tally, is_over, is_open, is_open_of}

pub claimable-is_open :
    (now : ℕ) (r : ScanQueue) → is_claimable now r ≡ true → is_open r.status ≡ true
claimable-is_open now r h = ground arith

-- What the counts see of an open row.
open-status :
    (s : QueueStatus) → is_open s ≡ true → (is_succeeded s ≡ false) × (is_failed s ≡ false)
open-status QueueStatus.queued h = (refl, refl)
open-status QueueStatus.running h = (refl, refl)
open-status QueueStatus.succeeded h = absurd cc
open-status QueueStatus.failed h = absurd cc

closed-status :
    (s : QueueStatus)
    → ((if is_succeeded s then 1 else 0)
        + (if is_failed s then 1 else 0)
        + (if is_open s then 1 else 0))
      ≡ 1
closed-status QueueStatus.queued = refl
closed-status QueueStatus.running = refl
closed-status QueueStatus.succeeded = refl
closed-status QueueStatus.failed = refl

-- Rows named by an identifier are open: a claim of that row changes no count.
module _ (worker_id : Text) (now j k : ℕ) (queue : List ScanQueue)
    (named : All (λ r. is_row j r ≡ true → is_open r.status ≡ true) queue) where
  claim-done :
      count (is_done k) (update (is_row j) (claim_row worker_id now) queue)
      ≡ count (is_done k) queue
  claim-done =
      count-update_same (is_done k) (is_row j) (claim_row worker_id now) queue
        (All-weaken _ _ (λ r h e. let o = open-status r.status (h e) in ground arith) queue named)

  claim-lost :
      count (is_lost k) (update (is_row j) (claim_row worker_id now) queue)
      ≡ count (is_lost k) queue
  claim-lost =
      count-update_same (is_lost k) (is_row j) (claim_row worker_id now) queue
        (All-weaken _ _ (λ r h e. let o = open-status r.status (h e) in ground arith) queue named)

  claim-open :
      count (is_open_of k) (update (is_row j) (claim_row worker_id now) queue)
      ≡ count (is_open_of k) queue
  claim-open =
      count-update_same (is_open_of k) (is_row j) (claim_row worker_id now) queue
        (All-weaken _ _ (λ r h e. let o = h e in ground arith) queue named)

pub claim-Tally :
    (worker_id : Text) (now j : ℕ) (queue : List ScanQueue) (b : ScanBatch)
    → All (λ r. is_row j r ≡ true → is_open r.status ≡ true) queue
    → Tally queue b
    → Tally (update (is_row j) (claim_row worker_id now) queue) b
claim-Tally worker_id now j queue b named t = record {
  completed = t.completed ∙ sym (claim-done worker_id now j b.id queue named);
  failed = t.failed ∙ sym (claim-lost worker_id now j b.id queue named);
  over = λ o. claim-open worker_id now j b.id queue named ∙ t.over o;
}

-- The rows of a batch are its successes, its failures and its open rows.
count-parts :
    (k : ℕ) (queue : List ScanQueue)
    → count (is_done k) queue + count (is_lost k) queue + count (is_open_of k) queue
      ≡ count (is_of k) queue
unfolding count
count-parts k [] = refl
count-parts k (r ∷ queue) = ground (arith, closed-status r.status, count-parts k queue)

pub start-Tally :
    (clock : ℕ) (queue : List ScanQueue) (b : ScanBatch)
    → Tally queue b
    → Tally queue (start clock b)
start-Tally clock queue b t = record {
  completed = t.completed;
  failed = t.failed;
  over = λ o. absurd cc;
}

-- Results of rows under way: the counts of the batches that have none of them stay.
module _ (succeeded : Bool) (error : Option Text) (clock j k : ℕ) (queue : List ScanQueue)
    (elsewhere : All (λ r. is_row j r ≡ true → (r.batch_id == k) ≡ false) queue) where
  finish-done :
      count (is_done k) (update (is_under_way j) (finish_row succeeded error clock) queue)
      ≡ count (is_done k) queue
  finish-done =
      count-update_same (is_done k) (is_under_way j) (finish_row succeeded error clock) queue (
        All-weaken _ _
          (λ r h e. let o : (r.batch_id == k) ≡ false = h (ground arith) in ground arith) queue
          elsewhere)

  finish-lost :
      count (is_lost k) (update (is_under_way j) (finish_row succeeded error clock) queue)
      ≡ count (is_lost k) queue
  finish-lost =
      count-update_same (is_lost k) (is_under_way j) (finish_row succeeded error clock) queue (
        All-weaken _ _
          (λ r h e. let o : (r.batch_id == k) ≡ false = h (ground arith) in ground arith) queue
          elsewhere)

-- A result leaves no batch with more open rows.
pub finish-open :
    (succeeded : Bool) (error : Option Text) (clock j k : ℕ) (queue : List ScanQueue)
    → count (is_open_of k) (update (is_under_way j) (finish_row succeeded error clock) queue)
      ≤ count (is_open_of k) queue
finish-open succeeded error clock j k queue =
    count-update-le (is_open_of k) (is_under_way j) (finish_row succeeded error clock) queue (λ r e.
      elim (Bool-cases succeeded) [ inl y ↦ rw y (ground arith) | inr n ↦ rw n (ground arith) ])

pub finish-Tally :
    (succeeded : Bool) (error : Option Text) (clock j : ℕ) (queue : List ScanQueue) (b : ScanBatch)
    → All (λ r. is_row j r ≡ true → (r.batch_id == b.id) ≡ false) queue
    → Tally queue b
    → Tally (update (is_under_way j) (finish_row succeeded error clock) queue) b
finish-Tally succeeded error clock j queue b elsewhere t = record {
  completed = t.completed ∙ sym (finish-done succeeded error clock j b.id queue elsewhere);
  failed = t.failed ∙ sym (finish-lost succeeded error clock j b.id queue elsewhere);
  over = λ o.
      let fewer = finish-open succeeded error clock j b.id queue in
      let none_open = t.over o in omega arith;
}

-- The numbers that `finish_work` gives a batch are right when they are those of its rows.
pub settle-Tally :
    (now : ℕ) (queue : List ScanQueue) (b : ScanBatch)
    → (is_over b.status ≡ true → count (is_open_of b.id) queue ≡ 0)
    → Tally queue (
        settle_batch
          (count (is_done b.id) queue)
          (count (is_lost b.id) queue)
          (count (is_of b.id) queue)
          now
          b)
unfolding settle_batch
settle-Tally now queue b over =
    let parts = count-parts b.id queue in
    elim (Bool-cases
      (count (is_done b.id) queue + count (is_lost b.id) queue == count (is_of b.id) queue)) [
        | inl all ↦ rw all record { completed = refl; failed = refl; over = λ o. ground arith }
        | inr some_open ↦ rw some_open record { completed = refl; failed = refl; over = over }
      ]

-- What `finish_work` writes to the batches.
pub settled-Tally :
    (k now : ℕ) (old queue : List ScanQueue) (b : ScanBatch)
    → is_batch k b ≡ true
    → count (is_open_of b.id) queue ≤ count (is_open_of b.id) old
    → Tally old b
    → Tally queue (
        settle_batch
          (count (is_done k) queue)
          (count (is_lost k) queue)
          (count (is_of k) queue)
          now
          b)
settled-Tally k now old queue b mine fewer t =
    let same : b.id ≡ k = (==_iff b.id k).0 mine in
    subst
      (λ n. Tally queue (
        settle_batch (count (is_done n) queue) (count (is_lost n) queue) (count (is_of n) queue) now
          b))
      same (settle-Tally now queue b (λ o. let closed = t.over o in omega arith))
