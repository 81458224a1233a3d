-- ===== src/Batches/Life/Steps.antt =====
-- app/batches.py: what one transaction of a worker does to the numbers of the batches.
use leakcheck_hub.Prelude.{
  In, All-In, ℕ, Bool, true, Option, some, List, [], ◌∷◌, Text, ◌≡◌, refl, sym, ◌∙◌, ap, subst,
  arith, count, find, update, mem, All, Keyed, All-named, All-update_by, All-weaken, All-update,
  Keyed-update, find-update_holds, first_where-find, first_where-First, ok,
}
use leakcheck_hub.Models.{ScanBatch, ScanQueue}
use leakcheck_hub.Batches.Tables.{Tables, batch_ids, is_row, is_batch}
use leakcheck_hub.Batches.Queue.{
  ClaimedWork, is_claimable, claim_row, candidate, claim_next, finish_work, start, is_waiting,
  finish_row, is_under_way, is_done, is_lost, is_of, settle_batch,
}
use leakcheck_hub.Batches.Queue.Claims.{claim-Claims}
use leakcheck_hub.Batches.Life.{World, Tally, HasRow, IsTallied, is_open}
use leakcheck_hub.Batches.Life.Counts.{
  claimable-is_open, claim-Tally, start-Tally, finish-Tally, finish-open, settled-Tally,
}

batch_ids-update :
    (p : ScanBatch → Bool) (f : ScanBatch → ScanBatch)
    → ((b : ScanBatch) → (f b).id ≡ b.id)
    → (bs : List ScanBatch) → batch_ids (update p f bs) ≡ batch_ids bs
unfolding update
batch_ids-update p f keep [] = refl
batch_ids-update p f keep (b ∷ bs) = ground (arith, keep b, batch_ids-update p f keep bs)

-- Batches that keep their identifiers stay linked.
linked-update :
    (p : ScanBatch → Bool) (f : ScanBatch → ScanBatch)
    → ((b : ScanBatch) → (f b).id ≡ b.id)
    → (bs : List ScanBatch) (queue : List ScanQueue)
    → All (λ (r : ScanQueue). mem r.batch_id (batch_ids bs) ≡ true) queue
    → All (λ (r : ScanQueue). mem r.batch_id (batch_ids (update p f bs)) ≡ true) queue
linked-update p f keep bs queue =
    subst (λ ks. All (λ (r : ScanQueue). mem r.batch_id ks ≡ true) queue)
      (sym (batch_ids-update p f keep bs))

-- Rows that keep their identifier and their batch are still known.
known-update :
    (p : ScanQueue → Bool) (f : ScanQueue → ScanQueue)
    → ((r : ScanQueue) → (f r).id ≡ r.id)
    → ((r : ScanQueue) → (f r).batch_id ≡ r.batch_id)
    → (queue : List ScanQueue) (held : List ClaimedWork) → All (HasRow queue) held
    → All (HasRow (update p f queue)) held
unfolding HasRow
known-update p f same_id same_batch queue held =
    All-weaken _ _
      (λ work h.
        find-update_holds p f (is_row work.queue_id) (λ r. r.batch_id ≡ work.batch_id)
          (λ r. rw (same_id r) refl) (λ r e. same_batch r ∙ e) queue h)
      held

-- A claim of a row of the queue.
claimed-IsTallied :
    (w : World) (worker_id : Text) (now clock : ℕ) (work : ClaimedWork) (r : ScanQueue)
    → candidate now w.db.queue ≡ some r
    → work.queue_id ≡ r.id
    → work.batch_id ≡ r.batch_id
    → IsTallied w
    → IsTallied (record {
      db = record (w.db) {
        queue = update (is_row r.id) (claim_row worker_id now) w.db.queue;
        batches = update (is_waiting r.batch_id) (start clock) w.db.batches;
      };
      held = work ∷ w.held;
    })
unfolding candidate HasRow
claimed-IsTallied w worker_id now clock work r taken same_row same_batch i =
    let found =
      first_where-find (λ r. r.created_at) (λ r. r.id) (is_claimable now) w.db.queue r i.keyed
        taken in
    let due =
      (first_where-First (λ r. r.created_at) (λ r. r.id) (is_claimable now) w.db.queue r taken).0 in
    let named =
      All-named (λ r. r.id) (λ r. is_open r.status ≡ true) r.id w.db.queue r i.keyed found
        (claimable-is_open now r due) in
    record {
      keyed =
          Keyed-update (λ r. r.id) (is_row r.id) (claim_row worker_id now) (λ r. refl) w.db.queue
            i.keyed;
      linked =
          linked-update (is_waiting r.batch_id) (start clock) (λ b. refl) w.db.batches
            (update (is_row r.id) (claim_row worker_id now) w.db.queue)
            (All-update (is_row r.id) (claim_row worker_id now)
              (λ r. mem r.batch_id (batch_ids w.db.batches) ≡ true) (λ r h. h) w.db.queue i.linked);
      tallied =
          All-update (is_waiting r.batch_id) (start clock)
            (Tally (update (is_row r.id) (claim_row worker_id now) w.db.queue))
            (start-Tally clock (update (is_row r.id) (claim_row worker_id now) w.db.queue))
            w.db.batches
            (All-weaken _ _ (λ b. claim-Tally worker_id now r.id w.db.queue b named) w.db.batches
              i.tallied);
      known = (
        find-update_holds (is_row r.id) (claim_row worker_id now) (is_row work.queue_id)
            (λ r. r.batch_id ≡ work.batch_id) (λ r. refl) (λ r e. e) w.db.queue
            (r, ap (λ k. find (is_row k) w.db.queue) same_row ∙ found, sym same_batch),
        known-update (is_row r.id) (claim_row worker_id now) (λ r. refl) (λ r. refl) w.db.queue
            w.held i.known,
      );
    }

-- The invariant reads the queue and the batches only.
pub IsTallied-same :
    (db db' : Tables) (held : List ClaimedWork)
    → db.queue ≡ db'.queue
    → db.batches ≡ db'.batches
    → IsTallied (record { db = db; held = held })
    → IsTallied (record { db = db'; held = held })
IsTallied-same db db' held queue batches i = record {
  keyed = subst (Keyed (λ r. r.id)) queue i.keyed;
  linked =
      subst (λ bs. All (λ r. mem r.batch_id (batch_ids bs) ≡ true) db'.queue) batches
        (subst (All (λ r. mem r.batch_id (batch_ids db.batches) ≡ true)) queue i.linked);
  tallied =
      subst (All (Tally db'.queue)) batches (subst (λ q. All (Tally q) db.batches) queue i.tallied);
  known = subst (λ q. All (HasRow q) held) queue i.known;
}

pub claim-IsTallied :
    (w : World) (worker_id : Text) (now clock : ℕ) (work : ClaimedWork) (db' : Tables)
    → claim_next worker_id now clock w.db ≡ ok (some work, db')
    → IsTallied w
    → IsTallied (record { db = db'; held = work ∷ w.held })
claim-IsTallied w worker_id now clock work db' h i =
    let (r, c) = claim-Claims worker_id now clock w.db work db' h in
    IsTallied-same _ db' (work ∷ w.held) (sym c.queue) (sym c.batches)
      (claimed-IsTallied w worker_id now clock work r c.taken c.queue_id c.batch_id i)

-- The batch that the work names, and the others.
finish-batches :
    (succeeded : Bool) (error : Option Text) (now clock j k : ℕ) (queue : List ScanQueue)
    → All (λ r. is_row j r ≡ true → r.batch_id ≡ k) queue
    → (bs : List ScanBatch) → All (Tally queue) bs
    → (let queue' = update (is_under_way j) (finish_row succeeded error clock) queue in
        All (Tally queue') (
          update
            (is_batch k)
            (settle_batch
              (count (is_done k) queue')
              (count (is_lost k) queue')
              (count (is_of k) queue')
              now)
            bs))
finish-batches succeeded error now clock j k queue named bs h =
    let queue' = update (is_under_way j) (finish_row succeeded error clock) queue in
    All-update_by (Tally queue) (Tally queue') (is_batch k)
      (settle_batch (count (is_done k) queue') (count (is_lost k) queue') (count (is_of k) queue')
        now)
      (λ b mine t.
        settled-Tally k now queue queue' b mine (finish-open succeeded error clock j b.id queue) t)
      (λ b other t.
        finish-Tally succeeded error clock j queue b
          (All-weaken _ _ (λ r e here. let eq = e here in ground (arith, eq, other)) queue named) t)
      bs h

settle_batch-id :
    (completed failed total now : ℕ) (b : ScanBatch)
    → (settle_batch completed failed total now b).id ≡ b.id
unfolding settle_batch
settle_batch-id completed failed total now b = ground arith

pub finish-IsTallied :
    (w : World) (work : ClaimedWork) (succeeded : Bool) (error : Option Text) (now clock : ℕ)
    → In work w.held
    → IsTallied w
    → IsTallied (record { db = finish_work work succeeded error now clock w.db; held = w.held })
unfolding finish_work HasRow
finish-IsTallied w work succeeded error now clock claimed i =
    let (r, found, of_batch) = All-In (HasRow w.db.queue) work w.held claimed i.known in
    let queue' =
      update (is_under_way work.queue_id) (finish_row succeeded error clock) w.db.queue in
    record {
      keyed =
          Keyed-update (λ r. r.id) (is_under_way work.queue_id) (finish_row succeeded error clock)
            (λ r. refl) w.db.queue i.keyed;
      linked =
          linked-update (is_batch work.batch_id)
            (settle_batch (count (is_done work.batch_id) queue')
              (count (is_lost work.batch_id) queue') (count (is_of work.batch_id) queue') now)
            (settle_batch-id (count (is_done work.batch_id) queue')
              (count (is_lost work.batch_id) queue') (count (is_of work.batch_id) queue') now)
            w.db.batches queue'
            (All-update (is_under_way work.queue_id) (finish_row succeeded error clock)
              (λ r. mem r.batch_id (batch_ids w.db.batches) ≡ true) (λ r h. h) w.db.queue i.linked);
      tallied =
          finish-batches succeeded error now clock work.queue_id work.batch_id w.db.queue
            (All-named (λ r. r.id) (λ r. r.batch_id ≡ work.batch_id) work.queue_id w.db.queue r
              i.keyed found of_batch)
            w.db.batches i.tallied;
      known =
          known-update (is_under_way work.queue_id) (finish_row succeeded error clock) (λ r. refl)
            (λ r. refl) w.db.queue w.held i.known;
    }
