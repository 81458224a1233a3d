-- ===== src/Batches/Life/Opening.antt =====
-- app/batches.py: what the opening of a batch does to the numbers of the batches.
use leakcheck_hub.Prelude.{
  ℕ, suc, Bool, true, false, List, [], ◌∷◌, ◌++◌, ◌==◌, ==_iff, ◌≡◌, refl, sym, ◌∙◌, ap, subst,
  arith, inl, inr, Bool-cases, count, find, mem, is_some, All, Keyed, Lacks, All-weaken, All-append,
  count-snoc, find-append, ok, Error, ok-injective, >>=-eq-ok, raise_if, length,
}
use leakcheck_hub.Models.{User, ScanBatch, ScanQueue, BatchTarget, Fields}
use leakcheck_hub.Batches.Tables.{Tables, batch_ids, is_row, is_batch}
use leakcheck_hub.Batches.Queue.{ClaimedWork, is_done, is_lost}
use leakcheck_hub.Batches.Creation.{
  Library, Draws, TargetValue, queued_row, is_work_of, insert_work, upsert_subject, enqueue_users,
  batch_row, open_batch, create_batch, target_of,
}
use leakcheck_hub.Batches.Life.{Tally, HasRow, IsTallied, is_over, is_open_of}
use leakcheck_hub.Batches.Life.Steps.{IsTallied-same}

Lacks-find :
    (k : ℕ) (queue : List ScanQueue)
    → is_some (find (is_row k) queue) ≡ false
    → Lacks (λ r. r.id) k queue
unfolding find
Lacks-find k [] h = tt
Lacks-find k (r ∷ queue) h = elim (Bool-cases (is_row k r)) [
  | inl e ↦ absurd (ground arith)
  | inr e ↦ (e, Lacks-find k queue (ground arith))
]

Keyed-snoc :
    (queue : List ScanQueue) (r : ScanQueue)
    → Lacks (λ q. q.id) r.id queue
    → Keyed (λ q. q.id) queue
    → Keyed (λ q. q.id) (queue ++ r ∷ [])
Keyed-snoc [] r new keyed = (tt, tt)
Keyed-snoc (q ∷ queue) r new keyed = (
  All-append _ queue (r ∷ []) keyed.0 (ground (arith, new.0), tt),
  Keyed-snoc queue r new.1 keyed.1,
)

-- The batch with this identifier takes work.
abbrev Takes : ℕ → List ScanBatch → Type 0
Takes k bs = All (λ b. is_batch k b ≡ true → is_over b.status ≡ false) bs

module _ (id k subject_id clock : ℕ) (queue : List ScanQueue) where
  snoc-Tally :
      (b : ScanBatch)
      → (is_batch k b ≡ true → is_over b.status ≡ false)
      → Tally queue b
      → Tally (queue ++ queued_row id k subject_id clock ∷ []) b
  snoc-Tally b takes t =
      let r = queued_row id k subject_id clock in
      record {
        completed = ground (arith, count-snoc (is_done b.id) queue r, t.completed);
        failed = ground (arith, count-snoc (is_lost b.id) queue r, t.failed);
        over = λ o. ground (arith, count-snoc (is_open_of b.id) queue r, t.over o, takes);
      }

  snoc-HasRow :
      (work : ClaimedWork)
      → HasRow queue work
      → HasRow (queue ++ queued_row id k subject_id clock ∷ []) work
  unfolding HasRow
  snoc-HasRow work (r, found, same) = (
    r,
    find-append (is_row work.queue_id) queue (queued_row id k subject_id clock ∷ []) r found,
    same,
  )

snoc-IsTallied :
    (id k subject_id clock : ℕ) (db : Tables) (held : List ClaimedWork)
    → is_some (find (is_row id) db.queue) ≡ false
    → mem k (batch_ids db.batches) ≡ true
    → Takes k db.batches
    → IsTallied (record { db = db; held = held })
    → IsTallied (record {
      db = record db { queue = db.queue ++ queued_row id k subject_id clock ∷ [] };
      held = held;
    })
snoc-IsTallied id k subject_id clock db held new linked takes i =
    let r = queued_row id k subject_id clock in
    record {
      keyed = Keyed-snoc db.queue r (Lacks-find id db.queue new) i.keyed;
      linked = All-append _ db.queue (r ∷ []) i.linked (linked, tt);
      tallied = All-both db.batches takes i.tallied;
      known = All-weaken _ _ (snoc-HasRow id k subject_id clock db.queue) held i.known;
    }
  where
    All-both :
        (bs : List ScanBatch)
        → Takes k bs
        → All (Tally db.queue) bs
        → All (Tally (db.queue ++ queued_row id k subject_id clock ∷ [])) bs
    All-both [] takes t = tt
    All-both (b ∷ bs) takes t =
        (snoc-Tally id k subject_id clock db.queue b takes.0 t.0, All-both bs takes.1 t.1)

insert_work-IsTallied :
    (id k subject_id clock : ℕ) (db : Tables) (held : List ClaimedWork) (queue : List ScanQueue)
    → insert_work (queued_row id k subject_id clock) db.queue ≡ ok queue
    → mem k (batch_ids db.batches) ≡ true
    → Takes k db.batches
    → IsTallied (record { db = db; held = held })
    → IsTallied (record { db = record db { queue = queue }; held = held })
unfolding insert_work
insert_work-IsTallied id k subject_id clock db held queue h linked takes i =
    elim (Bool-cases (is_some (find (is_work_of k subject_id) db.queue))) [
      | inl known ↦
          let same : db.queue ≡ queue = ground arith in
          IsTallied-same db (record db { queue = queue }) held same refl i
      | inr fresh ↦ elim (Bool-cases (is_some (find (is_row id) db.queue))) [
        | inl taken ↦ absurd (ground arith)
        | inr free ↦
            let same : db.queue ++ queued_row id k subject_id clock ∷ [] ≡ queue = ground arith in
            IsTallied-same _ (record db { queue = queue }) held same refl
              (snoc-IsTallied id k subject_id clock db held free linked takes i)
      ]
    ]

module _ (lib : Library) (draws : Draws) where
  enqueue_users-IsTallied :
      (us : List User) (n : ℕ) (db db' : Tables) (held : List ClaimedWork)
      → enqueue_users lib draws us n db ≡ ok db'
      → mem draws.batch_id (batch_ids db.batches) ≡ true
      → Takes draws.batch_id db.batches
      → IsTallied (record { db = db; held = held })
      → IsTallied (record { db = db'; held = held })
  unfolding enqueue_users
  enqueue_users-IsTallied [] n db db' held h linked takes i =
      subst (λ d. IsTallied (record { db = d; held = held })) (ok-injective _ _ h) i
  enqueue_users-IsTallied (u ∷ us) n db db' held h linked takes i =
      let upserted = upsert_subject (draws.subject_id n) (lib.casefold u.email) u db.subjects in
      let (queue, hq, rest) =
        >>=-eq-ok
          (insert_work (queued_row (draws.queue_id n) draws.batch_id upserted.0 draws.clock)
            db.queue)
          _ h in
      enqueue_users-IsTallied us (suc n) (record db { subjects = upserted.1; queue = queue }) db'
        held rest linked takes
        (IsTallied-same (record db { queue = queue })
          (record db { subjects = upserted.1; queue = queue }) held refl refl
          (insert_work-IsTallied (draws.queue_id n) draws.batch_id upserted.0 draws.clock db held
            queue hq linked takes i))

mem-append :
    (k : ℕ) (bs : List ScanBatch) (b : ScanBatch)
    → mem k (batch_ids bs) ≡ true
    → mem k (batch_ids (bs ++ b ∷ [])) ≡ true
unfolding mem
mem-append k [] b h = absurd (ground arith)
mem-append k (c ∷ bs) b h = ground (arith, mem-append k bs b)

mem-last : (bs : List ScanBatch) (b : ScanBatch) → mem b.id (batch_ids (bs ++ b ∷ [])) ≡ true
unfolding mem
mem-last [] b = ground arith
mem-last (c ∷ bs) b = ground (arith, mem-last bs b)

Takes-new :
    (bs : List ScanBatch) (b : ScanBatch)
    → is_over b.status ≡ false
    → mem b.id (batch_ids bs) ≡ false
    → Takes b.id (bs ++ b ∷ [])
unfolding mem
Takes-new [] b fresh h = ((λ e. fresh), tt)
Takes-new (c ∷ bs) b fresh h = ((λ e. absurd (ground arith)), Takes-new bs b fresh (ground arith))

-- No row belongs to an identifier that no batch has.
count-unlinked :
    (k : ℕ) (ks : List ℕ) (p : ScanQueue → Bool)
    → ((r : ScanQueue) → p r ≡ true → (r.batch_id == k) ≡ true)
    → mem k ks ≡ false
    → (queue : List ScanQueue) → All (λ r. mem r.batch_id ks ≡ true) queue
    → count p queue ≡ 0
unfolding count
count-unlinked k ks p of new [] linked = refl
count-unlinked k ks p of new (r ∷ queue) linked = elim (Bool-cases (p r)) [
  | inl e ↦
      let same : r.batch_id ≡ k = (==_iff r.batch_id k).0 (of r e) in
      let here : mem k ks ≡ true = subst (λ n. mem n ks ≡ true) same linked.0 in
      absurd (ground arith)
  | inr e ↦ ground (arith, e, count-unlinked k ks p of new queue linked.1)
]

-- A batch whose identifier is new, none of whose rows is there yet.
new-IsTallied :
    (b : ScanBatch) (db : Tables) (held : List ClaimedWork)
    → b.completed_count ≡ 0
    → b.failed_count ≡ 0
    → mem b.id (batch_ids db.batches) ≡ false
    → IsTallied (record { db = db; held = held })
    → IsTallied (record { db = record db { batches = db.batches ++ b ∷ [] }; held = held })
new-IsTallied b db held done lost new i =
    let unlinked : (p : ScanQueue → Bool)
        → ((r : ScanQueue) → p r ≡ true → (r.batch_id == b.id) ≡ true)
        → count p db.queue ≡ 0 =
      λ p of. count-unlinked b.id (batch_ids db.batches) p of new db.queue i.linked in
    record {
      keyed = i.keyed;
      linked = All-weaken _ _ (λ r h. mem-append r.batch_id db.batches b h) db.queue i.linked;
      tallied = All-append _ db.batches (b ∷ []) i.tallied (
        record {
          completed = done ∙ sym (unlinked (is_done b.id) (λ r e. ground arith));
          failed = lost ∙ sym (unlinked (is_lost b.id) (λ r e. ground arith));
          over = λ o. unlinked (is_open_of b.id) (λ r e. ground arith);
        },
        tt,
      );
      known = i.known;
    }

open_batch-IsTallied :
    (lib : Library) (draws : Draws) (target_type : BatchTarget) (target : Fields)
    (actor_id total : ℕ) (users : List User) (db db' : Tables) (held : List ClaimedWork)
    (b : ScanBatch)
    → open_batch lib draws (batch_row lib draws target_type target actor_id total) users db
      ≡ ok (b, db')
    → IsTallied (record { db = db; held = held })
    → IsTallied (record { db = db'; held = held })
unfolding open_batch
open_batch-IsTallied lib draws target_type target actor_id total users db db' held b h i =
    let row = batch_row lib draws target_type target actor_id total in
    let (_, some_users, rest) = >>=-eq-ok (raise_if (length users == 0) Error.value_error) _ h in
    let (_, new, rest) =
      >>=-eq-ok (raise_if (mem draws.batch_id (batch_ids db.batches)) Error.integrity_error) _
        rest in
    let fresh : mem draws.batch_id (batch_ids db.batches) ≡ false = raise_if-ok _ _ new in
    let opened = record db { batches = db.batches ++ row ∷ [] } in
    let (db'', queued, out) = >>=-eq-ok (enqueue_users lib draws users 0 opened) _ rest in
    subst (λ d. IsTallied (record { db = d; held = held })) (ap (λ p. p.1) (ok-injective _ _ out))
      (enqueue_users-IsTallied lib draws users 0 opened db'' held queued (mem-last db.batches row)
        (Takes-new db.batches row refl fresh) (new-IsTallied row db held refl refl fresh i))
  where
    raise_if-ok : (bad : Bool) (e : Error) {u : Unit} → raise_if bad e ≡ ok u → bad ≡ false
    raise_if-ok false e h = refl
    raise_if-ok true e h = absurd cc

pub create-IsTallied :
    (lib : Library) (draws : Draws) (actor_id : ℕ) (target_type : BatchTarget) (value : TargetValue)
    (db db' : Tables) (held : List ClaimedWork) (b : ScanBatch)
    → create_batch lib draws actor_id target_type value db ≡ ok (b, db')
    → IsTallied (record { db = db; held = held })
    → IsTallied (record { db = db'; held = held })
unfolding create_batch
create-IsTallied lib draws actor_id target_type value db db' held b h i =
    let (target, _, rest) = >>=-eq-ok (target_of lib target_type value) _ h in
    open_batch-IsTallied lib draws target_type target.1 actor_id _ _ db db' held b rest i
