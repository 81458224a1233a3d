-- ===== src/Batches/Queue/Claims.antt =====
-- app/batches.py: the row that a claim takes, and what the claim writes.
use leakcheck_hub.Prelude.{
  ℕ, Option, none, some, Text, ◌==◌, ◌≡◌, refl, sym, ◌∙◌, ap, find, update, ok, ok-injective,
  >>=-eq-ok,
}
use leakcheck_hub.Models.{ScanQueue, Subject}
use leakcheck_hub.Batches.Tables.{Tables, is_row}
use leakcheck_hub.Batches.Queue.{
  ClaimedWork, claim_row, candidate, claimed_work, claim_candidate, claim_next, start, is_waiting,
}

-- What a claim that returned work did to the queue.
pub record Claims (worker_id : Text) (now clock : ℕ) (db : Tables) (work : ClaimedWork)
    (db' : Tables) (r : ScanQueue) : Type 0 where
  pub taken : candidate now db.queue ≡ some r
  pub queue_id : work.queue_id ≡ r.id
  pub batch_id : work.batch_id ≡ r.batch_id
  pub queue : db'.queue ≡ update (is_row r.id) (claim_row worker_id now) db.queue
  pub batches : db'.batches ≡ update (is_waiting r.batch_id) (start clock) db.batches

claimed_work-ok :
    (worker_id : Text) (now clock : ℕ) (r : ScanQueue) (db : Tables) (o : Option Subject)
    (work : ClaimedWork) (db' : Tables)
    → claimed_work worker_id now clock r db o ≡ ok (work, db')
    → (work.queue_id ≡ r.id)
      × (work.batch_id ≡ r.batch_id)
      × (db'.queue ≡ update (is_row r.id) (claim_row worker_id now) db.queue)
      × (db'.batches ≡ update (is_waiting r.batch_id) (start clock) db.batches)
unfolding claimed_work
claimed_work-ok worker_id now clock r db none work db' h = absurd cc
claimed_work-ok worker_id now clock r db (some s) work db' h =
    let same = ok-injective _ _ h in
    (
      ap (λ p. p.0.queue_id) (sym same),
      ap (λ p. p.0.batch_id) (sym same),
      ap (λ p. p.1.queue) (sym same),
      ap (λ p. p.1.batches) (sym same),
    )

claim_candidate-Claims :
    (worker_id : Text) (now clock : ℕ) (db : Tables) (work : ClaimedWork) (db' : Tables)
    (o : Option ScanQueue)
    → candidate now db.queue ≡ o
    → claim_candidate worker_id now clock db o ≡ ok (some work, db')
    → (r : ScanQueue) × Claims worker_id now clock db work db' r
unfolding claim_candidate
claim_candidate-Claims worker_id now clock db work db' none e h = absurd cc
claim_candidate-Claims worker_id now clock db work db' (some r) e h =
    let subject = find (λ (s : Subject). s.id == r.subject_id) db.subjects in
    let (p, hp, out) = >>=-eq-ok (claimed_work worker_id now clock r db subject) _ h in
    let pair = ok-injective _ _ out in
    let same : p.0 ≡ work = cc in
    let (k, b, q, s) = claimed_work-ok worker_id now clock r db subject p.0 p.1 hp in
    (
      r,
      record {
        taken = e;
        queue_id = ap (λ w. w.queue_id) (sym same) ∙ k;
        batch_id = ap (λ w. w.batch_id) (sym same) ∙ b;
        queue = ap (λ q. q.1.queue) (sym pair) ∙ q;
        batches = ap (λ q. q.1.batches) (sym pair) ∙ s;
      },
    )

pub claim-Claims :
    (worker_id : Text) (now clock : ℕ) (db : Tables) (work : ClaimedWork) (db' : Tables)
    → claim_next worker_id now clock db ≡ ok (some work, db')
    → (r : ScanQueue) × Claims worker_id now clock db work db' r
unfolding claim_next
claim-Claims worker_id now clock db work db' h =
    claim_candidate-Claims worker_id now clock db work db' (candidate now db.queue) refl h

-- A claim that returned nothing wrote nothing.
claim_candidate-none :
    (worker_id : Text) (now clock : ℕ) (db db' : Tables) (o : Option ScanQueue)
    → claim_candidate worker_id now clock db o ≡ ok (none, db')
    → db ≡ db'
unfolding claim_candidate
claim_candidate-none worker_id now clock db db' none h = ap (λ p. p.1) (ok-injective _ _ h)
claim_candidate-none worker_id now clock db db' (some r) h =
    let subject = find (λ (s : Subject). s.id == r.subject_id) db.subjects in
    let (p, hp, out) = >>=-eq-ok (claimed_work worker_id now clock r db subject) _ h in absurd (cc)

pub claim-none :
    (worker_id : Text) (now clock : ℕ) (db db' : Tables)
    → claim_next worker_id now clock db ≡ ok (none, db')
    → db ≡ db'
unfolding claim_next
claim-none worker_id now clock db db' h =
    claim_candidate-none worker_id now clock db db' (candidate now db.queue) h
