-- ===== src/Batches/Queue/Examples.antt =====
-- The first claim of a batch of two, and three claims that follow it.
use leakcheck_hub.Prelude.{
  ℕ, ◌≡◌, ◌≢◌, refl, ok, find, update, select, first_where, first_row, earlier, some, List, [], ◌∷◌,
  codes, All, arith,
}
use leakcheck_hub.Batches.Tables.{Tables}
use leakcheck_hub.Batches.Queue.{
  ClaimedWork, claim_next, claim_candidate, claimed_work, candidate, claim_row, start,
}
use leakcheck_hub.Batches.Queue.Exclusion.{Call, claim_all, collected, claim_all-claim_next}
use leakcheck_hub.Batches.Creation.{queued_row}
use leakcheck_hub.Batches.Sample.{sample_batch, batch_db}

abbrev pub first_work : ClaimedWork
first_work = record { queue_id = 20; batch_id = 5; subject_id = 10; query = codes "a@x.test" }

abbrev pub claimed_db : Tables
claimed_db = record (batch_db) {
  batches = start 200 sample_batch ∷ [];
  queue = claim_row (codes "w1") 200 (queued_row 20 5 10 100) ∷ queued_row 21 5 11 100 ∷ [];
}

pub sample_claimed : claim_next (codes "w1") 200 200 batch_db ≡ ok (some first_work, claimed_db)
unfolding claim_next claim_candidate claimed_work candidate first_where first_row earlier select
    find update
sample_claimed = refl

abbrev calls : List Call
calls =
    (codes "w2", (300, 300)) ∷ (codes "w1", (400, 400)) ∷ (codes "w2", (600000000, 600000000)) ∷ []

claim_all-claim_next_example : All (λ w. w.queue_id ≢ 20) (claim_all calls claimed_db)
claim_all-claim_next_example =
    claim_all-claim_next (codes "w1") 200 200 batch_db first_work claimed_db calls sample_claimed
      (omega arith, (omega arith, (omega arith, tt)))

abbrev queue_ids : List ClaimedWork → List ℕ
queue_ids [] = []
queue_ids (w ∷ ws) = w.queue_id ∷ queue_ids ws

-- One of these calls does take the other row.
calls_take : queue_ids (claim_all calls claimed_db) ≡ 21 ∷ []
unfolding claim_all collected claim_next claim_candidate claimed_work candidate first_where
    first_row earlier select find update
calls_take = refl
