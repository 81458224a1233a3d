-- ===== src/Batches/Tables.antt =====
-- The tables of batches (app/models.py).
use leakcheck_hub.Prelude.{ℕ, Bool, List, [], ◌∷◌, ◌==◌}
use leakcheck_hub.Models.{User, Subject, ScanBatch, ScanQueue}

pub record Tables : Type 0 where
  pub users : List User
  pub subjects : List Subject
  pub batches : List ScanBatch
  pub queue : List ScanQueue

abbrev pub batch_ids : List ScanBatch → List ℕ
batch_ids [] = []
batch_ids (b ∷ bs) = b.id ∷ batch_ids bs

abbrev pub is_row : ℕ → ScanQueue → Bool
is_row k r = r.id == k

abbrev pub is_batch : ℕ → ScanBatch → Bool
is_batch k b = b.id == k
