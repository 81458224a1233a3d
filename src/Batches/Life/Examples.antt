-- ===== src/Batches/Life/Examples.antt =====
-- A batch of two users, of which one row is claimed and its success is reported.
use leakcheck_hub.Prelude.{here, none, [], ◌∷◌, codes, true}
use leakcheck_hub.Models.{BatchTarget}
use leakcheck_hub.Batches.Queue.{finish_work}
use leakcheck_hub.Batches.Life.{World, created, claimed, finished, Reach, at_start, next, IsTallied}
use leakcheck_hub.Batches.Life.Reached.{Reach-IsTallied}
use leakcheck_hub.Batches.Creation.Examples.{sample_created}
use leakcheck_hub.Batches.Queue.Examples.{first_work, claimed_db, sample_claimed}
use leakcheck_hub.Batches.Sample.{
  sample_db, sample_lib, sample_draws, sample_value, sample_batch, batch_db,
}

abbrev start_world : World
start_world = record { db = sample_db; held = [] }

abbrev claimed_world : World
claimed_world = record { db = claimed_db; held = first_work ∷ [] }

abbrev finished_world : World
finished_world = record {
  db = finish_work first_work true none 300 300 claimed_db;
  held = first_work ∷ [];
}

reached : Reach sample_lib start_world finished_world
reached =
    next
      (next
        (next at_start (
          created start_world sample_draws 1 BatchTarget.ou sample_value sample_batch batch_db
            sample_created))
        (claimed (record { db = batch_db; held = [] }) (codes "w1") 200 200 first_work claimed_db
          sample_claimed))
      (finished claimed_world first_work true none 300 300 here)

start-IsTallied : IsTallied start_world
start-IsTallied = record { keyed = tt; linked = tt; tallied = tt; known = tt }

Reach-IsTallied_example : IsTallied finished_world
Reach-IsTallied_example =
    Reach-IsTallied sample_lib start_world finished_world reached start-IsTallied
