-- ===== src/Batches/Life/Reached.antt =====
-- app/batches.py: what holds of every world that batches and workers reach.
use leakcheck_hub.Batches.Creation.{Library}
use leakcheck_hub.Batches.Life.{
  World, Step, created, claimed, finished, Reach, at_start, next, IsTallied,
}
use leakcheck_hub.Batches.Life.Steps.{claim-IsTallied, finish-IsTallied}
use leakcheck_hub.Batches.Life.Opening.{create-IsTallied}

Step-IsTallied : (lib : Library) (v w : World) → Step lib v w → IsTallied v → IsTallied w
Step-IsTallied lib v _ (created w draws actor_id target_type value b db' h) i =
    create-IsTallied lib draws actor_id target_type value w.db db' w.held b h i
Step-IsTallied lib v _ (claimed w worker_id now clock work db' h) i =
    claim-IsTallied w worker_id now clock work db' h i
Step-IsTallied lib v _ (finished w work succeeded error now clock h) i =
    finish-IsTallied w work succeeded error now clock h i

-- Whatever batches are created, work claimed and results reported, in any order, by any number of
-- workers, late, twice or never: each row has its own key and belongs to a batch; the completed and
-- the failed count of every batch are the numbers of its rows that succeeded and that failed; and a
-- batch that is over has no row that is queued or running.
pub Reach-IsTallied :
    (lib : Library) (start w : World) → Reach lib start w → IsTallied start → IsTallied w
Reach-IsTallied lib start _ at_start i = i
Reach-IsTallied lib start w (next {v = v} before step) i =
    Step-IsTallied lib v w step (Reach-IsTallied lib start v before i)
