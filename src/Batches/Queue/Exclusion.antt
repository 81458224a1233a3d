-- ===== src/Batches/Queue/Exclusion.antt =====
-- app/batches.py: for how long no other claim takes a row that was claimed.
use leakcheck_hub.Prelude.{
  ℕ, ◌+◌, ◌≤◌, Bool, true, false, ◌&&◌, ◌||◌, Option, none, some, List, [], ◌∷◌, Text, ◌≡◌, ◌≢◌,
  refl, sym, ◌∙◌, subst, arith, inl, inr, Bool-cases, All, ==_iff, update, first_where-All,
  first_where-First, Outcome, ok, err, leb,
}
use leakcheck_hub.Models.{ScanQueue, QueueStatus, is_queued, is_running}
use leakcheck_hub.Batches.Tables.{Tables, is_row}
use leakcheck_hub.Batches.Queue.{
  ClaimedWork, stale_after, is_stale, is_claimable, claim_row, candidate, claim_next,
}
use leakcheck_hub.Batches.Queue.Claims.{claim-Claims, claim-none}

-- A row that a worker holds at least until an instant.
abbrev locked_until : ℕ → Option ℕ → Bool
locked_until until none = false
locked_until until (some at) = leb until (at + stale_after)

abbrev is_held : ℕ → ScanQueue → Bool
is_held until r = is_running r.status && locked_until until r.locked_at

Held : (k until : ℕ) → List ScanQueue → Type 0
Held k until queue = All (λ r. is_row k r ≡ true → is_held until r ≡ true) queue

not_claimable :
    (until now : ℕ) (status : QueueStatus) (at : Option ℕ)
    → now ≤ until
    → (is_running status && locked_until until at) ≡ true
    → (is_queued status || is_running status && is_stale now at) ≡ false
not_claimable until now QueueStatus.running (some at) early held = ground arith
not_claimable until now QueueStatus.running none early held = absurd (ground arith)
not_claimable until now QueueStatus.queued at early held = absurd (ground arith)
not_claimable until now QueueStatus.succeeded at early held = absurd (ground arith)
not_claimable until now QueueStatus.failed at early held = absurd (ground arith)

claims_hold :
    (worker_id : Text) (now : ℕ) (r : ScanQueue) (queue : List ScanQueue)
    → Held r.id (now + stale_after) (update (is_row r.id) (claim_row worker_id now) queue)
unfolding Held update
claims_hold worker_id now r [] = tt
claims_hold worker_id now r (s ∷ queue) = elim (Bool-cases (is_row r.id s)) [
  | inl e ↦ rw e ((λ h. ground arith), claims_hold worker_id now r queue)
  | inr e ↦ rw e ((λ h. absurd (ground arith)), claims_hold worker_id now r queue)
]

-- A claim that is early enough takes another row, and leaves the held one.
claims_other :
    (k until now : ℕ) (queue : List ScanQueue) (r : ScanQueue)
    → now ≤ until
    → Held k until queue
    → candidate now queue ≡ some r
    → r.id ≢ k
unfolding Held candidate
claims_other k until now queue r early held h e =
    let mine : is_row k r ≡ true = ground arith in
    let kept : is_held until r ≡ true =
      first_where-All (λ s. s.created_at) (λ s. s.id) (is_claimable now)
        (λ s. is_row k s ≡ true → is_held until s ≡ true) queue r held h mine in
    let taken : is_claimable now r ≡ true =
      (first_where-First (λ s. s.created_at) (λ s. s.id) (is_claimable now) queue r h).0 in
    let refused : is_claimable now r ≡ false =
      not_claimable until now r.status r.locked_at early kept in
    cc

Held-claim :
    (k until now : ℕ) (worker_id : Text) (j : ℕ) (queue : List ScanQueue)
    → j ≢ k
    → Held k until queue
    → Held k until (update (is_row j) (claim_row worker_id now) queue)
unfolding Held update
Held-claim k until now worker_id j [] other h = tt
Held-claim k until now worker_id j (s ∷ queue) other h = elim (Bool-cases (is_row j s)) [
  | inl e ↦
      let same : s.id ≡ j = ground arith in
      rw e (
        (λ mine. absurd (other (sym same ∙ (==_iff s.id k).0 mine))),
        Held-claim k until now worker_id j queue other h.1,
      )
  | inr e ↦ rw e (h.0, Held-claim k until now worker_id j queue other h.1)
]

-- A call of `claim_next`: the worker, the process's instant and the database's.
abbrev pub Call : Type 0
Call = Text × (ℕ × ℕ)

-- What a call hands out, with what the later calls do; a call that raised wrote nothing.
unfoldable pub collected :
    Outcome (Option ClaimedWork × Tables) → Tables → (Tables → List ClaimedWork) → List ClaimedWork
collected (err e) db later = later db
collected (ok (none, db')) db later = later db'
collected (ok (some work, db')) db later = work ∷ later db'

unfoldable pub claim_all : List Call → Tables → List ClaimedWork
unfolding collected
claim_all [] db = []
claim_all ((worker_id, (now, clock)) ∷ calls) db =
    collected (claim_next worker_id now clock db) db (claim_all calls)

module _ (k until : ℕ) where
  later_claims :
      (calls : List Call) (db : Tables)
      → All (λ c. c.1.0 ≤ until) calls
      → Held k until db.queue
      → All (λ w. w.queue_id ≢ k) (claim_all calls db)
  unfolding claim_all
  later_claims [] db early held = tt
  later_claims ((worker_id, (now, clock)) ∷ calls) db early held =
      step (claim_next worker_id now clock db) (λ d. later_claims calls d early.1) refl
    where
      step :
          (o : Outcome (Option ClaimedWork × Tables))
          → ((d : Tables) → Held k until d.queue → All (λ w. w.queue_id ≢ k) (claim_all calls d))
          → claim_next worker_id now clock db ≡ o
          → All (λ w. w.queue_id ≢ k) (collected o db (claim_all calls))
      step (err e) later h = later db held
      step (ok (none, db')) later h =
          later db'
            (subst (λ d. Held k until d.queue) (claim-none worker_id now clock db db' h) held)
      step (ok (some work, db')) later h =
          let (r, c) = claim-Claims worker_id now clock db work db' h in
          let other : r.id ≢ k = claims_other k until now db.queue r early.0 held c.taken in
          (
            (λ e. other (sym c.queue_id ∙ e)),
            later db' (
                subst (Held k until) (sym c.queue)
                  (Held-claim k until now worker_id r.id db.queue other held)),
          )

-- Once a row of the queue was claimed, no other claim hands it out within ten minutes, whoever
-- claims and however often, while nobody finishes it.
pub claim_all-claim_next :
    (worker_id : Text) (now clock : ℕ) (db : Tables) (work : ClaimedWork) (db' : Tables)
    (calls : List Call)
    → claim_next worker_id now clock db ≡ ok (some work, db')
    → All (λ c. c.1.0 ≤ now + stale_after) calls
    → All (λ w. w.queue_id ≢ work.queue_id) (claim_all calls db')
claim_all-claim_next worker_id now clock db work db' calls h early =
    let (r, c) = claim-Claims worker_id now clock db work db' h in
    subst (λ k. All (λ w. w.queue_id ≢ k) (claim_all calls db')) (sym c.queue_id)
      (later_claims r.id (now + stale_after) calls db' early (
        subst (Held r.id (now + stale_after)) (sym c.queue) (claims_hold worker_id now r db.queue)))
