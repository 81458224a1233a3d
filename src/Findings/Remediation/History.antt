-- ===== src/Findings/Remediation/History.antt =====
-- app/remediation.py: repeated calls, and what the event history says of a finding.
use leakcheck_hub.Prelude.{
  ℕ, ◌+◌, Bool, true, false, ◌&&◌, Option, none, some, List, [], ◌∷◌, Text, is_some, find, update,
  Outcome, ok, err, ◌≡◌, refl, arith, count, ◌==◌, if◌then◌else◌, find-update, find-update_from,
  count-snoc, subst, Bool-cases, inl, inr, Option-cases, find-holds,
}
use leakcheck_hub.Models.{Finding, FindingEvent, FindingEventType}
use leakcheck_hub.Findings.Tables.{Tables, has_id}
use leakcheck_hub.Findings.Remediation.{
  remediate_finding, unremediate_finding, remediate_row, unremediate_row, add_event, event_row,
  close, reopen,
}

-- After a remediation that returned, whoever asks again, and with whatever note, gets the finding as
-- it was returned the first time, and nothing is written.
pub remediate-remediate :
    (event_id event_id' k actor actor' : ℕ) (note note' : Option Text) (at at' : ℕ) (db : Tables)
    (f : Finding) (db' : Tables)
    → remediate_finding event_id k actor note at db ≡ ok (f, db')
    → remediate_finding event_id' k actor' note' at' db' ≡ ok (f, db')
unfolding remediate_finding remediate_row add_event
remediate-remediate event_id event_id' k actor actor' note note' at at' db f db' h =
    elim (Option-cases (find (has_id k) db.findings)) [
      | inl gone ↦ ground arith
      | inr (g, found) ↦
          ground (arith, find-update (has_id k) (close actor note at) (λ x e. e) db.findings g)
    ]

-- The kind of an event, as `==` tells the two transitions apart.
abbrev pub is_remediated : FindingEventType → Bool
is_remediated FindingEventType.remediated = true
is_remediated _ = false

abbrev pub is_unremediated : FindingEventType → Bool
is_unremediated FindingEventType.unremediated = true
is_unremediated _ = false

abbrev pub closings : ℕ → List FindingEvent → ℕ
closings k es = count (λ e. e.finding_id == k && is_remediated e.event) es

abbrev pub reopenings : ℕ → List FindingEvent → ℕ
reopenings k es = count (λ e. e.finding_id == k && is_unremediated e.event) es

-- The history agrees with the state: a finding that is remediated was closed once more than it was
-- reopened, an open one as often.
abbrev pub IsLogged : Tables → Type 0
IsLogged db =
    (k : ℕ) (f : Finding)
    → find (has_id k) db.findings ≡ some f
    → closings k db.events ≡ reopenings k db.events + (if is_some f.remediated_at then 1 else 0)

same_row :
    (k j : ℕ) (f x : Finding) (l : List Finding)
    → find (has_id k) l ≡ some f
    → find (has_id j) l ≡ some x
    → k ≡ j
    → x ≡ f
same_row k j f x l found here same =
    let found' : find (has_id j) l ≡ some f = subst (λ n. find (has_id n) l ≡ some f) same found in
    cc

-- What a closing leaves: its own row counts one more closing, the others are as they were.
close-IsLogged :
    (event_id k actor : ℕ) (remark : Option Text) (at : ℕ) (db : Tables) (f : Finding)
    → IsLogged db
    → find (has_id k) db.findings ≡ some f
    → is_some f.remediated_at ≡ false
    → IsLogged (
        add_event event_id k FindingEventType.remediated actor at
          (record db { findings = update (has_id k) (close actor remark at) db.findings }))
unfolding add_event
close-IsLogged event_id k actor remark at db f log found status j g found' =
    let row = event_row event_id k FindingEventType.remediated actor at in
    let (x, here, same) =
      find-update_from (has_id k) (close actor remark at) (has_id j) (λ y. refl) db.findings g
        found' in
    ground (
      arith,
      count-snoc (λ (e : FindingEvent). e.finding_id == j && is_remediated e.event) db.events row,
      count-snoc (λ (e : FindingEvent). e.finding_id == j && is_unremediated e.event) db.events row,
      log j x here,
      find-holds (has_id j) db.findings x here,
      same_row k j f x db.findings found here,
    )

-- What a reopening leaves: its own row counts one more reopening.
reopen-IsLogged :
    (event_id k actor : ℕ) (at : ℕ) (db : Tables) (f : Finding)
    → IsLogged db
    → find (has_id k) db.findings ≡ some f
    → is_some f.remediated_at ≡ true
    → IsLogged (
        add_event event_id k FindingEventType.unremediated actor at
          (record db { findings = update (has_id k) (reopen) db.findings }))
unfolding add_event
reopen-IsLogged event_id k actor at db f log found status j g found' =
    let row = event_row event_id k FindingEventType.unremediated actor at in
    let (x, here, same) =
      find-update_from (has_id k) (reopen) (has_id j) (λ y. refl) db.findings g found' in
    ground (
      arith,
      count-snoc (λ (e : FindingEvent). e.finding_id == j && is_remediated e.event) db.events row,
      count-snoc (λ (e : FindingEvent). e.finding_id == j && is_unremediated e.event) db.events row,
      log j x here,
      find-holds (has_id j) db.findings x here,
      same_row k j f x db.findings found here,
    )

remediate_row-IsLogged :
    (event_id k actor : ℕ) (remark : Option Text) (at : ℕ) (db : Tables) (f : Finding)
    → IsLogged db
    → find (has_id k) db.findings ≡ some f
    → IsLogged (remediate_row event_id k actor remark at f db).1
unfolding remediate_row
remediate_row-IsLogged event_id k actor remark at db f log found =
    elim (Bool-cases (is_some f.remediated_at)) [
      | inl closed ↦ rw closed log
      | inr open_row ↦
          rw open_row (close-IsLogged event_id k actor remark at db f log found open_row)
    ]

unremediate_row-IsLogged :
    (event_id k actor at : ℕ) (db : Tables) (f : Finding)
    → IsLogged db
    → find (has_id k) db.findings ≡ some f
    → IsLogged (unremediate_row event_id k actor at f db).1
unfolding unremediate_row
unremediate_row-IsLogged event_id k actor at db f log found =
    elim (Bool-cases (is_some f.remediated_at)) [
      | inl closed ↦ rw closed (reopen-IsLogged event_id k actor at db f log found closed)
      | inr open_row ↦ rw open_row log
    ]

-- One request of an analyst. A call that raises leaves the tables alone.
pub data Transition : Type 0 where
  remediated : ℕ → ℕ → ℕ → Option Text → ℕ → Transition
  unremediated : ℕ → ℕ → ℕ → ℕ → Transition

settled : Tables → Outcome (Finding × Tables) → Tables
settled db (ok (_, db')) = db'
settled db (err _) = db

pub apply : Tables → Transition → Tables
unfolding settled
apply db (remediated event_id k actor remark at) =
    settled db (remediate_finding event_id k actor remark at db)
apply db (unremediated event_id k actor at) =
    settled db (unremediate_finding event_id k actor at db)

unfoldable pub run : Tables → List Transition → Tables
unfolding apply
run db [] = db
run db (t ∷ ts) = run (apply db t) ts

-- What a request leaves, by whether its finding is there.
apply_remediated :
    (event_id k actor : ℕ) (remark : Option Text) (at : ℕ) (db : Tables) (row : Option Finding)
    → find (has_id k) db.findings ≡ row
    → apply db (remediated event_id k actor remark at)
      ≡ (elim row [ none ↦ db | some f ↦ (remediate_row event_id k actor remark at f db).1 ])
unfolding apply remediate_finding
apply_remediated event_id k actor remark at db none e = ground arith
apply_remediated event_id k actor remark at db (some f) e = ground arith

apply_unremediated :
    (event_id k actor at : ℕ) (db : Tables) (row : Option Finding)
    → find (has_id k) db.findings ≡ row
    → apply db (unremediated event_id k actor at)
      ≡ (elim row [ none ↦ db | some f ↦ (unremediate_row event_id k actor at f db).1 ])
unfolding apply unremediate_finding
apply_unremediated event_id k actor at db none e = ground arith
apply_unremediated event_id k actor at db (some f) e = ground arith

apply-IsLogged : (db : Tables) (t : Transition) → IsLogged db → IsLogged (apply db t)
apply-IsLogged db (remediated event_id k actor remark at) log =
    elim (Option-cases (find (has_id k) db.findings)) [
      | inl gone ↦ rw (apply_remediated event_id k actor remark at db none gone) log
      | inr (f, found) ↦
          rw (apply_remediated event_id k actor remark at db (some f) found)
            (remediate_row-IsLogged event_id k actor remark at db f log found)
    ]
apply-IsLogged db (unremediated event_id k actor at) log =
    elim (Option-cases (find (has_id k) db.findings)) [
      | inl gone ↦ rw (apply_unremediated event_id k actor at db none gone) log
      | inr (f, found) ↦
          rw (apply_unremediated event_id k actor at db (some f) found)
            (unremediate_row-IsLogged event_id k actor at db f log found)
    ]

-- Any sequence of remediations and reopenings, whatever each of them finds, keeps the event history
-- in agreement with the state of every finding.
pub run-IsLogged : (db : Tables) (ts : List Transition) → IsLogged db → IsLogged (run db ts)
unfolding run
run-IsLogged db [] log = log
run-IsLogged db (t ∷ ts) log = run-IsLogged (apply db t) ts (apply-IsLogged db t log)
