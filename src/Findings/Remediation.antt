-- ===== src/Findings/Remediation.antt =====
-- app/remediation.py: closing and reopening a finding. The identifier of the event row is drawn by
-- the caller, and instants are timezone-aware by their type.
pub mod History
mod Examples
use leakcheck_hub.Prelude.{
  ℕ, Bool, true, false, Option, none, some, List, [], ◌∷◌, ◌++◌, Text, is_some, find, update,
  Outcome, ok, err, Error, ◌>>=◌, ◌==◌, if◌then◌else◌,
}
use leakcheck_hub.Models.{Finding, FindingEvent, FindingEventType, Fields}
use leakcheck_hub.Findings.Tables.{Tables, has_id}

locked_finding : Tables → ℕ → Outcome Finding
locked_finding db finding_id = elim (find (has_id finding_id) db.findings) [
  | none ↦ err Error.finding_not_found
  | some finding ↦ ok finding
]

abbrev pub event_row : ℕ → ℕ → FindingEventType → ℕ → ℕ → FindingEvent
event_row event_id finding_id event actor_id at = record {
  id = event_id;
  finding_id = finding_id;
  event = event;
  actor_id = some actor_id;
  at = at;
  meta = Fields.end;
}

add_event : ℕ → ℕ → FindingEventType → ℕ → ℕ → Tables → Tables
add_event event_id finding_id event actor_id at db = record db {
  events = db.events ++ event_row event_id finding_id event actor_id at ∷ [];
}

abbrev pub close : ℕ → Option Text → ℕ → Finding → Finding
close actor_id note at f = record f {
  remediated_at = some at;
  remediated_by = some actor_id;
  remediation_note = note;
}

abbrev pub reopen : Finding → Finding
reopen f = record f { remediated_at = none; remediated_by = none; remediation_note = none }

-- The part of `remediate_finding` behind the row lock.
remediate_row : ℕ → ℕ → ℕ → Option Text → ℕ → Finding → Tables → Finding × Tables
remediate_row event_id finding_id actor_id note at f db =
    if is_some f.remediated_at then (f, db) else (
      close actor_id note at f,
      add_event event_id finding_id FindingEventType.remediated actor_id at (record db {
        findings = update (has_id finding_id) (close actor_id note at) db.findings;
      }),
    )

pub remediate_finding :
    (event_id finding_id actor_id : ℕ) (note : Option Text) (at : ℕ)
    → Tables
    → Outcome (Finding × Tables)
unfolding locked_finding
remediate_finding event_id finding_id actor_id note at db = do
  f ← locked_finding db finding_id
  ok (remediate_row event_id finding_id actor_id note at f db)

-- The part of `unremediate_finding` behind the row lock.
unremediate_row : ℕ → ℕ → ℕ → ℕ → Finding → Tables → Finding × Tables
unremediate_row event_id finding_id actor_id at f db =
    if is_some f.remediated_at
    then (
      reopen f,
      add_event event_id finding_id FindingEventType.unremediated actor_id at
          (record db { findings = update (has_id finding_id) reopen db.findings }),
    )
    else (f, db)

pub unremediate_finding :
    (event_id finding_id actor_id at : ℕ) → Tables → Outcome (Finding × Tables)
unfolding locked_finding
unremediate_finding event_id finding_id actor_id at db = do
  f ← locked_finding db finding_id
  ok (unremediate_row event_id finding_id actor_id at f db)
