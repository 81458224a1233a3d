-- ===== src/Findings/Remediation/Examples.antt =====
-- The theorems on remediation at a table of one finding.
use leakcheck_hub.Prelude.{
  none, some, List, [], ◌∷◌, codes, find, update, ok, count, ◌≡◌, refl, arith,
}
use leakcheck_hub.Models.{Finding, FindingEventType}
use leakcheck_hub.Findings.Tables.{Tables}
use leakcheck_hub.Findings.Sample.{sample}
use leakcheck_hub.Findings.Remediation.{
  remediate_finding, close, event_row, locked_finding, remediate_row, add_event,
}
use leakcheck_hub.Findings.Remediation.History.{
  remediate-remediate, run-IsLogged, run, IsLogged, Transition, remediated, unremediated,
}

abbrev opened : Tables
opened = record { sources = []; findings = sample 7 ∷ []; events = [] }

abbrev closed : Finding
closed = close 3 (some (codes "rotated")) 50 (sample 7)

abbrev closed_tables : Tables
closed_tables = record {
  sources = [];
  findings = closed ∷ [];
  events = event_row 90 7 FindingEventType.remediated 3 50 ∷ [];
}

first_call :
    remediate_finding 90 7 3 (some (codes "rotated")) 50 opened ≡ ok (closed, closed_tables)
unfolding remediate_finding locked_finding remediate_row add_event find update
first_call = refl

remediate-remediate_example :
    remediate_finding 91 7 4 none 60 closed_tables ≡ ok (closed, closed_tables)
remediate-remediate_example =
    remediate-remediate 90 91 7 3 4 (some (codes "rotated")) none 50 60 opened closed closed_tables
      first_call

logged : IsLogged opened
unfolding find count
logged k f h = ground arith

abbrev transitions : List Transition
transitions =
    remediated 90 7 3 none 50
    ∷ remediated 91 7 3 none 55
    ∷ unremediated 92 7 4 60
    ∷ remediated 93 8 3 none 65
    ∷ []

run-IsLogged_example : IsLogged (run opened transitions)
run-IsLogged_example = run-IsLogged opened transitions logged
