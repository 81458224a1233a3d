-- ===== src/Findings/Retention/Examples.antt =====
-- The theorems on the purge at small tables: a policy of one day, and one that keeps nothing.
use leakcheck_hub.Prelude.{
  ℕ, true, Option, none, some, List, [], ◌∷◌, codes, find, mem, select, ok, err, Error, ◌≡◌, refl,
  any, text_eq,
}
use leakcheck_hub.Python.{parse_int, strip}
use leakcheck_hub.Models.{Finding}
use leakcheck_hub.Findings.Tables.{Tables}
use leakcheck_hub.Findings.Sample.{sample}
use leakcheck_hub.Findings.Retention.{
  deletes_anything, load_policy, cutoff, is_eligible, eligible_ids, purge_expired_findings,
  stored_mode, mode_of, with_days, checked, cutoff_of, delete_batch, delete_findings,
}
use leakcheck_hub.Findings.Retention.Policy.{Deletes, load_policy-Deletes}
use leakcheck_hub.Findings.Retention.Purge.{IsPurged, purge-IsPurged, purge_blocked}

abbrev days_mode : Option (List ℕ)
days_mode = some (codes "days")

abbrev one_day : Option (List ℕ)
one_day = some (codes "1")

deletes_daily : deletes_anything (load_policy days_mode one_day) ≡ true
unfolding deletes_anything load_policy stored_mode mode_of with_days checked parse_int strip text_eq
deletes_daily = refl

load_policy-Deletes_example : Deletes days_mode one_day (load_policy days_mode one_day)
load_policy-Deletes_example = load_policy-Deletes days_mode one_day deletes_daily

abbrev old : Finding
old = record (sample 7) { remediated_at = some 5 }

abbrev stored : Tables
stored = record { sources = []; findings = old ∷ sample 8 ∷ []; events = [] }

abbrev left_over : Tables
left_over = record { sources = []; findings = sample 8 ∷ []; events = [] }

abbrev none_mode : Option (List ℕ)
none_mode = some (codes "none")

deletes_all : deletes_anything (load_policy none_mode none) ≡ true
unfolding deletes_anything load_policy stored_mode mode_of with_days checked strip text_eq
deletes_all = refl

cut_now : cutoff (load_policy none_mode none) 100 ≡ ok 100
unfolding cutoff cutoff_of load_policy stored_mode mode_of with_days checked strip text_eq
cut_now = refl

purged : purge_expired_findings none_mode none 100 10 stored ≡ ok (1, left_over)
unfolding purge_expired_findings cutoff cutoff_of load_policy stored_mode mode_of with_days checked
    strip text_eq delete_batch delete_findings eligible_ids is_eligible select any mem
    deletes_anything
purged = refl

purge-IsPurged_example : IsPurged 100 10 stored left_over 1
unfolding mem
purge-IsPurged_example =
    purge-IsPurged none_mode none 100 10 100 stored 1 left_over (refl, (refl, tt)) tt cut_now purged

-- Finding 7 is open again, and names the remediated finding 8 as its successor.
abbrev reopened : Finding
reopened = record (sample 7) { superseded_by_id = some 8 }

abbrev successor : Finding
successor = record (sample 8) { remediated_at = some 5 }

abbrev superseded : Tables
superseded = record { sources = []; findings = reopened ∷ successor ∷ []; events = [] }

goes : mem 8 (eligible_ids 100 10 superseded.findings) ≡ true
unfolding mem eligible_ids is_eligible select
goes = refl

purge_blocked_example :
    purge_expired_findings none_mode none 100 10 superseded ≡ err Error.integrity_error
unfolding mem find is_eligible
purge_blocked_example =
    purge_blocked none_mode none 100 10 100 superseded reopened 8 (refl, (refl, tt)) deletes_all
      cut_now refl refl refl goes
