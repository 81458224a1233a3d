-- ===== src/Findings/Retention.antt =====
-- app/retention.py: the retention policy and the purge of remediated findings. A table is a list in
-- the order in which the database happens to scan it, since the query states no order.
pub mod Keys
pub mod Policy
pub mod Purge
mod Examples
use leakcheck_hub.Prelude.{
  ℕ, zero, suc, ◌+◌, ◌-◌, ◌*◌, Bool, true, false, not, ◌&&◌, ◌||◌, Option, none, some, List, [],
  ◌∷◌, Text, codes, text_eq, ltb, leb, ◌==◌, if◌then◌else◌, is_some, select, any, mem, take, length,
  Outcome, ok, err, Error, ◌>>=◌, raise_if,
}
use leakcheck_hub.Python.{ℤ, pos, negsuc, within, strip, parse_int}
use leakcheck_hub.Models.{Finding, FindingEvent, seconds}
use leakcheck_hub.Findings.Tables.{Tables, ids}

-- `MODE_INDEFINITE`, `MODE_NONE` and `MODE_DAYS`; `none_at_all` is the second.
pub data Mode : Type 0 where
  indefinite none_at_all by_days : Mode

pub record RetentionPolicy : Type 0 where
  pub mode : Mode
  pub days : Option ℤ

-- The default values of the dataclass.
abbrev pub keep_everything : RetentionPolicy
keep_everything = record { mode = Mode.indefinite; days = none }

pub deletes_anything : RetentionPolicy → Bool
deletes_anything p = elim p.mode [ Mode.indefinite ↦ false | _ ↦ true ]

-- `datetime.max`: an instant is counted in microseconds from `datetime.min`.
abbrev last_instant : ℕ
last_instant = 3652059 * seconds 86400 - 1

-- The days of a policy, from an instant back: OverflowError before the first instant of a datetime.
days_before : ℤ → ℕ → Outcome ℕ
days_before (pos n) now =
    if ltb now (n * seconds 86400) then err Error.overflow_error else ok (now - n * seconds 86400)
days_before (negsuc n) now =
    let later = now + suc n * seconds 86400 in
    if ltb last_instant later then err Error.overflow_error else ok later

cutoff_of : Mode → Option ℤ → ℕ → Outcome ℕ
unfolding days_before
cutoff_of Mode.none_at_all days now = ok now
cutoff_of Mode.by_days (some n) now = days_before n now
cutoff_of _ _ now = err Error.value_error

pub cutoff : RetentionPolicy → ℕ → Outcome ℕ
unfolding cutoff_of
cutoff p now = cutoff_of p.mode p.days now

mode_of : Text → Option Mode
mode_of text =
    if text_eq text (codes "indefinite")
    then some Mode.indefinite
    else if text_eq text (codes "none")
    then some Mode.none_at_all
    else if text_eq text (codes "days")
    then some Mode.by_days
    else none

-- The stored mode, stripped; an absent or empty one is `indefinite`.
stored_mode : Option Text → Option Mode
unfolding mode_of
stored_mode none = some Mode.indefinite
stored_mode (some []) = some Mode.indefinite
stored_mode (some (c ∷ s)) = mode_of (strip (c ∷ s))

-- A day-based policy wants at least one day.
checked : Mode → Option ℤ → RetentionPolicy
checked Mode.by_days none = keep_everything
checked Mode.by_days (some (pos zero)) = keep_everything
checked Mode.by_days (some (pos (suc n))) = record {
  mode = Mode.by_days;
  days = some (pos (suc n));
}
checked Mode.by_days (some (negsuc n)) = keep_everything
checked mode days = record { mode = mode; days = days }

with_days : Mode → Option Text → RetentionPolicy
unfolding checked
with_days mode none = checked mode none
with_days mode (some raw) = elim (parse_int raw) [
  | none ↦ keep_everything
  | some n ↦ checked mode (some n)
]

-- `load_policy` on the two settings, `retention_mode` and `retention_days`, that the store holds.
pub load_policy : Option Text → Option Text → RetentionPolicy
unfolding stored_mode with_days
load_policy raw_mode raw_days = elim (stored_mode raw_mode) [
  | none ↦ keep_everything
  | some mode ↦ with_days mode raw_days
]

-- The test of the query: remediated, at the cutoff or before.
pub is_eligible : ℕ → Finding → Bool
is_eligible cut f = elim f.remediated_at [ none ↦ false | some at ↦ leb at cut ]

-- `ids` of `purge_expired_findings`
pub eligible_ids : ℕ → ℕ → List Finding → List ℕ
eligible_ids cut limit fs = ids (take limit (select (is_eligible cut) fs))

abbrev pub refers_to : List ℕ → Finding → Bool
refers_to gone f = elim f.superseded_by_id [ none ↦ false | some k ↦ mem k gone ]

-- The tables without the findings of these identifiers and their events.
abbrev pub without : List ℕ → Tables → Tables
without gone db = record db {
  events = select (λ e. not (mem e.finding_id gone)) db.events;
  findings = select (λ f. not (mem f.id gone)) db.findings;
}

-- The two DELETE statements. The foreign key of `superseded_by_id` has no ON DELETE clause, so the
-- second one fails while a finding that stays refers to one that goes.
pub delete_findings : List ℕ → Tables → Outcome Tables
delete_findings gone db =
    if any (refers_to gone) (without gone db).findings
    then err Error.integrity_error
    else ok (without gone db)

pub delete_batch : List ℕ → Tables → Outcome (ℕ × Tables)
delete_batch [] db = ok (0, db)
delete_batch (k ∷ ks) db = do db' ← delete_findings (k ∷ ks) db; ok (length (k ∷ ks), db')

pub purge_expired_findings :
    (raw_mode raw_days : Option Text) (now limit : ℕ) → Tables → Outcome (ℕ × Tables)
unfolding deletes_anything
purge_expired_findings raw_mode raw_days now limit db =
    let policy = load_policy raw_mode raw_days in
    if deletes_anything policy
    then cutoff policy now >>= (λ cut. delete_batch (eligible_ids cut limit db.findings) db)
    else ok (0, db)
