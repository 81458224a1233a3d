-- ===== src/Findings/Retention/Purge.antt =====
-- app/retention.py: what a purge takes, what it never takes, and when it fails.
use leakcheck_hub.Prelude.{
  ◌∙◌, sym, ltb, ℕ, ◌+◌, ◌≤◌, Bool, true, false, not, Option, none, some, List, [], ◌∷◌, ◌≡◌, ◌⊎◌,
  inl, inr, refl, mem, select, take, length, arith, Bool-cases, find, any, ok, err, Error, Text,
  length-take, All-find,
}
use leakcheck_hub.Models.{Finding}
use leakcheck_hub.Findings.Tables.{Tables, ids, IsKeyed, IsLinked, has_id}
use leakcheck_hub.Findings.Retention.{
  deletes_anything, cutoff, load_policy, is_eligible, eligible_ids, refers_to, delete_findings,
  delete_batch, without, purge_expired_findings,
}
use leakcheck_hub.Findings.Retention.Keys.{
  Spares, Spares-select, select-Spares, IsLinked-delete, length-kept,
}

-- A finding that a purge at this cutoff may not take: it is open, or it was closed later.
abbrev pub still_kept : ℕ → Option ℕ → Bool
still_kept cut none = true
still_kept cut (some at) = ltb cut at

-- What the two DELETE statements leave, when they go through.
pub record IsPurged (cut limit : ℕ) (before after : Tables) (n : ℕ) : Type 0 where
  pub spared :
      select (λ f. still_kept cut f.remediated_at) after.findings
      ≡ select (λ f. still_kept cut f.remediated_at) before.findings
  pub bounded : n ≤ limit
  pub counted : length before.findings ≡ length after.findings + n
  pub linked : IsLinked after

not-is_eligible : (cut : ℕ) (f : Finding) → still_kept cut f.remediated_at ≡ not (is_eligible cut f)
unfolding is_eligible
not-is_eligible cut f = ground arith

select_kept :
    (cut : ℕ) (fs : List Finding)
    → select (λ f. still_kept cut f.remediated_at) fs ≡ select (λ f. not (is_eligible cut f)) fs
unfolding select
select_kept cut [] = refl
select_kept cut (f ∷ fs) = rw (not-is_eligible cut f, select_kept cut fs) refl

without-IsPurged :
    (cut limit : ℕ) (gone : List ℕ) (db : Tables)
    → Spares gone (is_eligible cut) db.findings
    → length gone ≤ limit
    → length db.findings ≡ length (without gone db).findings + length gone
    → IsLinked db
    → IsPurged cut limit db (without gone db) (length gone)
without-IsPurged cut limit gone db s short counts link = record {
  spared =
      select_kept cut (without gone db).findings
      ∙ select-Spares gone (is_eligible cut) db.findings s
      ∙ sym (select_kept cut db.findings);
  bounded = short;
  counted = counts;
  linked = IsLinked-delete gone db.findings db.events link;
}

same-IsPurged : (cut limit : ℕ) (db : Tables) → IsLinked db → IsPurged cut limit db db 0
same-IsPurged cut limit db link = record {
  spared = refl;
  bounded = omega arith;
  counted = omega arith;
  linked = link;
}

delete_batch_ok :
    (gone : List ℕ) (db : Tables) (n : ℕ) (db' : Tables)
    → delete_batch gone db ≡ ok (n, db')
    → ((n ≡ 0) × (db' ≡ db)) ⊎ ((n ≡ length gone) × (db' ≡ without gone db))
unfolding delete_batch delete_findings
delete_batch_ok [] db n db' h = inl (ground arith, ground arith)
delete_batch_ok (k ∷ ks) db n db' h = inr (ground arith, ground arith)

length-ids : (fs : List Finding) → length (ids fs) ≡ length fs
length-ids [] = refl
length-ids (f ∷ fs) = omega (arith, length-ids fs)

delete_batch_effect :
    (cut limit : ℕ) (gone : List ℕ) (db : Tables) (n : ℕ) (db' : Tables)
    → Spares gone (is_eligible cut) db.findings
    → length gone ≤ limit
    → length db.findings ≡ length (without gone db).findings + length gone
    → IsLinked db
    → delete_batch gone db ≡ ok (n, db')
    → IsPurged cut limit db db' n
delete_batch_effect cut limit gone db n db' s short counts link h =
    elim (delete_batch_ok gone db n db' h) [
      | inl (zero_rows, same) ↦ rw (zero_rows, same) (same-IsPurged cut limit db link)
      | inr (rows, same) ↦ rw (rows, same) (without-IsPurged cut limit gone db s short counts link)
    ]

Spares-eligible :
    (cut limit : ℕ) (fs : List Finding)
    → IsKeyed fs
    → Spares (eligible_ids cut limit fs) (is_eligible cut) fs
unfolding eligible_ids
Spares-eligible cut limit fs key = Spares-select limit (is_eligible cut) fs key

short-eligible : (cut limit : ℕ) (fs : List Finding) → length (eligible_ids cut limit fs) ≤ limit
unfolding eligible_ids
short-eligible cut limit fs =
    rw (length-ids (take limit (select (is_eligible cut) fs)))
      (length-take limit (select (is_eligible cut) fs))

-- As many findings go as there are eligible identifiers to delete.
length-eligible :
    (cut limit : ℕ) (fs : List Finding)
    → IsKeyed fs
    → length fs
      ≡ length (select (λ f. not (mem f.id (eligible_ids cut limit fs))) fs)
        + length (eligible_ids cut limit fs)
unfolding eligible_ids
length-eligible cut limit fs key = length-kept limit (is_eligible cut) fs key

-- A row that stays and refers to one that goes is met by the check of the foreign key.
any_kept :
    (gone : List ℕ) (p : Finding → Bool) (fs : List Finding) (f : Finding)
    → find p fs ≡ some f
    → mem f.id gone ≡ false
    → refers_to gone f ≡ true
    → any (refers_to gone) (select (λ g. not (mem g.id gone)) fs) ≡ true
unfolding find any select
any_kept gone p [] f h stays refers = absurd (ground arith)
any_kept gone p (g ∷ fs) f h stays refers = elim (Bool-cases (p g)) [
  | inl hit ↦ let same : g ≡ f = ground arith in rw (same, stays) (rw refers)
  | inr miss ↦
      let rest = any_kept gone p fs f (ground arith) stays refers in
      elim (Bool-cases (mem g.id gone)) [ inl out ↦ rw out rest | inr in_ ↦ rw in_ (ground arith) ]
]

blocked_batch :
    (gone : List ℕ) (db : Tables) (f : Finding) (k : ℕ)
    → find (has_id f.id) db.findings ≡ some f
    → mem f.id gone ≡ false
    → f.superseded_by_id ≡ some k
    → mem k gone ≡ true
    → delete_batch gone db ≡ err Error.integrity_error
unfolding delete_batch delete_findings
blocked_batch [] db f k stored stays refers goes = absurd (unfold mem in ground arith)
blocked_batch (j ∷ js) db f k stored stays refers goes =
    let met : any (refers_to (j ∷ js)) (without (j ∷ js) db).findings ≡ true =
      any_kept (j ∷ js) (has_id f.id) db.findings f stored stays (rw refers goes) in
    ground arith

-- On tables whose finding identifiers are unique and whose events all name a finding, a purge that
-- returns n has taken exactly n findings out of the table, at most `limit`, and only such as were
-- remediated at the cutoff or before: what is open or was closed later is as it was. No event is
-- left without its finding.
pub purge-IsPurged :
    (raw_mode raw_days : Option Text) (now limit cut : ℕ) (db : Tables) (n : ℕ) (db' : Tables)
    → IsKeyed db.findings
    → IsLinked db
    → cutoff (load_policy raw_mode raw_days) now ≡ ok cut
    → purge_expired_findings raw_mode raw_days now limit db ≡ ok (n, db')
    → IsPurged cut limit db db' n
unfolding purge_expired_findings
purge-IsPurged raw_mode raw_days now limit cut db n db' key link at h =
    elim (Bool-cases (deletes_anything (load_policy raw_mode raw_days))) [
      | inl on ↦
          delete_batch_effect cut limit (eligible_ids cut limit db.findings) db n db'
            (Spares-eligible cut limit db.findings key) (short-eligible cut limit db.findings)
            (length-eligible cut limit db.findings key) link (ground arith)
      | inr off ↦
          let none_gone : n ≡ 0 = ground arith in
          let same : db' ≡ db = ground arith in
          rw (none_gone, same) (same-IsPurged cut limit db link)
    ]

-- With identifiers that are unique, a policy that deletes and a cutoff, a stored finding that is not
-- eligible and was superseded by one of the findings to delete makes the purge fail with the
-- database's integrity error.
pub purge_blocked :
    (raw_mode raw_days : Option Text) (now limit cut : ℕ) (db : Tables) (f : Finding) (k : ℕ)
    → IsKeyed db.findings
    → deletes_anything (load_policy raw_mode raw_days) ≡ true
    → cutoff (load_policy raw_mode raw_days) now ≡ ok cut
    → find (has_id f.id) db.findings ≡ some f
    → is_eligible cut f ≡ false
    → f.superseded_by_id ≡ some k
    → mem k (eligible_ids cut limit db.findings) ≡ true
    → purge_expired_findings raw_mode raw_days now limit db ≡ err Error.integrity_error
unfolding purge_expired_findings
purge_blocked raw_mode raw_days now limit cut db f k key on at stored stays refers goes = ground (
  arith,
  blocked_batch (eligible_ids cut limit db.findings) db f k stored
      (All-find
        (λ g. is_eligible cut g ≡ false → mem g.id (eligible_ids cut limit db.findings) ≡ false)
        (has_id f.id) db.findings f (Spares-eligible cut limit db.findings key) stored stays)
      refers goes,
)
