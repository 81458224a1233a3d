-- ===== src/Ingest/Records/Known.antt =====
-- app/ingest.py: the fingerprints that the table of findings holds, and what the loop does to them.
use leakcheck_hub.Prelude.{
  ℕ, Bool, true, Option, none, some, List, [], ◌∷◌, Bytes, text_eq_refl, find, update, any,
  any-append, ◌≡◌, refl, ◌∙◌, arith, inl, inr, Bool-cases,
}
use leakcheck_hub.Models.{Finding, FindingEventType, Fields}
use leakcheck_hub.Findings.Tables.{Tables, has_id}
use leakcheck_hub.Ingest.Library.{Library}
use leakcheck_hub.Ingest.Fingerprint.{SourceIdentity}
use leakcheck_hub.Ingest.Upserts.{
  Draws, FindingDraft, UpsertedFinding, upserted, has_fingerprint, reseen, link, raise_severity,
  finding_row, upsert_finding, link_releak, add_event,
}
use leakcheck_hub.Ingest.Records.{releak, follow, discover, find_remediated_predecessor}

abbrev pub Knows : Bytes → Tables → Type 0
Knows key db = any (has_fingerprint key) db.findings ≡ true

module _ (p : Finding → Bool) where
  any-update :
      (q : Finding → Bool) (f : Finding → Finding)
      → ((x : Finding) → p (f x) ≡ p x)
      → (xs : List Finding) → any p (update q f xs) ≡ any p xs
  unfolding any update
  any-update q f keep [] = refl
  any-update q f keep (x ∷ xs) = ground (arith, any-update q f keep xs, keep x)

  any-find : (xs : List Finding) (x : Finding) → find p xs ≡ some x → any p xs ≡ true
  unfolding any find
  any-find [] x h = ground arith
  any-find (y ∷ xs) x h = ground (arith, any-find xs x)

  pub find-any : (xs : List Finding) → any p xs ≡ true → (x : Finding) × (find p xs ≡ some x)
  unfolding any find
  find-any [] h = absurd (ground arith)
  find-any (y ∷ xs) h = elim (Bool-cases (p y)) [
    | inl e ↦ (y, ground arith)
    | inr e ↦ let (x, f) = find-any xs (ground arith) in (x, ground arith)
  ]

module _ (key : Bytes) where
  upserted-Knows :
      (draft : FindingDraft) (db : Tables) (o : Option Finding)
      → Knows key db
      → Knows key (upserted draft db o).1
  unfolding upserted any finding_row
  upserted-Knows draft db none h =
      ground (arith, any-append (has_fingerprint key) db.findings (finding_row draft ∷ []))
  upserted-Knows draft db (some f) h =
      any-update (has_fingerprint key) (has_fingerprint draft.fingerprint) (reseen draft)
        (λ x. refl) db.findings
      ∙ h

  pub upsert-Knows :
      (draft : FindingDraft) (db : Tables) → Knows key db → Knows key (upsert_finding draft db).1
  unfolding upsert_finding
  upsert-Knows draft db h =
      upserted-Knows draft db (find (has_fingerprint draft.fingerprint) db.findings) h

  link-Knows : (f g : Finding) (db : Tables) → Knows key db → Knows key (link_releak f g db)
  unfolding link_releak
  link-Knows f g db h =
      any-update (has_fingerprint key) (has_id g.id) raise_severity (λ x. refl)
        (update (has_id f.id) (link g.id) db.findings)
      ∙ any-update (has_fingerprint key) (has_id f.id) (link g.id) (λ x. refl) db.findings
      ∙ h

  module _ (lib : Library) (draws : Draws) (actor : Option ℕ) (at : ℕ) where
    releak-Knows :
        (f : Finding) (db : Tables) (o : Option Finding)
        → Knows key db
        → Knows key (releak lib draws actor at f db o).1
    unfolding releak add_event
    releak-Knows f db none h = h
    releak-Knows f db (some g) h = link-Knows g f db h

    pub follow-Knows :
        (identity : SourceIdentity) (u : UpsertedFinding) (db : Tables)
        → Knows key db
        → Knows key (follow lib draws identity actor at u db).1
    unfolding follow discover add_event
    follow-Knows identity u db h =
        let logged =
          add_event draws.discovered_id u.finding.id FindingEventType.discovered actor at Fields.end
            db in
        elim (Bool-cases u.is_new) [
          | inl e ↦
              rw (e, follow)
                (releak-Knows u.finding logged
                  (find_remediated_predecessor lib u.finding identity logged) h)
          | inr e ↦ rw (e, follow) h
        ]

-- Once a draft is stored, its fingerprint is known.
upserted-Knows_draft :
    (draft : FindingDraft) (db : Tables) (o : Option Finding)
    → find (has_fingerprint draft.fingerprint) db.findings ≡ o
    → Knows draft.fingerprint (upserted draft db o).1
unfolding upserted any finding_row
upserted-Knows_draft draft db none h = ground (
  arith,
  any-append (has_fingerprint draft.fingerprint) db.findings (finding_row draft ∷ []),
  text_eq_refl draft.fingerprint,
)
upserted-Knows_draft draft db (some f) h =
    any-update (has_fingerprint draft.fingerprint) (has_fingerprint draft.fingerprint)
      (reseen draft) (λ x. refl) db.findings
    ∙ any-find (has_fingerprint draft.fingerprint) db.findings f h

pub upsert-Knows_draft :
    (draft : FindingDraft) (db : Tables) → Knows draft.fingerprint (upsert_finding draft db).1
unfolding upsert_finding
upsert-Knows_draft draft db =
    upserted-Knows_draft draft db (find (has_fingerprint draft.fingerprint) db.findings) refl
