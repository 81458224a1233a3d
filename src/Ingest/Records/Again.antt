-- ===== src/Ingest/Records/Again.antt =====
-- app/ingest.py: the same records ingested a second time.
use leakcheck_hub.Prelude.{
  ℕ, false, Option, some, List, [], ◌∷◌, Bytes, find, any, map, length, length-update, ok, ◌>>=◌,
  >>=-eq-ok, ok-injective, ◌≡◌, refl, ◌∙◌, ap, subst, arith,
}
use leakcheck_hub.Models.{Finding, Subject}
use leakcheck_hub.Findings.Tables.{Tables}
use leakcheck_hub.LeakCheck.Records.{LeakRecord}
use leakcheck_hub.Ingest.Library.{Library}
use leakcheck_hub.Ingest.Fingerprint.{SourceIdentity, normalize_source}
use leakcheck_hub.Ingest.Upserts.{
  Draws, FindingDraft, IngestSummary, upserted, has_fingerprint, reseen, resolve_source,
  upsert_finding,
}
use leakcheck_hub.Ingest.Records.{
  Ingested, follow, store, ingest_record, ingest_records, add_ingested, no_records,
}
use leakcheck_hub.Ingest.Records.Known.{Knows, find-any}
use leakcheck_hub.Ingest.Records.Recorded.{
  resolve-findings, Recorded, AllRecorded, Recorded-keep, record-Recorded, record-Knows,
}

-- What storing a draft does whose fingerprint is known.
abbrev IsQuiet : Tables → Ingested × Tables → Type 0
IsQuiet db out =
    (out.0.is_new ≡ false)
    × (out.0.is_releak ≡ false)
    × (out.1.events ≡ db.events)
    × (length out.1.findings ≡ length db.findings)

add-quiet :
    (i : Ingested) (s : IngestSummary)
    → i.is_new ≡ false
    → i.is_releak ≡ false
    → s.new_count ≡ 0
    → s.re_leaked_count ≡ 0
    → s.new_finding_ids ≡ []
    → ((add_ingested i s).new_count ≡ 0)
      × ((add_ingested i s).re_leaked_count ≡ 0)
      × ((add_ingested i s).new_finding_ids ≡ [])
unfolding add_ingested
add-quiet i s n l a b c = (ground arith, ground arith, ground arith)

module _ (lib : Library) (subject : Subject) where
  store-found :
      (d : Draws) (i : SourceIdentity) (actor : Option ℕ) (at : ℕ) (a : FindingDraft) (db : Tables)
      (f : Finding)
      → find (has_fingerprint a.fingerprint) db.findings ≡ some f
      → IsQuiet db (store lib d i actor at a db)
  unfolding store upsert_finding upserted follow
  store-found d i actor at a db f h =
      rw (h, upserted, follow)
        (refl, refl, refl, length-update (has_fingerprint a.fingerprint) (reseen a) db.findings)

  record-again :
      (actor : Option ℕ) (at : ℕ) (d : Draws) (r : LeakRecord) (db : Tables)
      → Recorded lib subject r db
      → (out : Ingested × Tables) × (ingest_record lib subject actor at d r db ≡ ok out)
        × IsQuiet db out
  unfolding ingest_record Recorded
  record-again actor at d r db h =
      let i = normalize_source lib r.source in
      let s = resolve_source d.source_id i db in
      let same = resolve-findings d.source_id i db in
      let (b, hb, k) = h d s.0 at in
      let (f, hf) =
        find-any (has_fingerprint b.fingerprint) s.1.findings
          (ap (any (has_fingerprint b.fingerprint)) same.0 ∙ k) in
      let (n, l, e, c) = store-found d i actor at b s.1 f hf in
      (
        store lib d i actor at b s.1,
        ap (λ o. o >>= λ a. ok (store lib d i actor at a s.1)) hb,
        (n, l, e ∙ same.1, c ∙ ap length same.0),
      )

  AllRecorded-keep :
      (items : List (Draws × LeakRecord)) (db db1 : Tables)
      → ((key : Bytes) → Knows key db → Knows key db1)
      → AllRecorded lib subject items db
      → AllRecorded lib subject items db1
  AllRecorded-keep [] db db1 keep h = tt
  AllRecorded-keep ((d, r) ∷ rest) db db1 keep (h, hs) =
      (Recorded-keep lib subject r db db1 keep h, AllRecorded-keep rest db db1 keep hs)

  -- A run over recorded records.
  abbrev pub Quietly : Tables → IngestSummary × Tables → Type 0
  Quietly db out =
      (out.0.new_count ≡ 0)
      × (out.0.re_leaked_count ≡ 0)
      × (out.0.new_finding_ids ≡ [])
      × (out.1.events ≡ db.events)
      × (length out.1.findings ≡ length db.findings)

  records-again :
      (actor : Option ℕ) (at : ℕ) (items : List (Draws × LeakRecord)) (db : Tables)
      → AllRecorded lib subject items db
      → (out : IngestSummary × Tables) × (ingest_records lib subject actor at items db ≡ ok out)
        × Quietly db out
  unfolding ingest_records no_records add_ingested
  records-again actor at [] db h = ((no_records, db), refl, (refl, refl, refl, refl, refl))
  records-again actor at ((d, r) ∷ rest) db (h, hs) =
      let (o, ho, (n, l, e, c)) = record-again actor at d r db h in
      let (p, hp, (a1, a2, a3, a4, a5)) =
        records-again actor at rest o.1
          (AllRecorded-keep rest db o.1 (record-Knows lib subject actor at d r db o ho) hs) in
      let (b1, b2, b3) = add-quiet o.0 p.0 n l a1 a2 a3 in
      (
        (add_ingested o.0 p.0, p.1),
        ap
              (λ m. m >>= λ first. ingest_records lib subject actor at rest first.1 >>= λ others.
                ok (add_ingested first.0 others.0, others.1))
              ho
            ∙ ap (λ m. m >>= λ others. ok (add_ingested o.0 others.0, others.1)) hp,
        (b1, b2, b3, a4 ∙ e, a5 ∙ c),
      )

  records-Knows :
      (actor : Option ℕ) (at : ℕ) (items : List (Draws × LeakRecord)) (db : Tables)
      (out : IngestSummary × Tables)
      → ingest_records lib subject actor at items db ≡ ok out
      → (key : Bytes) → Knows key db
      → Knows key out.1
  unfolding ingest_records
  records-Knows actor at [] db out h key k = subst (λ o. Knows key o.1) (ok-injective _ _ h) k
  records-Knows actor at ((d, r) ∷ rest) db out h key k =
      let (o, ho, h1) = >>=-eq-ok (ingest_record lib subject actor at d r db) _ h in
      let (p, hp, h2) = >>=-eq-ok (ingest_records lib subject actor at rest o.1) _ h1 in
      subst (λ o. Knows key o.1) (ok-injective _ _ h2)
        (records-Knows actor at rest o.1 p hp key
          (record-Knows lib subject actor at d r db o ho key k))

  records-AllRecorded :
      (actor : Option ℕ) (at : ℕ) (items : List (Draws × LeakRecord)) (db : Tables)
      (out : IngestSummary × Tables)
      → ingest_records lib subject actor at items db ≡ ok out
      → AllRecorded lib subject items out.1
  unfolding ingest_records
  records-AllRecorded actor at [] db out h = tt
  records-AllRecorded actor at ((d, r) ∷ rest) db out h =
      let (o, ho, h1) = >>=-eq-ok (ingest_record lib subject actor at d r db) _ h in
      let (p, hp, h2) = >>=-eq-ok (ingest_records lib subject actor at rest o.1) _ h1 in
      subst (λ o. AllRecorded lib subject ((d, r) ∷ rest) o.1) (ok-injective _ _ h2)
        (
          Recorded-keep lib subject r o.1 p.1 (records-Knows actor at rest o.1 p hp)
              (record-Recorded lib subject actor at d r db o ho),
          records-AllRecorded actor at rest o.1 p hp,
        )

  same-AllRecorded :
      (items again : List (Draws × LeakRecord)) (db : Tables)
      → map (λ i. i.1) again ≡ map (λ i. i.1) items
      → AllRecorded lib subject items db
      → AllRecorded lib subject again db
  same-AllRecorded [] [] db e h = tt
  same-AllRecorded [] (x ∷ again) db e h = absurd cc
  same-AllRecorded (x ∷ items) [] db e h = absurd cc
  same-AllRecorded ((c, q) ∷ items) ((d, r) ∷ again) db e (h, hs) =
      let one : q ≡ r = cc in
      let more : map (λ i. i.1) again ≡ map (λ i. i.1) items = cc in
      (subst (λ r. Recorded lib subject r db) one h, same-AllRecorded items again db more hs)

  -- When an ingest of a subject's records returned, ingesting the same records again on the tables
  -- that it left also returns, whatever identifiers and nonces it draws, whoever asks and whenever:
  -- it counts no new finding and no re-leak, adds no finding, and leaves the history as it is.
  pub ingest_records-ingest_records :
      (actor actor' : Option ℕ) (at at' : ℕ) (items again : List (Draws × LeakRecord)) (db : Tables)
      (out : IngestSummary × Tables)
      → ingest_records lib subject actor at items db ≡ ok out
      → map (λ i. i.1) again ≡ map (λ i. i.1) items
      → (second : IngestSummary × Tables) × (ingest_records lib subject actor' at' again out.1
          ≡ ok second)
        × Quietly out.1 second
  ingest_records-ingest_records actor actor' at at' items again db out h same =
      records-again actor' at' again out.1
        (same-AllRecorded items again out.1 same (records-AllRecorded actor at items db out h))
