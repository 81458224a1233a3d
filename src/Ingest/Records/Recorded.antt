-- ===== src/Ingest/Records/Recorded.antt =====
-- app/ingest.py: fingerprints of records under other identifiers and nonces.
use leakcheck_hub.Prelude.{
  ℕ, Option, none, some, List, [], ◌∷◌, Text, Bytes, find, any, Outcome, ok, err, ◌>>=◌, >>=-eq-ok,
  ok-injective, ◌≡◌, refl, sym, ◌∙◌, ap, subst,
}
use leakcheck_hub.Models.{Subject, BreachSource}
use leakcheck_hub.Findings.Tables.{Tables}
use leakcheck_hub.LeakCheck.Records.{LeakRecord}
use leakcheck_hub.Ingest.Library.{Library}
use leakcheck_hub.Ingest.Normalization.{
  normalize_optional_email, normalize_optional_username, normalize_optional_phone,
}
use leakcheck_hub.Ingest.Password.{protect_password}
use leakcheck_hub.Ingest.Fingerprint.{SourceIdentity, normalize_source, finding_fingerprint}
use leakcheck_hub.Ingest.Upserts.{
  Draws, FindingDraft, has_fingerprint, has_identity, of_password, resolved, resolve_source,
  upsert_finding,
}
use leakcheck_hub.Ingest.Records.{
  Ingested, store, build_finding_draft, ingest_record, draft_of, protected_of,
}
use leakcheck_hub.Ingest.Records.Known.{Knows, upsert-Knows, follow-Knows, upsert-Knows_draft}

resolved-findings :
    (id : ℕ) (identity : SourceIdentity) (db : Tables) (o : Option BreachSource)
    → ((resolved id identity db o).1.findings ≡ db.findings)
      × ((resolved id identity db o).1.events ≡ db.events)
unfolding resolved
resolved-findings id identity db none = (refl, refl)
resolved-findings id identity db (some s) = (refl, refl)

pub resolve-findings :
    (id : ℕ) (identity : SourceIdentity) (db : Tables)
    → ((resolve_source id identity db).1.findings ≡ db.findings)
      × ((resolve_source id identity db).1.events ≡ db.events)
unfolding resolve_source
resolve-findings id identity db =
    resolved-findings id identity db (find (has_identity identity) db.sources)

-- Two runs of one chain of normalizations.
chain-again :
    (E U P : Outcome Text) (f g : Text → Text → Text → FindingDraft)
    → ((e u p : Text) → (g e u p).fingerprint ≡ (f e u p).fingerprint)
    → (a : FindingDraft) → (E >>= λ e. U >>= λ u. P >>= λ p. ok (f e u p)) ≡ ok a
    → (b : FindingDraft) × ((E >>= λ e. U >>= λ u. P >>= λ p. ok (g e u p)) ≡ ok b)
      × (b.fingerprint ≡ a.fingerprint)
chain-again (ok e) (ok u) (ok p) f g same a h =
    let made : f e u p ≡ a = cc in (g e u p, refl, same e u p ∙ ap (λ d. d.fingerprint) made)
chain-again (ok e) (ok u) (err x) f g same a h = absurd cc
chain-again (ok e) (err x) P f g same a h = absurd cc
chain-again (err x) U P f g same a h = absurd cc

module _ (lib : Library) (subject : Subject) where
  -- The fingerprint does not depend on what is drawn.
  password-same :
      (d c : Draws) (p : Option Text)
      → of_password (λ p. p.sha256) (protected_of lib d p)
        ≡ of_password (λ p. p.sha256) (protected_of lib c p)
  unfolding protected_of protect_password
  password-same d c none = refl
  password-same d c (some p) = refl

  build-again :
      (d c : Draws) (s t : BreachSource) (i : SourceIdentity) (r : LeakRecord) (m n : ℕ)
      (a : FindingDraft)
      → build_finding_draft lib d subject s i r m ≡ ok a
      → (b : FindingDraft) × (build_finding_draft lib c subject t i r n ≡ ok b)
        × (b.fingerprint ≡ a.fingerprint)
  unfolding build_finding_draft draft_of
  build-again d c s t i r m n a h =
      chain-again (normalize_optional_email lib r.email)
        (normalize_optional_username lib r.username) (normalize_optional_phone lib r.phone)
        (draft_of lib d subject s i r m) (draft_of lib c subject t i r n)
        (λ e u p. ap (finding_fingerprint lib subject i e u p) (password-same c d r.password)) a h

  -- Ingesting a record again finds its fingerprint.
  unfoldable pub Recorded : LeakRecord → Tables → Type 0
  Recorded r db =
      (d : Draws) (s : BreachSource) (m : ℕ)
      → (b : FindingDraft) × (build_finding_draft lib d subject s (normalize_source lib r.source) r
            m
          ≡ ok b)
        × Knows b.fingerprint db

  abbrev pub AllRecorded : List (Draws × LeakRecord) → Tables → Type 0
  AllRecorded [] db = Unit
  AllRecorded ((d, r) ∷ rest) db = Recorded r db × AllRecorded rest db

  store-Knows :
      (key : Bytes) (d : Draws) (i : SourceIdentity) (actor : Option ℕ) (at : ℕ) (a : FindingDraft)
      (db : Tables)
      → Knows key db
      → Knows key (store lib d i actor at a db).1
  unfolding store
  store-Knows key d i actor at a db h =
      follow-Knows key lib d actor at i (upsert_finding a db).0 (upsert_finding a db).1
        (upsert-Knows key a db h)

  store-Knows_draft :
      (d : Draws) (i : SourceIdentity) (actor : Option ℕ) (at : ℕ) (a : FindingDraft) (db : Tables)
      → Knows a.fingerprint (store lib d i actor at a db).1
  unfolding store
  store-Knows_draft d i actor at a db =
      follow-Knows a.fingerprint lib d actor at i (upsert_finding a db).0 (upsert_finding a db).1
        (upsert-Knows_draft a db)

  module _ (actor : Option ℕ) (at : ℕ) (d : Draws) (r : LeakRecord) (db : Tables)
      (out : Ingested × Tables) (h : ingest_record lib subject actor at d r db ≡ ok out) where
    -- The draft behind a record that was ingested.
    drafted :
        (a : FindingDraft) × (build_finding_draft lib d subject
            (resolve_source d.source_id (normalize_source lib r.source) db).0
            (normalize_source lib r.source)
            r
            at
          ≡ ok a)
        × (store lib d
              (normalize_source lib r.source)
              actor
              at
              a
              (resolve_source d.source_id (normalize_source lib r.source) db).1
            ≡ out)
    unfolding ingest_record
    drafted =
        let (a, ha, h1) =
          >>=-eq-ok
            (build_finding_draft lib d subject
              (resolve_source d.source_id (normalize_source lib r.source) db).0
              (normalize_source lib r.source) r at)
            _ h in
        (a, ha, ok-injective _ _ h1)

    pub record-Knows : (key : Bytes) → Knows key db → Knows key out.1
    record-Knows key k =
        let (a, ha, e) = drafted in
        subst (λ (o : Ingested × Tables). Knows key o.1) e
          (store-Knows key d (normalize_source lib r.source) actor at a
            (resolve_source d.source_id (normalize_source lib r.source) db).1
            (ap (any (has_fingerprint key))
                (resolve-findings d.source_id (normalize_source lib r.source) db).0
              ∙ k))

    pub record-Recorded : Recorded r out.1
    unfolding Recorded
    record-Recorded c s m =
        let (a, ha, e) = drafted in
        let (b, hb, same) =
          build-again d c (resolve_source d.source_id (normalize_source lib r.source) db).0 s
            (normalize_source lib r.source) r at m a ha in
        (
          b,
          hb,
          subst (λ key. Knows key out.1) (sym same)
              (subst (λ (o : Ingested × Tables). Knows a.fingerprint o.1) e
                (store-Knows_draft d (normalize_source lib r.source) actor at a
                  (resolve_source d.source_id (normalize_source lib r.source) db).1)),
        )

  pub Recorded-keep :
      (r : LeakRecord) (db db1 : Tables)
      → ((key : Bytes) → Knows key db → Knows key db1)
      → Recorded r db
      → Recorded r db1
  unfolding Recorded
  Recorded-keep r db db1 keep h d s m = let (b, hb, k) = h d s m in (b, hb, keep b.fingerprint k)
