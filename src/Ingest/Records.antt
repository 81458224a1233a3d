-- ===== src/Ingest/Records.antt =====
-- app/ingest.py: drafts, re-leaks, and the loop over a scan's records. The identifiers and the nonce
-- that a record draws are arguments.
pub mod Known
pub mod Recorded
pub mod Again
mod Examples
use leakcheck_hub.Prelude.{
  ℕ, ◌+◌, Bool, true, false, not, ◌&&◌, Option, none, some, List, [], ◌∷◌, ◌++◌, Text, Bytes, codes,
  text_eq, map, ◌||◌, if◌then◌else◌, is_some, leb, ◌==◌, find, select, update, any, Outcome, ok,
  err, ◌>>=◌,
}
use leakcheck_hub.Models.{
  Subject, BreachSource, Finding, FindingEvent, FindingEventType, FindingSeverity, Fields, Json,
}
use leakcheck_hub.LeakCheck.Records.{LeakRecord}
use leakcheck_hub.Findings.Tables.{Tables, has_id}
use leakcheck_hub.Ingest.Library.{Library}
use leakcheck_hub.Ingest.Normalization.{
  normalize_optional_email, normalize_optional_username, normalize_optional_phone,
}
use leakcheck_hub.Ingest.Password.{ProtectedPassword, protect_password}
use leakcheck_hub.Ingest.Fingerprint.{
  SourceIdentity, unknown_source, normalize_source, finding_fingerprint, identity_key,
  sanitized_raw,
}
use leakcheck_hub.Ingest.Upserts.{
  Draws, FindingDraft, UpsertedFinding, of_password, resolve_source, upsert_finding, latest,
  is_predecessor, link_releak, IngestSummary, add_event,
}

-- What a record adds to the summary.
pub record Ingested : Type 0 where
  pub finding_id : ℕ
  pub is_new : Bool
  pub is_releak : Bool

-- The accumulators of `ingest_records`, from the last record to the first.
pub add_ingested : Ingested → IngestSummary → IngestSummary
add_ingested i s = record {
  findings = i.finding_id ∷ s.findings;
  new_count = (if i.is_new then 1 else 0) + s.new_count;
  re_leaked_count = (if i.is_releak then 1 else 0) + s.re_leaked_count;
  new_finding_ids = if i.is_new then i.finding_id ∷ s.new_finding_ids else s.new_finding_ids;
}

pub no_records : IngestSummary
no_records = record { findings = []; new_count = 0; re_leaked_count = 0; new_finding_ids = [] }

module _ (lib : Library) where
  find_remediated_predecessor : Finding → SourceIdentity → Tables → Option Finding
  unfolding latest is_predecessor select
  find_remediated_predecessor finding source db =
      if text_eq source.name_norm (lib.casefold unknown_source)
        || not (is_some finding.identity_key)
      then none
      else latest (select (is_predecessor db.sources source finding) db.findings)

  protected_of : Draws → Option Text → Option ProtectedPassword
  protected_of draws none = none
  protected_of draws (some password) =
      some (protect_password lib draws.nonce (lib.uuid_bytes draws.finding_id) password)

  -- The draft once the identities are normal.
  draft_of :
      Draws
      → Subject
      → BreachSource
      → SourceIdentity
      → LeakRecord
      → ℕ
      → (email_norm username_norm phone_norm : Text) → FindingDraft
  draft_of draws subject source identity r seen_at email_norm username_norm phone_norm =
      let protected = protected_of draws r.password in
      record {
        id = draws.finding_id;
        subject_id = subject.id;
        source_id = source.id;
        email = r.email;
        username = r.username;
        phone = r.phone;
        origin = r.origin;
        identity_key = identity_key lib email_norm username_norm phone_norm;
        password = protected;
        fields = r.fields;
        raw = sanitized_raw lib r.raw;
        fingerprint =
            finding_fingerprint lib subject identity email_norm username_norm phone_norm
              (of_password (λ p. p.sha256) protected);
        seen_at = seen_at;
      }

  pub build_finding_draft :
      Draws → Subject → BreachSource → SourceIdentity → LeakRecord → ℕ → Outcome FindingDraft
  unfolding draft_of
  build_finding_draft draws subject source identity r seen_at = do
    email_norm ← normalize_optional_email lib r.email
    username_norm ← normalize_optional_username lib r.username
    phone_norm ← normalize_optional_phone lib r.phone
    ok (draft_of draws subject source identity r seen_at email_norm username_norm phone_norm)

  -- The re-leak of a new finding, when it has a remediated predecessor.
  releak : Draws → Option ℕ → ℕ → Finding → Tables → Option Finding → Ingested × Tables
  unfolding add_event link_releak
  releak draws actor_id seen_at finding db none =
      (record { finding_id = finding.id; is_new = true; is_releak = false }, db)
  releak draws actor_id seen_at finding db (some previous) = (
    record { finding_id = finding.id; is_new = true; is_releak = true },
    add_event draws.releaked_id finding.id FindingEventType.re_leaked actor_id seen_at
        (Fields.field (codes "previous_finding_id") (Json.string (lib.uuid_text previous.id))
          Fields.end)
        (link_releak previous finding db),
  )

  -- A new finding: its history starts, and a remediated predecessor is linked to it.
  discover : Draws → SourceIdentity → Option ℕ → ℕ → Finding → Tables → Ingested × Tables
  unfolding find_remediated_predecessor add_event releak
  discover draws identity actor_id seen_at finding db =
      let logged =
        add_event draws.discovered_id finding.id FindingEventType.discovered actor_id seen_at
          Fields.end db in
      releak draws actor_id seen_at finding logged
        (find_remediated_predecessor finding identity logged)

  -- The body of the loop behind the upsert.
  pub follow : Draws → SourceIdentity → Option ℕ → ℕ → UpsertedFinding → Tables → Ingested × Tables
  unfolding discover
  follow draws identity actor_id seen_at upserted db =
      if upserted.is_new
      then discover draws identity actor_id seen_at upserted.finding db
      else (record { finding_id = upserted.finding.id; is_new = false; is_releak = false }, db)

  pub store : Draws → SourceIdentity → Option ℕ → ℕ → FindingDraft → Tables → Ingested × Tables
  unfolding upsert_finding follow
  store draws identity actor_id seen_at draft db =
      let upserted = upsert_finding draft db in
      follow draws identity actor_id seen_at upserted.0 upserted.1

  pub ingest_record :
      Subject → Option ℕ → ℕ → Draws → LeakRecord → Tables → Outcome (Ingested × Tables)
  unfolding resolve_source build_finding_draft store
  ingest_record subject actor_id seen_at draws r db = do
    let identity = normalize_source lib r.source
    let resolved = resolve_source draws.source_id identity db
    draft ← build_finding_draft draws subject resolved.0 identity r seen_at
    ok (store draws identity actor_id seen_at draft resolved.1)

  pub ingest_records :
      Subject → Option ℕ → ℕ → List (Draws × LeakRecord) → Tables → Outcome (IngestSummary × Tables)
  unfolding ingest_record add_ingested no_records
  ingest_records subject actor_id seen_at [] db = ok (no_records, db)
  ingest_records subject actor_id seen_at ((draws, r) ∷ rest) db = do
    first ← ingest_record subject actor_id seen_at draws r db
    others ← ingest_records subject actor_id seen_at rest first.1
    ok (add_ingested first.0 others.0, others.1)
