-- ===== src/Ingest/Upserts.antt =====
-- app/ingest.py: the upserts on the unique keys of sources and findings, and the rows they write.
use leakcheck_hub.Prelude.{
  ℕ, Bool, true, false, not, ◌&&◌, Option, none, some, List, [], ◌∷◌, ◌++◌, Text, Bytes, text_eq,
  if◌then◌else◌, is_some, leb, ◌==◌, find, update, any,
}
use leakcheck_hub.Models.{BreachSource, Finding, FindingEventType, FindingSeverity, Fields}
use leakcheck_hub.Findings.Tables.{Tables, has_id}
use leakcheck_hub.Ingest.Password.{ProtectedPassword}
use leakcheck_hub.Ingest.Fingerprint.{SourceIdentity}

-- What one record draws: the `uuid4` of its rows and the nonce of its password.
pub record Draws : Type 0 where
  pub source_id : ℕ
  pub finding_id : ℕ
  pub discovered_id : ℕ
  pub releaked_id : ℕ
  pub nonce : Bytes

pub record FindingDraft : Type 0 where
  pub id : ℕ
  pub subject_id : ℕ
  pub source_id : ℕ
  pub email : Option Text
  pub username : Option Text
  pub phone : Option Text
  pub origin : Option Text
  pub identity_key : Option Bytes
  pub password : Option ProtectedPassword
  pub fields : List Text
  pub raw : Fields
  pub fingerprint : Bytes
  pub seen_at : ℕ

pub record UpsertedFinding : Type 0 where
  pub finding : Finding
  pub is_new : Bool

-- `findings` holds the identifiers of the rows that the summary refers to.
pub record IngestSummary : Type 0 where
  pub findings : List ℕ
  pub new_count : ℕ
  pub re_leaked_count : ℕ
  pub new_finding_ids : List ℕ

-- `protected.… if protected else None`
abbrev pub of_password {ℓ} :
    {A : Type ℓ} → (ProtectedPassword → A) → Option ProtectedPassword → Option A
of_password f none = none
of_password f (some p) = some (f p)

-- `IS NOT DISTINCT FROM`
unfoldable pub same_bytes : Option Bytes → Option Bytes → Bool
same_bytes none none = true
same_bytes (some a) (some b) = text_eq a b
same_bytes _ _ = false

abbrev pub has_fingerprint : Bytes → Finding → Bool
has_fingerprint key f = text_eq f.fingerprint key

-- `uq_breach_sources_identity`
abbrev pub has_identity : SourceIdentity → BreachSource → Bool
has_identity identity s =
    text_eq s.name_norm identity.name_norm && s.breach_date_norm == identity.breach_date_norm

-- `on_conflict_do_update` of `resolve_source`.
abbrev pub resourced : SourceIdentity → BreachSource → BreachSource
resourced identity s = record s {
  unverified = identity.unverified;
  passwordless = identity.passwordless;
  compilation = identity.compilation;
  extra = identity.extra;
}

unfoldable pub source_row : ℕ → SourceIdentity → BreachSource
source_row id identity = record {
  id = id;
  name = identity.name;
  name_norm = identity.name_norm;
  breach_date = identity.breach_date;
  breach_date_norm = identity.breach_date_norm;
  unverified = identity.unverified;
  passwordless = identity.passwordless;
  compilation = identity.compilation;
  extra = identity.extra;
}

unfoldable pub resolved : ℕ → SourceIdentity → Tables → Option BreachSource → BreachSource × Tables
unfolding source_row
resolved id identity db none =
    (source_row id identity, record db { sources = db.sources ++ source_row id identity ∷ [] })
resolved id identity db (some s) = (
  resourced identity s,
  record db { sources = update (has_identity identity) (resourced identity) db.sources },
)

unfoldable pub resolve_source : ℕ → SourceIdentity → Tables → BreachSource × Tables
unfolding resolved find
resolve_source id identity db = resolved id identity db (find (has_identity identity) db.sources)

unfoldable pub finding_row : FindingDraft → Finding
finding_row draft = record {
  id = draft.id;
  subject_id = draft.subject_id;
  source_id = draft.source_id;
  email = draft.email;
  username = draft.username;
  phone = draft.phone;
  origin = draft.origin;
  identity_key = draft.identity_key;
  password_ciphertext = of_password (λ p. p.ciphertext) draft.password;
  password_nonce = of_password (λ p. p.nonce) draft.password;
  password_sha256 = of_password (λ p. p.sha256) draft.password;
  password_mask = of_password (λ p. p.mask) draft.password;
  password_len = of_password (λ p. p.length) draft.password;
  password_charset = of_password (λ p. p.charset) draft.password;
  fields = draft.fields;
  raw = draft.raw;
  fingerprint = draft.fingerprint;
  severity = FindingSeverity.medium;
  first_seen_at = draft.seen_at;
  last_seen_at = draft.seen_at;
  remediated_at = none;
  remediated_by = none;
  remediation_note = none;
  superseded_by_id = none;
  notified_at = none;
}

-- `on_conflict_do_update` of `upsert_finding`.
abbrev pub reseen : FindingDraft → Finding → Finding
reseen draft f = record f {
  last_seen_at = draft.seen_at;
  raw = draft.raw;
  fields = draft.fields;
  origin = draft.origin;
}

unfoldable pub upserted : FindingDraft → Tables → Option Finding → UpsertedFinding × Tables
unfolding finding_row
upserted draft db none = (
  record { finding = finding_row draft; is_new = true },
  record db { findings = db.findings ++ finding_row draft ∷ [] },
)
upserted draft db (some f) = (
  record { finding = reseen draft f; is_new = false },
  record db { findings = update (has_fingerprint draft.fingerprint) (reseen draft) db.findings },
)

unfoldable pub upsert_finding : FindingDraft → Tables → UpsertedFinding × Tables
unfolding upserted find
upsert_finding draft db = upserted draft db (find (has_fingerprint draft.fingerprint) db.findings)

unfoldable pub remediated_or_zero : Finding → ℕ
remediated_or_zero f = elim f.remediated_at [ none ↦ 0 | some t ↦ t ]

-- `ORDER BY remediated_at DESC LIMIT 1`
unfoldable pub latest : List Finding → Option Finding
unfolding remediated_or_zero
latest [] = none
latest (f ∷ fs) = elim (latest fs) [
  | none ↦ some f
  | some g ↦ some (if leb (remediated_or_zero g) (remediated_or_zero f) then f else g)
]

unfoldable pub is_predecessor : List BreachSource → SourceIdentity → Finding → Finding → Bool
unfolding same_bytes
is_predecessor sources source finding g =
    g.subject_id == finding.subject_id
    && not (g.id == finding.id)
    && same_bytes g.identity_key finding.identity_key
    && is_some g.remediated_at
    && not (is_some g.superseded_by_id)
    && not (same_bytes g.password_sha256 finding.password_sha256)
    && any (λ s. s.id == g.source_id && text_eq s.name_norm source.name_norm) sources

abbrev pub link : ℕ → Finding → Finding
link current f = record f { superseded_by_id = some current }

abbrev pub raise_severity : Finding → Finding
raise_severity f = record f { severity = FindingSeverity.high }

unfoldable pub link_releak : Finding → Finding → Tables → Tables
link_releak previous current db = record db {
  findings =
      update (has_id current.id) raise_severity
        (update (has_id previous.id) (link current.id) db.findings);
}

unfoldable pub add_event : ℕ → ℕ → FindingEventType → Option ℕ → ℕ → Fields → Tables → Tables
add_event event_id finding_id event actor_id at meta db = record db {
  events =
      db.events
      ++ record {
        id = event_id;
        finding_id = finding_id;
        event = event;
        actor_id = actor_id;
        at = at;
        meta = meta;
      }
        ∷ [];
}
