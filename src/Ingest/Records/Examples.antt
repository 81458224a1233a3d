-- ===== src/Ingest/Records/Examples.antt =====
-- The theorem on a second ingest at one record, ingested into empty tables.
use leakcheck_hub.Prelude.{ℕ, none, some, [], ◌∷◌, codes, Outcome, ok, err, ◌+◌, ◌≡◌, refl}
use leakcheck_hub.Models.{Subject, SubjectKind, Fields}
use leakcheck_hub.LeakCheck.Records.{LeakRecord}
use leakcheck_hub.Findings.Tables.{Tables}
use leakcheck_hub.Ingest.Sample.{library}
use leakcheck_hub.Ingest.Upserts.{Draws, IngestSummary}
use leakcheck_hub.Ingest.Records.{ingest_records, ingest_record, build_finding_draft, no_records}
use leakcheck_hub.Ingest.Normalization.{
  normalize_optional_email, normalize_optional_username, normalize_optional_phone,
}
use leakcheck_hub.Ingest.Records.Again.{Quietly, ingest_records-ingest_records}

abbrev subject : Subject
subject = record {
  id = 1;
  kind = SubjectKind.email;
  value_norm = codes "a@x.test";
  value_display = codes "a@x.test";
  first_scanned_at = none;
  last_scanned_at = none;
  linked_user_id = none;
}

abbrev leak : LeakRecord
leak = record {
  email = none;
  username = none;
  phone = none;
  origin = none;
  password = some (codes "pw");
  fields = [];
  source = record {
    name = none;
    breach_date = none;
    unverified = none;
    passwordless = none;
    compilation = none;
  };
  raw = Fields.end;
}

abbrev draws : ℕ → Draws
draws k = record {
  source_id = k;
  finding_id = k;
  discovered_id = k;
  releaked_id = k + 1;
  nonce = [];
}

abbrev empty : Tables
empty = record { sources = []; findings = []; events = [] }

abbrev value_of : {A : Type 0} → A → Outcome A → A
value_of other (ok a) = a
value_of other (err _) = other

abbrev first : IngestSummary × Tables
first =
    value_of (no_records, empty)
      (ingest_records library subject none 100 ((draws 5, leak) ∷ []) empty)

ingested : ingest_records library subject none 100 ((draws 5, leak) ∷ []) empty ≡ ok first
unfolding ingest_records ingest_record build_finding_draft normalize_optional_email
    normalize_optional_username normalize_optional_phone
ingested = refl

ingest_records-ingest_records_example :
    (second : IngestSummary × Tables) × (ingest_records library subject
        (some 4)
        200
        ((draws 8, leak) ∷ [])
        first.1
      ≡ ok second)
    × Quietly library subject first.1 second
ingest_records-ingest_records_example =
    ingest_records-ingest_records library subject none (some 4) 100 200 ((draws 5, leak) ∷ [])
      ((draws 8, leak) ∷ []) empty first ingested refl
