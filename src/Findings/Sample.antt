-- ===== src/Findings/Sample.antt =====
-- A finding that the examples store.
use leakcheck_hub.Prelude.{ℕ, none, [], ◌∷◌}
use leakcheck_hub.Models.{Finding, FindingSeverity, Fields}

abbrev pub sample : ℕ → Finding
sample k = record {
  id = k;
  subject_id = 1;
  source_id = 2;
  email = none;
  username = none;
  phone = none;
  origin = none;
  identity_key = none;
  password_ciphertext = none;
  password_nonce = none;
  password_sha256 = none;
  password_mask = none;
  password_len = none;
  password_charset = none;
  fields = [];
  raw = Fields.end;
  fingerprint = k ∷ [];
  severity = FindingSeverity.medium;
  first_seen_at = 10;
  last_seen_at = 20;
  remediated_at = none;
  remediated_by = none;
  remediation_note = none;
  superseded_by_id = none;
  notified_at = none;
}
