-- ===== src/Platform/Rotation.antt =====
-- app/reencrypt.py: the rotation of the data key over findings, settings and one-time seeds. The
-- ciphers, base64 and the texts of identifiers are the libraries'.
pub mod Readable
pub mod Rows
pub mod Complete
mod Examples
use leakcheck_hub.Prelude.{
  ◌>>=◌, ◌>>◌, ℕ, ◌+◌, ◌-◌, ◌%◌, Bool, true, false, not, ◌||◌, Option, none, some, List, [], ◌∷◌,
  ◌++◌, Text, Bytes, codes, text_eq, leb, ◌==◌, if◌then◌else◌, length, take, drop, Outcome, ok, err,
  Error, raise_if,
}
use leakcheck_hub.Models.{Finding, PlatformSetting, AdminCredential}
use leakcheck_hub.Ingest.Password.{aad}
use leakcheck_hub.Auth.Local.{equals_signs}
use leakcheck_hub.Auth.Local.Totp.{totp_aad}
use leakcheck_hub.Platform.Keys.{is_setting, setting_aad}
use leakcheck_hub.Platform.Store.{Cipher}

-- `urlsafe_b64decode` is none where it raises ValueError.
pub record Library : Type 0 where
  pub urlsafe_b64decode : Text → Option Bytes
  pub aesgcm : Bytes → Cipher
  pub uuid_text : ℕ → Text
  pub uuid_bytes : ℕ → Bytes

pub record Tables : Type 0 where
  pub findings : List Finding
  pub settings : List PlatformSetting
  pub credentials : List AdminCredential

pub record RotationReport : Type 0 where
  pub findings : ℕ
  pub settings : ℕ
  pub totp_secrets : ℕ
  pub failures : List Text

key_of : Option Bytes → Outcome Bytes
key_of none = err Error.value_error
key_of (some raw) = if length raw == 32 then ok raw else err Error.value_error

-- `decode_key`
pub decode_key : Library → Text → Outcome Bytes
unfolding key_of equals_signs
decode_key lib value =
    key_of (lib.urlsafe_b64decode (value ++ equals_signs ((4 - length value % 4) % 4)))

-- `_recrypt`, none where it raises InvalidTag.
reencrypted : Cipher → (nonce aad : Bytes) → Option Bytes → Option Bytes
reencrypted new nonce bound none = none
reencrypted new nonce bound (some plaintext) = some (new.encrypt nonce plaintext bound)

pub recrypt : Cipher → Cipher → (nonce ciphertext aad : Bytes) → Option Bytes
unfolding reencrypted
recrypt old new nonce ciphertext bound =
    reencrypted new nonce bound (old.decrypt nonce ciphertext bound)

-- The loop over the rows of one table, the report passed along.
pub rotate_rows {ℓ} :
    {Row : Type ℓ}
    → (Row → RotationReport → Outcome (Row × RotationReport))
    → List Row
    → RotationReport
    → Outcome (List Row × RotationReport)
rotate_rows step [] report = ok ([], report)
rotate_rows step (row ∷ rows) report =
    step row report >>= λ one. rotate_rows step rows one.1 >>= λ rest. ok (one.0 ∷ rest.0, rest.1)

-- The report of a row that does not decrypt.
abbrev pub failed : Text → RotationReport → RotationReport
failed name report = record report { failures = report.failures ++ name ∷ [] }

module _ (lib : Library) (old new : Cipher) where
  finding_result : Finding → RotationReport → Option Bytes → Outcome (Finding × RotationReport)
  finding_result f report none = ok (f, failed (codes "finding:" ++ lib.uuid_text f.id) report)
  finding_result f report (some ciphertext) = ok (
    record f { password_ciphertext = some ciphertext },
    record report { findings = report.findings + 1 },
  )

  pub finding_parts :
      Finding
      → RotationReport
      → (ciphertext nonce : Option Bytes) → Outcome (Finding × RotationReport)
  unfolding finding_result recrypt aad
  finding_parts f report (some ciphertext) (some nonce) =
      finding_result f report (recrypt old new nonce ciphertext (aad (lib.uuid_bytes f.id)))
  finding_parts f report _ _ = ok (f, report)

  pub rotate_finding : Finding → RotationReport → Outcome (Finding × RotationReport)
  unfolding finding_parts
  rotate_finding f report = finding_parts f report f.password_ciphertext f.password_nonce

  setting_result :
      PlatformSetting → RotationReport → Option Bytes → Outcome (PlatformSetting × RotationReport)
  setting_result row report none = ok (row, failed (codes "platform_setting:" ++ row.key) report)
  setting_result row report (some ciphertext) =
      ok (record row { ciphertext = ciphertext }, record report { settings = report.settings + 1 })

  -- `SettingKey(row.key)` raises ValueError for a key that no setting has.
  pub rotate_setting : PlatformSetting → RotationReport → Outcome (PlatformSetting × RotationReport)
  unfolding setting_result recrypt setting_aad is_setting
  rotate_setting row report =
      raise_if (not (is_setting row.key)) Error.value_error
      >> setting_result row report
          (recrypt old new row.nonce row.ciphertext (setting_aad row.key row.schema_version))

  credential_result :
      AdminCredential
      → RotationReport
      → (nonce : Bytes) → Option Bytes
      → Outcome (AdminCredential × RotationReport)
  credential_result c report nonce none =
      ok (c, failed (codes "admin_credential:" ++ lib.uuid_text c.user_id) report)
  credential_result c report nonce (some ciphertext) = ok (
    record c { totp_secret_enc = some (nonce ++ ciphertext) },
    record report { totp_secrets = report.totp_secrets + 1 },
  )

  pub credential_blob :
      AdminCredential → RotationReport → Option Bytes → Outcome (AdminCredential × RotationReport)
  unfolding credential_result recrypt totp_aad
  credential_blob c report none = ok (c, report)
  credential_blob c report (some blob) =
      if leb (length blob) 12
      then ok (c, report)
      else credential_result c report (take 12 blob)
          (recrypt old new (take 12 blob) (drop 12 blob) (totp_aad (lib.uuid_bytes c.user_id)))

  pub rotate_credential :
      AdminCredential → RotationReport → Outcome (AdminCredential × RotationReport)
  unfolding credential_blob
  rotate_credential c report = credential_blob c report c.totp_secret_enc

  -- `rotate`
  pub rotate : Tables → Outcome (RotationReport × Tables)
  unfolding rotate_rows rotate_finding rotate_setting rotate_credential
  rotate db = do
    findings ←
        rotate_rows rotate_finding db.findings
          (record { findings = 0; settings = 0; totp_secrets = 0; failures = [] })
    settings ← rotate_rows rotate_setting db.settings findings.1
    credentials ← rotate_rows rotate_credential db.credentials settings.1
    ok (
      credentials.1,
      record { findings = findings.0; settings = settings.0; credentials = credentials.0 },
    )

abbrev pub has_failures : List Text → Bool
has_failures [] = false
has_failures (name ∷ names) = true

-- `_run`: what is committed.
pub run :
    Library → (current new : Text) → (dry_run : Bool) → Tables → Outcome (RotationReport × Tables)
unfolding decode_key rotate text_eq
run lib current new dry_run db = do
  old_key ← decode_key lib current
  new_key ← decode_key lib new
  raise_if (text_eq old_key new_key) Error.system_exit
  rotated ← rotate lib (lib.aesgcm old_key) (lib.aesgcm new_key) db
  ok (rotated.0, if has_failures rotated.0.failures || dry_run then db else rotated.1)
