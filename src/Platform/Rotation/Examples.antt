-- ===== src/Platform/Rotation/Examples.antt =====
-- A table with one setting and one seed, and the rotation to another key.
use leakcheck_hub.Prelude.{
  true, false, ◌||◌, none, some, [], ◌∷◌, ◌++◌, Bytes, codes, ◌≡◌, ◌⊎◌, refl, ok, text_eq, any,
}
use leakcheck_hub.Models.{PlatformSetting, AdminCredential}
use leakcheck_hub.Python.{decimal}
use leakcheck_hub.Auth.Local.{equals_signs}
use leakcheck_hub.Auth.Local.Totp.{totp_aad}
use leakcheck_hub.Platform.Keys.{is_setting, setting_aad}
use leakcheck_hub.Platform.Store.{Cipher}
use leakcheck_hub.Platform.Rotation.{
  Library, Tables, RotationReport, key_of, decode_key, reencrypted, recrypt, rotate_rows,
  setting_result, rotate_setting, credential_result, credential_blob, rotate_credential,
  rotate_finding, rotate, has_failures, run,
}
use leakcheck_hub.Platform.Rotation.Readable.{IsRotated}
use leakcheck_hub.Platform.Rotation.Complete.{run-IsRotated}
use leakcheck_hub.Platform.Sample.{shown_cipher, opens_with, shown-IsLawful, shown-IsTagged}

abbrev old_key : Bytes
old_key = codes "0123456789abcdefghijklmnopqrstuv"

abbrev new_key : Bytes
new_key = codes "ABCDEFGHIJKLMNOPQRSTUVWXYZ012345"

abbrev sample_lib : Library
sample_lib = record {
  urlsafe_b64decode = λ s. some s;
  aesgcm = shown_cipher;
  uuid_text = λ k. k ∷ [];
  uuid_bytes = λ k. k ∷ [];
}

abbrev setting_of : Cipher → PlatformSetting
setting_of cipher = record {
  key = codes "smtp_host";
  ciphertext = cipher.encrypt (codes "nonce4567890") (codes "mail") [];
  nonce = codes "nonce4567890";
  schema_version = 1;
  updated_at = 0;
  updated_by = 1;
}

abbrev credential_of : Cipher → AdminCredential
credential_of cipher = record {
  user_id = 1;
  password_hash = [];
  totp_secret_enc =
      some (codes "nonce4567890" ++ cipher.encrypt (codes "nonce4567890") (codes "seed") []);
  totp_enabled_at = none;
  failed_attempts = 0;
  locked_until = none;
}

abbrev tables_of : Cipher → Tables
tables_of cipher = record {
  findings = [];
  settings = setting_of cipher ∷ [];
  credentials = credential_of cipher ∷ [];
}

abbrev counted : RotationReport
counted = record { findings = 0; settings = 1; totp_secrets = 1; failures = [] }

sample_run :
    run sample_lib old_key new_key false (tables_of (shown_cipher old_key))
    ≡ ok (counted, tables_of (shown_cipher new_key))
unfolding run decode_key key_of equals_signs rotate rotate_rows rotate_finding rotate_setting
    setting_result rotate_credential credential_blob credential_result recrypt reencrypted
    setting_aad decimal is_setting totp_aad text_eq any opens_with
sample_run = refl

old_decoded : decode_key sample_lib old_key ≡ ok old_key
unfolding decode_key key_of equals_signs
old_decoded = refl

new_decoded : decode_key sample_lib new_key ≡ ok new_key
unfolding decode_key key_of equals_signs
new_decoded = refl

run-IsRotated_example :
    (((has_failures [] || false) ≡ true)
      × (tables_of (shown_cipher old_key) ≡ tables_of (shown_cipher new_key)))
    ⊎ (((has_failures [] || false) ≡ false)
        × IsRotated sample_lib
            (shown_cipher old_key)
            (shown_cipher new_key)
            (tables_of (shown_cipher old_key))
            (tables_of (shown_cipher new_key)))
run-IsRotated_example =
    run-IsRotated sample_lib old_key new_key false (tables_of (shown_cipher old_key))
      (tables_of (shown_cipher new_key)) counted old_key new_key (shown-IsLawful new_key)
      (shown-IsTagged new_key) old_decoded new_decoded sample_run
