-- ===== src/Platform/Rotation/Complete.antt =====
-- app/reencrypt.py: what a whole run leaves.
use leakcheck_hub.Prelude.{
  Bool, true, false, ◌||◌, List, [], ◌∷◌, Text, Bytes, text_eq, if◌then◌else◌, ok, Error, raise_if,
  ◌≡◌, ◌⊎◌, refl, ◌∙◌, ap, subst, arith, inl, inr, Bool-cases, ok-injective, >>=-eq-ok,
}
use leakcheck_hub.Platform.Store.{Cipher, IsLawful}
use leakcheck_hub.Platform.Rotation.{
  Library, Tables, RotationReport, decode_key, rotate_rows, rotate_finding, rotate_setting,
  rotate_credential, rotate, has_failures, run,
}
use leakcheck_hub.Platform.Rotation.Readable.{
  IsTagged, FindingKept, SettingKept, CredentialKept, IsRotated, rotate_rows-Pairs,
}
use leakcheck_hub.Platform.Rotation.Rows.{
  finding_parts-FindingKept, rotate_setting-SettingKept, credential_blob-CredentialKept,
}

module _ (lib : Library) (old new : Cipher) (lawful : IsLawful new) (tagged : IsTagged new) where
  rotate-IsRotated :
      (db db' : Tables) (report : RotationReport)
      → rotate lib old new db ≡ ok (report, db')
      → report.failures ≡ []
      → IsRotated lib old new db db'
  unfolding rotate rotate_finding rotate_credential
  rotate-IsRotated db db' report h clean =
      let (findings, hf, rest) =
        >>=-eq-ok (rotate_rows (rotate_finding lib old new) db.findings _) _ h in
      let (settings, hs, rest) =
        >>=-eq-ok (rotate_rows (rotate_setting lib old new) db.settings findings.1) _ rest in
      let (credentials, hc, out) =
        >>=-eq-ok (rotate_rows (rotate_credential lib old new) db.credentials settings.1) _ rest in
      let same = ok-injective _ _ out in
      let (clean_c, kept_c) =
        rotate_rows-Pairs (CredentialKept lib old new) (rotate_credential lib old new)
          (λ c d r r' e.
            credential_blob-CredentialKept lib old new lawful tagged c d r r' c.totp_secret_enc refl
              e)
          db.credentials credentials.0 settings.1 credentials.1 hc
          (ap (λ p. p.0.failures) same ∙ clean) in
      let (clean_s, kept_s) =
        rotate_rows-Pairs (SettingKept lib old new) (rotate_setting lib old new)
          (rotate_setting-SettingKept lib old new lawful tagged) db.settings settings.0 findings.1
          settings.1 hs clean_c in
      let (clean_f, kept_f) =
        rotate_rows-Pairs (FindingKept lib old new) (rotate_finding lib old new)
          (λ f g r r' e.
            finding_parts-FindingKept lib old new lawful tagged f g r r' f.password_ciphertext
              f.password_nonce refl refl e)
          db.findings findings.0 _ findings.1 hf clean_s in
      subst (λ p. IsRotated lib old new db p.1) same
        (record { findings = kept_f; settings = kept_s; credentials = kept_c })

no_failures : (names : List Text) (dry : Bool) → (has_failures names || dry) ≡ false → names ≡ []
no_failures [] dry h = refl
no_failures (name ∷ names) dry h = absurd (ground arith)

committed :
    (lib : Library) (dry : Bool) (db : Tables) (old_key new_key : Bytes)
    (rotated : RotationReport × Tables)
    → IsLawful (lib.aesgcm new_key)
    → IsTagged (lib.aesgcm new_key)
    → rotate lib (lib.aesgcm old_key) (lib.aesgcm new_key) db ≡ ok rotated
    → (((has_failures rotated.0.failures || dry) ≡ true)
        × (db ≡ (if has_failures rotated.0.failures || dry then db else rotated.1)))
      ⊎ (((has_failures rotated.0.failures || dry) ≡ false)
          × IsRotated lib
              (lib.aesgcm old_key)
              (lib.aesgcm new_key)
              db
              (if has_failures rotated.0.failures || dry then db else rotated.1))
committed lib dry db old_key new_key rotated lawful tagged h =
    elim (Bool-cases (has_failures rotated.0.failures || dry)) [
      | inl e ↦ inl (e, rw e refl)
      | inr e ↦ inr (
        e,
        rw e (
            rotate-IsRotated lib (lib.aesgcm old_key) (lib.aesgcm new_key) lawful tagged db
              rotated.1 rotated.0 h (no_failures rotated.0.failures dry e)),
      )
    ]

-- A run that returns either met a failure or was a dry run, and then changed nothing; or everything
-- that the old key opened the new one opens, with the same content: each finding's password, each
-- setting and each seed, none of which is lost or moved. The new cipher decrypts what it encrypted,
-- and adds its tag.
pub run-IsRotated :
    (lib : Library) (current new : Text) (dry_run : Bool) (db db' : Tables)
    (report : RotationReport) (old_key new_key : Bytes)
    → IsLawful (lib.aesgcm new_key)
    → IsTagged (lib.aesgcm new_key)
    → decode_key lib current ≡ ok old_key
    → decode_key lib new ≡ ok new_key
    → run lib current new dry_run db ≡ ok (report, db')
    → (((has_failures report.failures || dry_run) ≡ true) × (db ≡ db'))
      ⊎ (((has_failures report.failures || dry_run) ≡ false)
          × IsRotated lib (lib.aesgcm old_key) (lib.aesgcm new_key) db db')
unfolding run
run-IsRotated lib current new dry_run db db' report old_key new_key lawful tagged ho hn h =
    let (k, hk, rest) = >>=-eq-ok (decode_key lib current) _ h in
    let (l, hl, rest) = >>=-eq-ok (decode_key lib new) _ rest in
    let same_k : k ≡ old_key = cc in
    let same_l : l ≡ new_key = cc in
    let (_, _, rest) = >>=-eq-ok (raise_if (text_eq k l) Error.system_exit) _ rest in
    let (rotated, hr, out) = >>=-eq-ok (rotate lib (lib.aesgcm k) (lib.aesgcm l) db) _ rest in
    let same = ok-injective _ _ out in
    let ended = committed lib dry_run db old_key new_key rotated lawful tagged (
      subst (λ l. rotate lib (lib.aesgcm old_key) (lib.aesgcm l) db ≡ ok rotated) same_l
        (subst (λ k. rotate lib (lib.aesgcm k) (lib.aesgcm l) db ≡ ok rotated) same_k hr)) in
    subst
      (λ p.
        (((has_failures p.0.failures || dry_run) ≡ true) × (db ≡ p.1))
        ⊎ (((has_failures p.0.failures || dry_run) ≡ false)
            × IsRotated lib (lib.aesgcm old_key) (lib.aesgcm new_key) db p.1))
      same ended
