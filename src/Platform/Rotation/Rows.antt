-- ===== src/Platform/Rotation/Rows.antt =====
-- app/reencrypt.py: what the rotation does to one row.
use leakcheck_hub.Prelude.{
  ℕ, zero, suc, ◌≤◌, Bool, true, false, not, Option, none, some, [], ◌∷◌, ◌++◌, Bytes, codes, leb,
  if◌then◌else◌, length, take, drop, length-append, length-take-min, Outcome, ok, Error, raise_if,
  ◌≡◌, refl, sym, ◌∙◌, ap, subst, arith, ok-injective, >>=-eq-ok,
}
use leakcheck_hub.Models.{Finding, PlatformSetting, AdminCredential}
use leakcheck_hub.Ingest.Password.{aad}
use leakcheck_hub.Auth.Local.Totp.{totp_aad}
use leakcheck_hub.Platform.Keys.{is_setting, setting_aad}
use leakcheck_hub.Platform.Store.{Cipher, IsLawful}
use leakcheck_hub.Platform.Rotation.{
  Library, RotationReport, reencrypted, recrypt, finding_result, finding_parts, setting_result,
  rotate_setting, credential_result, credential_blob,
}
use leakcheck_hub.Platform.Rotation.Readable.{
  opened, opened_blob, IsTagged, FindingKept, SettingKept, CredentialKept, snoc-nil,
}

take-append : (n : ℕ) (s t : Bytes) → length s ≡ n → take n (s ++ t) ≡ s
take-append zero [] t h = refl
take-append zero (c ∷ s) t h = absurd (omega arith)
take-append (suc n) [] t h = absurd (omega arith)
take-append (suc n) (c ∷ s) t h = ap (λ r. c ∷ r) (take-append n s t (omega arith))

drop-append : (n : ℕ) (s t : Bytes) → length s ≡ n → drop n (s ++ t) ≡ t
drop-append zero [] t h = refl
drop-append zero (c ∷ s) t h = absurd (omega arith)
drop-append (suc n) [] t h = absurd (omega arith)
drop-append (suc n) (c ∷ s) t h = drop-append n s t (omega arith)

-- A ciphertext that was made from what the old key decrypts.
recrypt-some :
    (old new : Cipher) (lawful : IsLawful new) (nonce ciphertext bound c : Bytes)
    → recrypt old new nonce ciphertext bound ≡ some c
    → new.decrypt nonce c bound ≡ old.decrypt nonce ciphertext bound
unfolding recrypt reencrypted
recrypt-some old new lawful nonce ciphertext bound c h = go (old.decrypt nonce ciphertext bound) h
  where
    go : (o : Option Bytes) → reencrypted new nonce bound o ≡ some c → new.decrypt nonce c bound ≡ o
    go none h = absurd cc
    go (some plaintext) h =
        let same : new.encrypt nonce plaintext bound ≡ c = cc in
        subst (λ e. new.decrypt nonce e bound ≡ some plaintext) same (lawful nonce plaintext bound)

recrypt-tagged :
    (old new : Cipher) (tagged : IsTagged new) (nonce ciphertext bound c : Bytes)
    → recrypt old new nonce ciphertext bound ≡ some c
    → 16 ≤ length c
unfolding recrypt reencrypted
recrypt-tagged old new tagged nonce ciphertext bound c h = go (old.decrypt nonce ciphertext bound) h
  where
    go : (o : Option Bytes) → reencrypted new nonce bound o ≡ some c → 16 ≤ length c
    go none h = absurd cc
    go (some plaintext) h =
        let same : new.encrypt nonce plaintext bound ≡ c = cc in
        subst (λ e. 16 ≤ length e) same (tagged nonce plaintext bound)

module _ (lib : Library) (old new : Cipher) (lawful : IsLawful new) (tagged : IsTagged new) where
  finding_result-FindingKept :
      (f g : Finding) (report report' : RotationReport) (c n : Bytes) (o : Option Bytes)
      → f.password_ciphertext ≡ some c
      → f.password_nonce ≡ some n
      → recrypt old new n c (aad (lib.uuid_bytes f.id)) ≡ o
      → finding_result lib old new f report o ≡ ok (g, report')
      → report'.failures ≡ []
      → (report.failures ≡ []) × FindingKept lib old new f g
  unfolding finding_result FindingKept opened
  finding_result-FindingKept f g report report' c n none hc hn r h clean =
      let same = ok-injective _ _ h in
      absurd (
        snoc-nil report.failures (codes "finding:" ++ lib.uuid_text f.id)
          (ap (λ p. p.1.failures) same ∙ clean))
  finding_result-FindingKept f g report report' c n (some c') hc hn r h clean =
      let same = ok-injective _ _ h in
      let opens = recrypt-some old new lawful n c (aad (lib.uuid_bytes f.id)) c' r in
      (
        ap (λ p. p.1.failures) same ∙ clean,
        subst (λ p. FindingKept lib old new f p.0) same (refl, rw (hc, hn) opens),
      )

  pub finding_parts-FindingKept :
      (f g : Finding) (report report' : RotationReport) (c n : Option Bytes)
      → f.password_ciphertext ≡ c
      → f.password_nonce ≡ n
      → finding_parts lib old new f report c n ≡ ok (g, report')
      → report'.failures ≡ []
      → (report.failures ≡ []) × FindingKept lib old new f g
  unfolding finding_parts FindingKept opened
  finding_parts-FindingKept f g report report' none n hc hn h clean =
      let same = ok-injective _ _ h in
      (
        ap (λ p. p.1.failures) same ∙ clean,
        subst (λ p. FindingKept lib old new f p.0) same (refl, rw hc refl),
      )
  finding_parts-FindingKept f g report report' (some c) none hc hn h clean =
      let same = ok-injective _ _ h in
      (
        ap (λ p. p.1.failures) same ∙ clean,
        subst (λ p. FindingKept lib old new f p.0) same (refl, rw (hc, hn) refl),
      )
  finding_parts-FindingKept f g report report' (some c) (some n) hc hn h clean =
      finding_result-FindingKept f g report report' c n
        (recrypt old new n c (aad (lib.uuid_bytes f.id))) hc hn refl h clean

  setting_result-SettingKept :
      (r q : PlatformSetting) (report report' : RotationReport) (o : Option Bytes)
      → recrypt old new r.nonce r.ciphertext (setting_aad r.key r.schema_version) ≡ o
      → setting_result lib old new r report o ≡ ok (q, report')
      → report'.failures ≡ []
      → (report.failures ≡ []) × SettingKept lib old new r q
  unfolding setting_result SettingKept
  setting_result-SettingKept r q report report' none e h clean =
      let same = ok-injective _ _ h in
      absurd (
        snoc-nil report.failures (codes "platform_setting:" ++ r.key)
          (ap (λ p. p.1.failures) same ∙ clean))
  setting_result-SettingKept r q report report' (some c) e h clean =
      let same = ok-injective _ _ h in
      (
        ap (λ p. p.1.failures) same ∙ clean,
        subst (λ p. SettingKept lib old new r p.0) same
            (
              refl,
              recrypt-some old new lawful r.nonce r.ciphertext (setting_aad r.key r.schema_version)
                  c e,
            ),
      )

  pub rotate_setting-SettingKept :
      (r q : PlatformSetting) (report report' : RotationReport)
      → rotate_setting lib old new r report ≡ ok (q, report')
      → report'.failures ≡ []
      → (report.failures ≡ []) × SettingKept lib old new r q
  unfolding rotate_setting
  rotate_setting-SettingKept r q report report' h clean =
      let (_, _, rest) = >>=-eq-ok (raise_if (not (is_setting r.key)) Error.value_error) _ h in
      setting_result-SettingKept r q report report' _ refl rest clean

  blob_kept :
      (bound blob t : Bytes)
      → leb (length blob) 12 ≡ false
      → recrypt old new (take 12 blob) (drop 12 blob) bound ≡ some t
      → opened_blob new bound (some (take 12 blob ++ t)) ≡ opened_blob old bound (some blob)
  unfolding opened_blob
  blob_kept bound blob t long e =
      let cut = length-take-min 12 blob in
      let size : length (take 12 blob) ≡ 12 = ground arith in
      let tail = recrypt-tagged old new tagged (take 12 blob) (drop 12 blob) bound t e in
      let sum = length-append (take 12 blob) t in
      let longer : leb (length (take 12 blob ++ t)) 12 ≡ false = ground arith in
      rw (longer, take-append 12 (take 12 blob) t size, drop-append 12 (take 12 blob) t size, long)
        (recrypt-some old new lawful (take 12 blob) (drop 12 blob) bound t e)

  credential_result-CredentialKept :
      (c d : AdminCredential) (report report' : RotationReport) (blob : Bytes) (o : Option Bytes)
      → c.totp_secret_enc ≡ some blob
      → leb (length blob) 12 ≡ false
      → recrypt old new (take 12 blob) (drop 12 blob) (totp_aad (lib.uuid_bytes c.user_id)) ≡ o
      → credential_result lib old new c report (take 12 blob) o ≡ ok (d, report')
      → report'.failures ≡ []
      → (report.failures ≡ []) × CredentialKept lib old new c d
  unfolding credential_result CredentialKept
  credential_result-CredentialKept c d report report' blob none hb long e h clean =
      let same = ok-injective _ _ h in
      absurd (
        snoc-nil report.failures (codes "admin_credential:" ++ lib.uuid_text c.user_id)
          (ap (λ p. p.1.failures) same ∙ clean))
  credential_result-CredentialKept c d report report' blob (some t) hb long e h clean =
      let same = ok-injective _ _ h in
      (
        ap (λ p. p.1.failures) same ∙ clean,
        subst (λ p. CredentialKept lib old new c p.0) same
            (
              refl,
              blob_kept (totp_aad (lib.uuid_bytes c.user_id)) blob t long e
                  ∙ ap (opened_blob old (totp_aad (lib.uuid_bytes c.user_id))) (sym hb),
            ),
      )

  pub credential_blob-CredentialKept :
      (c d : AdminCredential) (report report' : RotationReport) (o : Option Bytes)
      → c.totp_secret_enc ≡ o
      → credential_blob lib old new c report o ≡ ok (d, report')
      → report'.failures ≡ []
      → (report.failures ≡ []) × CredentialKept lib old new c d
  unfolding credential_blob CredentialKept opened_blob
  credential_blob-CredentialKept c d report report' none hb h clean =
      let same = ok-injective _ _ h in
      (
        ap (λ p. p.1.failures) same ∙ clean,
        subst (λ p. CredentialKept lib old new c p.0) same (refl, rw hb refl),
      )
  credential_blob-CredentialKept c d report report' (some blob) hb h clean =
      decided (leb (length blob) 12) refl h
    where
      result : Outcome (AdminCredential × RotationReport)
      result =
          credential_result lib old new c report (take 12 blob)
            (recrypt old new (take 12 blob) (drop 12 blob) (totp_aad (lib.uuid_bytes c.user_id)))

      decided :
          (short : Bool)
          → leb (length blob) 12 ≡ short
          → (if short then ok (c, report) else result) ≡ ok (d, report')
          → (report.failures ≡ []) × CredentialKept lib old new c d
      decided true short e =
          let same = ok-injective _ _ e in
          (
            ap (λ p. p.1.failures) same ∙ clean,
            subst (λ p. CredentialKept lib old new c p.0) same (refl, rw (hb, short) refl),
          )
      decided false long e =
          credential_result-CredentialKept c d report report' blob _ hb long refl e clean
