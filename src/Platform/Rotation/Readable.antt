-- ===== src/Platform/Rotation/Readable.antt =====
-- app/reencrypt.py: what can be read after a rotation.
use leakcheck_hub.Prelude.{
  ◌≤◌, Option, none, some, List, [], ◌∷◌, ◌++◌, Text, Bytes, leb, if◌then◌else◌, length, take, drop,
  Outcome, ok, ◌≡◌, ◌∙◌, ap, subst, ok-injective, >>=-eq-ok,
}
use leakcheck_hub.Models.{Finding, PlatformSetting, AdminCredential}
use leakcheck_hub.Ingest.Password.{aad}
use leakcheck_hub.Auth.Local.Totp.{totp_aad}
use leakcheck_hub.Platform.Keys.{setting_aad}
use leakcheck_hub.Platform.Store.{Cipher}
use leakcheck_hub.Platform.Rotation.{Library, Tables, RotationReport, rotate_rows}

-- Rows one by one.
pub Pairs : {Row : Type 0} → (Row → Row → Type 0) → List Row → List Row → Type 0
Pairs Rel [] [] = Unit
Pairs Rel (x ∷ xs) (y ∷ ys) = Rel x y × Pairs Rel xs ys
Pairs Rel _ _ = ⊥

-- What a row gives under a key: none where it holds nothing that is encrypted, or does not decrypt.
unfoldable pub opened : Cipher → Bytes → (ciphertext nonce : Option Bytes) → Option Bytes
opened cipher bound (some ciphertext) (some nonce) = cipher.decrypt nonce ciphertext bound
opened cipher bound _ _ = none

unfoldable pub opened_blob : Cipher → Bytes → Option Bytes → Option Bytes
opened_blob cipher bound none = none
opened_blob cipher bound (some blob) =
    if leb (length blob) 12 then none else cipher.decrypt (take 12 blob) (drop 12 blob) bound

-- A ciphertext ends with a tag of 16 octets.
abbrev pub IsTagged : Cipher → Type 0
IsTagged cipher =
    (nonce plaintext bound : Bytes) → 16 ≤ length (cipher.encrypt nonce plaintext bound)

module _ (lib : Library) (old new : Cipher) where
  unfoldable pub FindingKept : Finding → Finding → Type 0
  FindingKept f g =
      (g.id ≡ f.id)
      × (opened new (aad (lib.uuid_bytes g.id)) g.password_ciphertext g.password_nonce
          ≡ opened old (aad (lib.uuid_bytes f.id)) f.password_ciphertext f.password_nonce)

  unfoldable pub SettingKept : PlatformSetting → PlatformSetting → Type 0
  SettingKept r q =
      (q.key ≡ r.key)
      × (new.decrypt q.nonce q.ciphertext (setting_aad q.key q.schema_version)
          ≡ old.decrypt r.nonce r.ciphertext (setting_aad r.key r.schema_version))

  unfoldable pub CredentialKept : AdminCredential → AdminCredential → Type 0
  CredentialKept c d =
      (d.user_id ≡ c.user_id)
      × (opened_blob new (totp_aad (lib.uuid_bytes d.user_id)) d.totp_secret_enc
          ≡ opened_blob old (totp_aad (lib.uuid_bytes c.user_id)) c.totp_secret_enc)

  -- Every row is still there, in order, and gives under the new key what it gave under the old one.
  pub record IsRotated (db db' : Tables) : Type 0 where
    pub findings : Pairs FindingKept db.findings db'.findings
    pub settings : Pairs SettingKept db.settings db'.settings
    pub credentials : Pairs CredentialKept db.credentials db'.credentials

pub snoc-nil : (names : List Text) (name : Text) → names ++ name ∷ [] ≡ [] → ⊥
snoc-nil [] name h = cc
snoc-nil (n ∷ names) name h = cc

-- A loop without a failure at its end had none before, and kept every row.
pub rotate_rows-Pairs :
    {Row : Type 0} (Rel : Row → Row → Type 0)
    (step : Row → RotationReport → Outcome (Row × RotationReport))
    → ((row row' : Row) (report report' : RotationReport)
        → step row report ≡ ok (row', report')
        → report'.failures ≡ []
        → (report.failures ≡ []) × Rel row row')
    → (rows rows' : List Row) (report report' : RotationReport)
    → rotate_rows step rows report ≡ ok (rows', report')
    → report'.failures ≡ []
    → (report.failures ≡ []) × Pairs Rel rows rows'
unfolding rotate_rows Pairs
rotate_rows-Pairs Rel step sound [] rows' report report' h clean =
    let same = ok-injective _ _ h in
    (ap (λ p. p.1.failures) same ∙ clean, subst (Pairs Rel []) (ap (λ p. p.0) same) tt)
rotate_rows-Pairs Rel step sound (row ∷ rows) rows' report report' h clean =
    let (one, e, rest) = >>=-eq-ok (step row report) _ h in
    let (others, f, out) = >>=-eq-ok (rotate_rows step rows one.1) _ rest in
    let same = ok-injective _ _ out in
    let (middle, pairs) =
      rotate_rows-Pairs Rel step sound rows others.0 one.1 others.1 f
        (ap (λ p. p.1.failures) same ∙ clean) in
    let (before, kept) = sound row one.0 report one.1 e middle in
    (before, subst (Pairs Rel (row ∷ rows)) (ap (λ p. p.0) same) (kept, pairs))
