-- ===== src/Platform/Store.antt =====
-- app/platform_settings.py: `PlatformSettingsStore` on the table of settings. The cipher and the
-- decoding of UTF-8 are the libraries'; nonces and the instants of the transaction are drawn.
pub mod Refinement
mod Examples
use leakcheck_hub.Prelude.{
  ◌>>=◌, ℕ, zero, suc, Bool, true, false, not, ◌&&◌, ◌||◌, Option, none, some, List, [], ◌∷◌, ◌++◌,
  Text, Bytes, text_eq, if◌then◌else◌, find, update, any, is_some, length, ◌==◌, Outcome, ok, err,
  Error, ◌≡◌,
}
use leakcheck_hub.Models.{PlatformSetting}
use leakcheck_hub.Unicode.{utf8}
use leakcheck_hub.Platform.Keys.{SettingKey, key_value, all_keys, is_secret, setting_aad}

-- `AESGCM(key)`: none is InvalidTag.
pub record Cipher : Type 0 where
  pub encrypt : (nonce plaintext aad : Bytes) → Bytes
  pub decrypt : (nonce ciphertext aad : Bytes) → Option Bytes

-- What a cipher encrypts under some data it decrypts under the same data.
abbrev pub IsLawful : Cipher → Type 0
IsLawful cipher =
    (nonce plaintext aad : Bytes)
    → cipher.decrypt nonce (cipher.encrypt nonce plaintext aad) aad ≡ some plaintext

-- `bytes.decode("utf-8")`, none where it raises UnicodeDecodeError, and its law.
pub record Decoder : Type 0 where
  pub decode : Bytes → Option Text
  pub decode-utf8 : (s : Text) → decode (utf8 s) ≡ some s

abbrev pub has_key : Text → PlatformSetting → Bool
has_key value row = text_eq row.key value

unfoldable pub text_of : Option Text → Outcome (Option Text)
text_of none = err Error.configuration_error
text_of (some text) = ok (some text)

module _ (cipher : Cipher) (decoder : Decoder) where
  unfoldable pub decoded : Option Bytes → Outcome (Option Text)
  unfolding text_of
  decoded none = err Error.configuration_error
  decoded (some plaintext) = text_of (decoder.decode plaintext)

  unfoldable pub read_row : Text → Option PlatformSetting → Outcome (Option Text)
  unfolding decoded
  read_row value none = ok none
  read_row value (some row) =
      decoded (cipher.decrypt row.nonce row.ciphertext (setting_aad value row.schema_version))

  -- `read`
  unfoldable pub read : List PlatformSetting → SettingKey → Outcome (Option Text)
  unfolding read_row find
  read rows key = read_row (key_value key) (find (has_key (key_value key)) rows)

  unfoldable pub kept :
      SettingKey → Option Text → List (SettingKey × Text) → List (SettingKey × Text)
  kept key none values = values
  kept key (some value) values = (key, value) ∷ values

  -- `read_many`, the keys in the order of the set's iteration.
  unfoldable pub read_many :
      List PlatformSetting → List SettingKey → Outcome (List (SettingKey × Text))
  unfolding read kept
  read_many rows [] = ok []
  read_many rows (key ∷ keys) = do
    value ← read rows key
    values ← read_many rows keys
    ok (kept key value values)

-- What `write_many` skips: a value of None, and a blank secret.
pub is_skipped : SettingKey → Option Text → Bool
is_skipped key none = true
is_skipped key (some value) = is_secret key && length value == 0

module _ (cipher : Cipher) (actor_id clock : ℕ) where
  replaced : (key : Text) → (nonce : Bytes) → (value : Text) → PlatformSetting → PlatformSetting
  replaced key nonce value row = record row {
    ciphertext = cipher.encrypt nonce (utf8 value) (setting_aad key 1);
    nonce = nonce;
    schema_version = 1;
    updated_at = clock;
    updated_by = actor_id;
  }

  added : (key : Text) → (nonce : Bytes) → (value : Text) → PlatformSetting
  added key nonce value = record {
    key = key;
    ciphertext = cipher.encrypt nonce (utf8 value) (setting_aad key 1);
    nonce = nonce;
    schema_version = 1;
    updated_at = clock;
    updated_by = actor_id;
  }

  -- The row of a key is rewritten, or added where there is none.
  pub put :
      (key : Text)
      → (nonce : Bytes) → (value : Text) → Option PlatformSetting
      → List PlatformSetting
      → List PlatformSetting
  unfolding replaced added update
  put key nonce value none rows = rows ++ added key nonce value ∷ []
  put key nonce value (some row) rows = update (has_key key) (replaced key nonce value) rows

  pub write_one : SettingKey → Option Text → Bytes → List PlatformSetting → List PlatformSetting
  unfolding put is_skipped find
  write_one key none nonce rows = rows
  write_one key (some value) nonce rows =
      if is_skipped key (some value)
      then rows
      else put (key_value key) nonce value (find (has_key (key_value key)) rows) rows

  -- `write_many`; the number of the entry picks its nonce.
  unfoldable pub write_many :
      (ℕ → Bytes)
      → List (SettingKey × Option Text)
      → ℕ
      → List PlatformSetting
      → List PlatformSetting
  unfolding write_one
  write_many nonces [] n rows = rows
  write_many nonces ((key, value) ∷ values) n rows =
      write_many nonces values (suc n) (write_one key value (nonces n) rows)

states : List PlatformSetting → List SettingKey → List (Text × Bool)
unfolding find
states rows [] = []
states rows (key ∷ keys) =
    (key_value key, is_some (find (has_key (key_value key)) rows)) ∷ states rows keys

-- `configured_state`
pub configured_state : List PlatformSetting → List (Text × Bool)
unfolding states
configured_state rows = states rows all_keys
