-- ===== src/Ingest/Library.antt =====
-- What the ingest takes from hashlib, unicodedata, `str`, `datetime.date` and the cryptography
-- package. `idna` and `parse_date` are none where the library raises.
use leakcheck_hub.Prelude.{ℕ, Bool, Option, Text, Bytes}

pub record Library : Type 0 where
  pub sha256 : Bytes → Bytes
  pub nfkc : Text → Text
  pub casefold : Text → Text
  pub is_printable : ℕ → Bool
  pub is_lower : ℕ → Bool
  pub is_upper : ℕ → Bool
  pub is_digit : ℕ → Bool
  pub is_symbol : ℕ → Bool
  pub idna : Text → Option Text
  pub parse_date : Text → Option ℕ
  pub iso_date : ℕ → Text
  -- `AESGCM(key).encrypt(nonce, plaintext, aad)`
  pub encrypt : Bytes → Bytes → Bytes → Bytes
  -- `uuid.UUID.bytes` and `str` of a UUID
  pub uuid_bytes : ℕ → Bytes
  pub uuid_text : ℕ → Text
