-- ===== src/Ingest/Password.antt =====
-- app/finding_crypto.py: what is kept of a password beside its ciphertext.
mod Mask
mod Examples
use leakcheck_hub.Prelude.{
  ℕ, zero, suc, ◌+◌, ◌-◌, Bool, true, false, not, ◌&&◌, ◌||◌, Option, none, some, List, [], ◌∷◌,
  ◌++◌, Text, Bytes, codes, ltb, leb, ◌==◌, if◌then◌else◌, length, any, all,
}
use leakcheck_hub.Python.{is_space}
use leakcheck_hub.Unicode.{utf8}
use leakcheck_hub.Ingest.Library.{Library}

pub record ProtectedPassword : Type 0 where
  pub ciphertext : Bytes
  pub nonce : Bytes
  pub sha256 : Bytes
  pub mask : Text
  pub length : ℕ
  pub charset : Text

-- The bullet that stands for a hidden character.
abbrev pub bullet : ℕ
bullet = 0x2022

pub bullets : ℕ → Text
bullets zero = []
bullets (suc n) = bullet ∷ bullets n

-- `password[-1]` of a text behind a first character.
pub last_of : ℕ → Text → ℕ
last_of c [] = c
last_of c (d ∷ s) = last_of d s

-- `"+".join(classes) or "other"`
join_classes : List Text → Text
join_classes [] = codes "other"
join_classes (s ∷ []) = s
join_classes (s ∷ t ∷ r) = s ++ codes "+" ++ join_classes (t ∷ r)

class_if : Bool → Text → List Text
class_if true name = name ∷ []
class_if false name = []

-- The associated data binds the ciphertext to its finding: `_aad` on the octets of its UUID.
unfoldable pub aad : Bytes → Bytes
unfolding utf8
aad finding_id = utf8 (codes "leakcheck/finding-password/v1") ++ 0 ∷ finding_id

module _ (lib : Library) where
  pub safe_mask_character : ℕ → ℕ
  unfolding is_space
  safe_mask_character c = if lib.is_printable c && not (is_space c) then c else bullet

  pub mask_password : Text → Text
  unfolding bullets last_of
  mask_password [] = []
  mask_password (c ∷ []) = safe_mask_character c ∷ []
  mask_password (c ∷ d ∷ s) =
      let n = length (c ∷ d ∷ s) in
      if ltb n 6
      then safe_mask_character c ∷ bullets (n - 1)
      else safe_mask_character c
        ∷ safe_mask_character d
        ∷ (bullets (n - 3) ++ safe_mask_character (last_of d s) ∷ [])

  pub password_charset : Text → Text
  unfolding join_classes class_if any
  password_charset password = join_classes (
      class_if (any lib.is_lower password) (codes "lower")
      ++ class_if (any lib.is_upper password) (codes "upper")
      ++ class_if (any lib.is_digit password) (codes "digits")
      ++ class_if (any lib.is_symbol password) (codes "symbols")
      ++ class_if (any (λ c. leb 128 c) password) (codes "unicode"))

  unfoldable pub protect_password : (nonce finding_id : Bytes) → Text → ProtectedPassword
  unfolding aad
  protect_password nonce finding_id password = record {
    ciphertext = lib.encrypt nonce (utf8 password) (aad finding_id);
    nonce = nonce;
    sha256 = lib.sha256 (utf8 password);
    mask = mask_password password;
    length = length password;
    charset = password_charset password;
  }
