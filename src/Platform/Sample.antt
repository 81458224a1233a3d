-- ===== src/Platform/Sample.antt =====
-- A cipher that shows its key, and a decoder that knows the UTF-8 of every text.
use leakcheck_hub.Prelude.{
  ◌≤◌, Option, none, some, [], ◌∷◌, ◌++◌, Bytes, codes, text_eq, text_eq_refl, length,
  length-append, if◌then◌else◌, ◌≡◌, refl, arith,
}
use leakcheck_hub.Platform.Store.{Cipher, IsLawful}

abbrev tag : Bytes
tag = codes "0123456789abcdef"

-- The tag and the key stand before the plaintext.
unfoldable pub opens_with : Bytes → Bytes → Option Bytes
opens_with [] s = some s
opens_with (c ∷ p) [] = none
opens_with (c ∷ p) (d ∷ s) = if text_eq (c ∷ []) (d ∷ []) then opens_with p s else none

abbrev pub shown_cipher : Bytes → Cipher
shown_cipher key = record {
  encrypt = λ nonce plaintext bound. (tag ++ key) ++ plaintext;
  decrypt = λ nonce ciphertext bound. opens_with (tag ++ key) ciphertext;
}

opens_with-append : (p s : Bytes) → opens_with p (p ++ s) ≡ some s
unfolding opens_with
opens_with-append [] s = refl
opens_with-append (c ∷ p) s = rw (text_eq_refl (c ∷ [])) (opens_with-append p s)

pub shown-IsLawful : (key : Bytes) → IsLawful (shown_cipher key)
shown-IsLawful key nonce plaintext bound = opens_with-append (tag ++ key) plaintext

pub shown-IsTagged :
    (key nonce plaintext bound : Bytes)
    → 16 ≤ length ((shown_cipher key).encrypt nonce plaintext bound)
shown-IsTagged key nonce plaintext bound =
    let outer = length-append (tag ++ key) plaintext in
    let inner = length-append tag key in omega arith
