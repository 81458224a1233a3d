-- ===== src/Unicode.antt =====
-- Texts as the code reads them: ASCII classes, UTF-8, and the url-safe alphabet of bearer tokens
-- (the patterns of app/auth/session.py and app/auth/csrf.py).
pub mod Decoding
use leakcheck_hub.Prelude.{
  ℕ, ◌+◌, ◌/◌, ◌%◌, Bool, ◌&&◌, ◌||◌, [], ◌∷◌, ◌++◌, Text, Bytes, ltb, leb, ◌==◌, if◌then◌else◌,
  all, length,
}

-- `str.encode("utf-8")` of one code point; the texts that reach the code hold no surrogates.
utf8_char : ℕ → Bytes
utf8_char c =
    if ltb c 0x80
    then c ∷ []
    else if ltb c 0x800
    then (0xc0 + c / 64) ∷ (0x80 + c % 64) ∷ []
    else if ltb c 0x10000
    then (0xe0 + c / 4096) ∷ (0x80 + c / 64 % 64) ∷ (0x80 + c % 64) ∷ []
    else (0xf0 + c / 262144) ∷ (0x80 + c / 4096 % 64) ∷ (0x80 + c / 64 % 64) ∷ (0x80 + c % 64) ∷ []

-- `str.encode("utf-8")`
unfoldable pub utf8 : Text → Bytes
unfolding utf8_char
utf8 [] = []
utf8 (c ∷ s) = utf8_char c ++ utf8 s

-- `[A-Za-z0-9_-]`
unfoldable pub is_urlsafe : ℕ → Bool
is_urlsafe c =
    leb b'A' c && leb c b'Z'
    || leb b'a' c && leb c b'z'
    || leb b'0' c && leb c b'9'
    || c == b'_'
    || c == b'-'

-- `^[A-Za-z0-9_-]{43}$` as a full match
unfoldable pub is_token : Text → Bool
unfolding all is_urlsafe
is_token s = all is_urlsafe s && length s == 43
