-- ===== src/Auth/Local/Totp.antt =====
-- app/auth/local.py: one-time codes. An instant is a number of microseconds after the epoch or,
-- signed, before it.
pub mod Windows
use leakcheck_hub.Prelude.{
  ◌>>=◌, ◌>>◌, ℕ, zero, suc, ◌+◌, ◌-◌, ◌*◌, ◌/◌, ◌%◌, ◌^◌, Bool, true, false, not, ◌&&◌, ◌||◌,
  Option, none, some, [], ◌∷◌, ◌++◌, Text, Bytes, codes, ltb, leb, text_eq, ◌==◌, if◌then◌else◌,
  length, take, drop, all, Outcome, ok, err, Error, raise_if,
}
use leakcheck_hub.Models.{seconds}
use leakcheck_hub.Python.{ℤ, pos, negsuc}
use leakcheck_hub.Auth.Local.{Library, is_ascii, data_key, equals_signs}

-- `_totp_key`
pub key_of : Option Bytes → Outcome Bytes
key_of none = err Error.authentication
key_of (some key) = if length key == 20 then ok key else err Error.authentication

unfoldable pub totp_key : Library → Text → Outcome Bytes
unfolding is_ascii equals_signs key_of
totp_key lib secret =
    if not (is_ascii secret) || not (leb 16 (length secret) && leb (length secret) 128)
    then err Error.authentication
    else key_of (lib.b32decode (secret ++ equals_signs ((8 - length secret % 8) % 8)))

-- `int(timestamp()) // 30`, none below 0: `int` cuts towards 0, the division rounds down.
abbrev pub counter : ℤ → Option ℕ
counter (pos t) = some (t / 1000000 / 30)
counter (negsuc t) = if ltb (t + 1) 1000000 then some 0 else none

-- `counter.to_bytes(8, "big")`: no instant reaches 2 ^ 64.
counter_bytes : ℕ → Bytes
counter_bytes n =
    (n / 2 ^ 56 % 256)
    ∷ (n / 2 ^ 48 % 256)
    ∷ (n / 2 ^ 40 % 256)
    ∷ (n / 2 ^ 32 % 256)
    ∷ (n / 2 ^ 24 % 256)
    ∷ (n / 2 ^ 16 % 256)
    ∷ (n / 2 ^ 8 % 256)
    ∷ (n % 256)
    ∷ []

last_octet : Bytes → ℕ
last_octet [] = 0
last_octet (c ∷ []) = c
last_octet (c ∷ d ∷ s) = last_octet (d ∷ s)

-- `int.from_bytes(…, "big")` behind the octets read so far.
from_bytes : ℕ → Bytes → ℕ
from_bytes n [] = n
from_bytes n (c ∷ s) = from_bytes (n * 256 + c) s

-- `f"{n:06d}"` of a number below a million.
pub six_digits : ℕ → Text
six_digits n =
    (b'0' + n / 100000 % 10)
    ∷ (b'0' + n / 10000 % 10)
    ∷ (b'0' + n / 1000 % 10)
    ∷ (b'0' + n / 100 % 10)
    ∷ (b'0' + n / 10 % 10)
    ∷ (b'0' + n % 10)
    ∷ []

-- The code of a counter.
pub code_of : Library → Bytes → ℕ → Text
unfolding counter_bytes last_octet from_bytes six_digits
code_of lib key n =
    let digest = lib.hmac_sha1 key (counter_bytes n) in
    let offset = last_octet digest % 16 in
    let truncated = from_bytes 0 (take 4 (drop offset digest)) % 2 ^ 31 in
    six_digits (truncated % 1000000)

code_at : Library → Text → Option ℕ → Outcome Text
unfolding totp_key code_of
code_at lib secret none = err Error.authentication
code_at lib secret (some n) = totp_key lib secret >>= λ key. ok (code_of lib key n)

-- `totp_code`
pub totp_code : Library → Text → ℤ → Outcome Text
unfolding code_at
totp_code lib secret now = code_at lib secret (counter now)

-- `current - timedelta(seconds=30)`
abbrev pub half_minute_before : ℕ → ℤ
half_minute_before t =
    if leb (seconds 30) t then pos (t - seconds 30) else negsuc (seconds 30 - t - 1)

pub is_digit : ℕ → Bool
is_digit c = leb b'0' c && leb c b'9'

any_code : Text → Outcome (Text × (Text × Text)) → Bool
unfolding text_eq
any_code supplied (err e) = false
any_code supplied (ok (a, (b, c))) = text_eq supplied a || text_eq supplied b || text_eq supplied c

-- `verify_totp`; the tuple of codes is built before any is compared.
pub verify_totp : Library → Text → Text → ℕ → Bool
unfolding is_ascii all is_digit any_code totp_code
verify_totp lib secret supplied now =
    if not (length supplied == 6) || not (is_ascii supplied) || not (all is_digit supplied)
    then false
    else any_code supplied (
        totp_code lib secret (half_minute_before now) >>= λ before.
        totp_code lib secret (pos now) >>= λ here.
        totp_code lib secret (pos (now + seconds 30)) >>= λ after. ok (before, (here, after)))

-- `_totp_aad` on the octets of the account's UUID.
unfoldable pub totp_aad : Bytes → Bytes
totp_aad user_id = codes "leakcheck/admin-totp/v1/" ++ user_id

-- `generate_totp_secret` on the drawn octets: the padding is stripped off the end.
rstrip_equals : Text → Text
rstrip_equals [] = []
rstrip_equals (c ∷ s) = elim (rstrip_equals s) [
  | [] ↦ if c == b'=' then [] else c ∷ []
  | d ∷ r ↦ c ∷ d ∷ r
]

pub generate_totp_secret : Library → Bytes → Text
unfolding rstrip_equals
generate_totp_secret lib drawn = rstrip_equals (lib.b32encode drawn)

-- `encrypt_totp_secret`; an `encode("ascii")` of an ASCII text is the text.
unfoldable pub encrypt_totp_secret : Library → Text → Bytes → ℕ → Text → Outcome Bytes
unfolding totp_aad
encrypt_totp_secret lib encoded_key nonce user_id secret = do
  _ ← totp_key lib secret
  key ← data_key lib encoded_key
  ok (nonce ++ lib.aes_gcm_encrypt key nonce secret (totp_aad (lib.uuid_bytes user_id)))

decoded : Library → Option Bytes → Outcome Text
decoded lib none = err Error.authentication
decoded lib (some plaintext) =
    if is_ascii plaintext
    then (totp_key lib plaintext >>= λ _. ok plaintext)
    else err Error.authentication

-- `decrypt_totp_secret`
unfoldable pub decrypt_totp_secret : Library → Text → ℕ → Bytes → Outcome Text
unfolding decoded totp_aad
decrypt_totp_secret lib encoded_key user_id encrypted = do
  raise_if (leb (length encrypted) 12) Error.authentication
  key ← data_key lib encoded_key
  decoded lib (
      lib.aes_gcm_decrypt key (take 12 encrypted) (drop 12 encrypted)
        (totp_aad (lib.uuid_bytes user_id)))
