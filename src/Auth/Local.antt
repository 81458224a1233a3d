-- ===== src/Auth/Local.antt =====
-- app/auth/local.py: passwords, normal forms and what the module takes from libraries. Salts, nonces
-- and instants are arguments.
pub mod Totp
pub mod Provisioning
pub mod Logins
mod Sample
mod Examples
use leakcheck_hub.Prelude.{
  ℕ, zero, suc, ◌-◌, ◌%◌, Bool, false, not, ◌&&◌, ◌||◌, Option, none, some, [], ◌∷◌, ◌++◌, Text,
  Bytes, codes, ltb, leb, ◌==◌, if◌then◌else◌, length, all, Outcome, ok, err, Error,
}
use leakcheck_hub.Unicode.{utf8}
use leakcheck_hub.Python.{strip}

-- `lower` is `str.lower`, `same_email` the equality of CITEXT; none is binascii.Error, InvalidTag and
-- the ValueError of `ipaddress`. The Argon2 functions raise `invalid_hash` and `verification`.
pub record Library : Type 0 where
  pub lower : Text → Text
  pub same_email : Text → Text → Bool
  pub hmac_sha1 : Bytes → Bytes → Bytes
  pub hmac_sha256 : Bytes → Bytes → Bytes
  pub b32decode : Text → Option Bytes
  pub urlsafe_b64decode : Text → Option Bytes
  pub b32encode : Bytes → Text
  pub aes_gcm_encrypt : (key nonce plaintext aad : Bytes) → Bytes
  pub aes_gcm_decrypt : (key nonce ciphertext aad : Bytes) → Option Bytes
  pub argon2_hash : (salt : Bytes) → Text → Text
  pub argon2_verify : Text → Text → Outcome Bool
  pub argon2_needs_rehash : Text → Outcome Bool
  pub ip_address : Text → Option Text
  pub uuid_bytes : ℕ → Bytes

-- `str.isascii`
unfoldable pub is_ascii : Text → Bool
unfolding all
is_ascii s = all (λ c. ltb c 128) s

abbrev pub is_alnum : ℕ → Bool
is_alnum c = leb b'A' c && leb c b'Z' || leb b'a' c && leb c b'z' || leb b'0' c && leb c b'9'

-- `[A-Za-z0-9.!#$%&'*+/=?^_`{|}~-]`
is_local_char : ℕ → Bool
is_local_char c =
    is_alnum c
    || c == b'.'
    || c == b'!'
    || leb b'#' c && leb c b'\''
    || c == b'*'
    || c == b'+'
    || c == b'/'
    || c == b'='
    || c == b'?'
    || leb b'^' c && leb c b'`'
    || leb b'{' c && leb c b'~'
    || c == b'-'

-- The rest of a label of `n` characters already read, the last of which is `last`; `more` labels are
-- still wanted. A label has at most 63 characters and no dash at its ends.
is_domain_rest : Text → (n last more : ℕ) → Bool
is_domain_rest [] n last more = is_alnum last && leb n 63 && more == 0
is_domain_rest (c ∷ s) n last more =
    let same = is_domain_rest s (suc n) c more in
    let next = is_domain_rest s 0 b'-' (more - 1) in
    if c == b'.'
    then is_alnum last && leb n 63 && next
    else if n == 0
    then is_alnum c && same
    else (is_alnum c || c == b'-') && same

-- The characters up to the `@`, of which `n` were read.
is_address : Text → ℕ → Bool
unfolding is_local_char is_domain_rest
is_address [] n = false
is_address (c ∷ s) n =
    let rest = is_address s (suc n) in
    if c == b'@' then not (n == 0) && is_domain_rest s 0 b'-' 1 else is_local_char c && rest

-- `normalise_admin_email`
pub normalise_admin_email : Library → Text → Outcome Text
unfolding strip is_ascii is_address
normalise_admin_email lib email =
    let normalised = lib.lower (strip email) in
    if not (is_ascii normalised) || ltb 255 (length normalised) || not (is_address normalised 0)
    then err Error.authentication
    else ok normalised

-- `normalise_display_name`
pub normalise_display_name : Text → Outcome Text
unfolding strip
normalise_display_name name =
    let normalised = strip name in
    if length normalised == 0 || ltb 255 (length normalised)
    then err Error.authentication
    else ok normalised

-- `_normalise_login_email`: a normal form, or none where it is refused.
some_or_none : Outcome Text → Option Text
some_or_none (ok email) = some email
some_or_none (err e) = none

pub normalise_login_email : Library → Text → Option Text
unfolding some_or_none normalise_admin_email
normalise_login_email lib email = some_or_none (normalise_admin_email lib email)

-- `hash_password` behind `_validate_new_password`.
pub hash_password : Library → Bytes → Text → Outcome Text
unfolding utf8
hash_password lib salt password =
    let size = length (utf8 password) in
    if not (leb 15 size && leb size 1024)
    then err Error.authentication
    else ok (lib.argon2_hash salt password)

-- A test of Argon2 whose refusals are answered with no: `verify_password` and
-- `_password_needs_rehash`, which lets other failures than an invalid hash through.
caught : Outcome Bool → Outcome Bool
caught (err Error.invalid_hash) = ok false
caught (err Error.verification) = ok false
caught result = result

pub verify_password : Library → Text → Text → Outcome Bool
unfolding caught
verify_password lib hash password = caught (lib.argon2_verify hash password)

caught_invalid : Outcome Bool → Outcome Bool
caught_invalid (err Error.invalid_hash) = ok false
caught_invalid result = result

pub password_needs_rehash : Library → Text → Outcome Bool
unfolding caught_invalid
password_needs_rehash lib hash = caught_invalid (lib.argon2_needs_rehash hash)

unfoldable pub equals_signs : ℕ → Text
equals_signs zero = []
equals_signs (suc n) = b'=' ∷ equals_signs n

-- `_data_key`
pub data_key : Library → Text → Outcome Bytes
unfolding equals_signs is_ascii
data_key lib encoded =
    if is_ascii encoded
    then elim (lib.urlsafe_b64decode (encoded ++ equals_signs ((4 - length encoded % 4) % 4))) [
      | none ↦ err Error.authentication
      | some key ↦ ok key
    ]
    else err Error.authentication

-- `_canonical_ip`
pub canonical_ip : Library → Text → Outcome Text
canonical_ip lib value = elim (lib.ip_address value) [
  | none ↦ err Error.authentication
  | some ip ↦ ok ip
]
