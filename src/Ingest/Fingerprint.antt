-- ===== src/Ingest/Fingerprint.antt =====
-- app/ingest.py: the source and the identity of a record, and the digests over length-prefixed parts.
mod Framing
pub mod Sanitized
mod Examples
unfoldable pub use Framing.*
use leakcheck_hub.Prelude.{
  ℕ, zero, suc, Bool, true, false, not, ◌&&◌, ◌||◌, Option, none, some, List, [], ◌∷◌, ◌++◌, Text,
  Bytes, codes, text_eq, length, take, map, if◌then◌else◌,
}
use leakcheck_hub.Python.{strip}
use leakcheck_hub.Unicode.{utf8}
use leakcheck_hub.Models.{Subject, SubjectKind, Json, Items, Fields}
use leakcheck_hub.LeakCheck.Records.{BreachSource}
use leakcheck_hub.Ingest.Library.{Library}

-- `UNKNOWN_DATE` is the first day of the calendar; days are numbered from it.
abbrev pub unknown_date : ℕ
unknown_date = 1

abbrev pub unknown_source : Text
unknown_source = codes "Unknown"

pub record SourceIdentity : Type 0 where
  pub name : Text
  pub name_norm : Text
  pub breach_date : Option ℕ
  pub breach_date_norm : ℕ
  pub unverified : Option Bool
  pub passwordless : Option Bool
  pub compilation : Option Bool
  pub extra : Fields

-- `value or other` on an optional text.
or_else : Option Text → Text → Text
or_else none other = other
or_else (some []) other = other
or_else (some (c ∷ s)) other = c ∷ s

json_text : Option Text → Json
json_text none = Json.null
json_text (some s) = Json.string s

-- `SubjectKind.value`
pub kind_value : SubjectKind → Text
kind_value SubjectKind.email = codes "email"
kind_value SubjectKind.domain = codes "domain"
kind_value SubjectKind.username = codes "username"
kind_value SubjectKind.phone = codes "phone"
kind_value SubjectKind.origin = codes "origin"
kind_value SubjectKind.password = codes "password"

-- `_ZERO_PASSWORD_HASH`
zeros : ℕ → Bytes
zeros zero = []
zeros (suc n) = 0 ∷ zeros n

abbrev password_part : Option Bytes → Bytes
password_part none = zeros 32
password_part (some digest) = digest

module _ (lib : Library) where
  -- `_parse_date`
  parsed_date : Option Text → Option ℕ
  parsed_date none = none
  parsed_date (some []) = none
  parsed_date (some (c ∷ s)) = lib.parse_date (c ∷ s)

  -- A character that cannot be printed becomes the replacement character.
  shown : Text → Text
  shown [] = []
  shown (c ∷ s) = (if lib.is_printable c then c else 0xfffd) ∷ shown s

  source_name : Option Text → Text
  unfolding shown or_else
  source_name name =
      take 1024
        (shown (or_else (some (strip (lib.nfkc (or_else name unknown_source)))) unknown_source))

  pub normalize_source : BreachSource → SourceIdentity
  unfolding source_name parsed_date json_text
  normalize_source source =
      let name = source_name source.name in
      let breach_date = parsed_date source.breach_date in
      record {
        name = name;
        name_norm = lib.casefold name;
        breach_date = breach_date;
        breach_date_norm = elim breach_date [ none ↦ unknown_date | some d ↦ d ];
        unverified = source.unverified;
        passwordless = source.passwordless;
        compilation = source.compilation;
        extra =
            Fields.field (codes "vendor_name") (json_text source.name)
              (Fields.field (codes "vendor_breach_date") (json_text source.breach_date) Fields.end);
      }

  -- The parts that `finding_fingerprint` digests.
  pub fingerprint_parts :
      Subject
      → SourceIdentity
      → (email_norm username_norm phone_norm : Text) → Option Bytes
      → List Bytes
  unfolding kind_value zeros
  fingerprint_parts subject source email_norm username_norm phone_norm password_sha256 =
      utf8 (kind_value subject.kind)
      ∷ utf8 subject.value_norm
      ∷ utf8 source.name_norm
      ∷ utf8 (lib.iso_date source.breach_date_norm)
      ∷ utf8 email_norm
      ∷ utf8 username_norm
      ∷ utf8 phone_norm
      ∷ password_part password_sha256
      ∷ []

  pub finding_fingerprint :
      Subject → SourceIdentity → (email_norm username_norm phone_norm : Text) → Option Bytes → Bytes
  finding_fingerprint subject source email_norm username_norm phone_norm password_sha256 =
      lib.sha256 (
        framed
          (fingerprint_parts subject source email_norm username_norm phone_norm password_sha256))

  -- `_identity_key`; none when the record names nobody.
  pub identity_key : (email username phone : Text) → Option Bytes
  identity_key [] [] [] = none
  identity_key email username phone =
      some (lib.sha256 (framed (utf8 email ∷ utf8 username ∷ utf8 phone ∷ [])))

  -- `_sanitized_raw` and `_sanitize_value`: no key that folds to `password`, at any depth.
  mutual
    pub sanitized_raw : Fields → Fields
    sanitized_raw Fields.end = Fields.end
    sanitized_raw (Fields.field key item rest) =
        let others = sanitized_raw rest in
        let kept = Fields.field key (sanitize_value item) others in
        if text_eq (lib.casefold key) (codes "password") then others else kept

    pub sanitize_value : Json → Json
    sanitize_value (Json.object fields) = Json.object (sanitized_raw fields)
    sanitize_value (Json.array items) = Json.array (sanitize_items items)
    sanitize_value other = other

    pub sanitize_items : Items → Items
    sanitize_items Items.nil = Items.nil
    sanitize_items (Items.cons v rest) = Items.cons (sanitize_value v) (sanitize_items rest)
