-- ===== src/Ingest/Normalization.antt =====
-- app/normalization.py: the normal forms of the identities in a vendor's record.
use leakcheck_hub.Prelude.{
  ℕ, Bool, true, false, not, ◌&&◌, ◌||◌, Option, none, some, List, [], ◌∷◌, ◌++◌, Text, codes, ltb,
  leb, ◌==◌, if◌then◌else◌, length, any, all, count, Outcome, ok, err, Error, ◌>>=◌, raise_if, ◌>>◌,
}
use leakcheck_hub.Python.{strip, is_space}
use leakcheck_hub.Ingest.Library.{Library}

is_blank : Text → Bool
is_blank [] = true
is_blank (c ∷ s) = false

-- `_bounded`
bounded : ℕ → Text → Outcome Text
bounded maximum value =
    if ltb maximum (length value) then err Error.normalization_error else ok value

-- `text.rsplit("@", maxsplit=1)` of a text with one `@`: what stands before it and after it.
split_at : Text → Text × Text
split_at [] = ([], [])
split_at (c ∷ s) =
    let (before, after) = split_at s in if c == b'@' then ([], s) else (c ∷ before, after)

-- `text.split(".")`
labels : Text → List Text
labels [] = [] ∷ []
labels (c ∷ s) = elim (labels s) [
  | [] ↦ [] ∷ []
  | l ∷ ls ↦ if c == b'.' then [] ∷ l ∷ ls else (c ∷ l) ∷ ls
]

-- `text.rstrip(".")`
rstrip_dots : Text → Text
rstrip_dots [] = []
rstrip_dots (c ∷ s) = elim (rstrip_dots s) [
  | [] ↦ if c == b'.' then [] else c ∷ []
  | d ∷ r ↦ c ∷ d ∷ r
]

-- `isalnum` or a dash, on the ASCII text that IDNA gives.
is_label_char : ℕ → Bool
is_label_char c =
    leb b'0' c && leb c b'9' || leb b'A' c && leb c b'Z' || leb b'a' c && leb c b'z' || c == b'-'

starts_dash : Text → Bool
starts_dash [] = false
starts_dash (c ∷ s) = c == b'-'

ends_dash : Text → Bool
ends_dash [] = false
ends_dash (c ∷ []) = c == b'-'
ends_dash (c ∷ d ∷ s) = ends_dash (d ∷ s)

is_bad_label : Text → Bool
unfolding is_blank starts_dash ends_dash all is_label_char
is_bad_label l =
    is_blank l || ltb 63 (length l) || starts_dash l || ends_dash l || not (all is_label_char l)

-- The characters that `normalize_phone` drops: `[\s().-]`.
is_phone_filler : ℕ → Bool
unfolding is_space
is_phone_filler c = is_space c || c == b'(' || c == b')' || c == b'.' || c == b'-'

compact : Text → Text
unfolding is_phone_filler
compact [] = []
compact (c ∷ s) = let rest = compact s in if is_phone_filler c then rest else c ∷ rest

is_ascii_digit : ℕ → Bool
is_ascii_digit c = leb b'0' c && leb c b'9'

-- `^\+[1-9][0-9]{7,14}$` as a full match
is_phone : Text → Bool
unfolding is_ascii_digit all
is_phone (p ∷ d ∷ s) =
    p == b'+'
    && leb b'1' d
    && leb d b'9'
    && all is_ascii_digit s
    && leb 7 (length s)
    && leb (length s) 14
is_phone _ = false

module _ (lib : Library) where
  -- `_text`
  pub text : Text → Outcome Text
  unfolding is_blank all
  text value =
      let normalized = strip (lib.nfkc value) in
      if is_blank normalized || not (all lib.is_printable normalized)
      then err Error.normalization_error
      else ok normalized

  checked_domain : Text → Outcome Text
  unfolding labels any is_bad_label
  checked_domain normalized =
      if ltb 253 (length normalized)
        || ltb (length (labels normalized)) 2
        || any is_bad_label (labels normalized)
      then err Error.normalization_error
      else ok normalized

  pub normalize_domain : Text → Outcome Text
  unfolding rstrip_dots checked_domain
  normalize_domain value = do
    domain ← text value
    elim (lib.idna (rstrip_dots (lib.casefold domain))) [
      | none ↦ err Error.normalization_error
      | some normalized ↦ checked_domain normalized
    ]

  pub normalize_email : Text → Outcome Text
  unfolding bounded split_at count any is_space is_blank
  normalize_email raw = do
    cleaned ← text raw
    value ← bounded 320 (lib.casefold cleaned)
    raise_if (not (count (λ c. c == b'@') value == 1)) Error.normalization_error
    let parts = split_at value
    raise_if (is_blank parts.0 || any is_space parts.0) Error.normalization_error
    domain ← normalize_domain parts.1
    ok (parts.0 ++ codes "@" ++ domain)

  pub normalize_phone : Text → Outcome Text
  unfolding compact is_phone
  normalize_phone value = do
    cleaned ← text value
    let short = compact cleaned
    if is_phone short then ok short else err Error.normalization_error

  -- The normal form, or where it is refused the folded text, bounded.
  or_folded : ℕ → Outcome Text → Text → Outcome Text
  unfolding bounded
  or_folded maximum (ok normalized) value = ok normalized
  or_folded maximum (err Error.normalization_error) value =
      text value >>= λ cleaned. bounded maximum (lib.casefold cleaned)
  or_folded maximum (err e) value = err e

  unfoldable pub normalize_optional_email : Option Text → Outcome Text
  unfolding or_folded
  normalize_optional_email none = ok []
  normalize_optional_email (some []) = ok []
  normalize_optional_email (some (c ∷ s)) = or_folded 320 (normalize_email (c ∷ s)) (c ∷ s)

  unfoldable pub normalize_optional_username : Option Text → Outcome Text
  unfolding bounded
  normalize_optional_username none = ok []
  normalize_optional_username (some []) = ok []
  normalize_optional_username (some (c ∷ s)) =
      text (c ∷ s) >>= λ cleaned. bounded 1024 (lib.casefold cleaned)

  unfoldable pub normalize_optional_phone : Option Text → Outcome Text
  unfolding or_folded
  normalize_optional_phone none = ok []
  normalize_optional_phone (some []) = ok []
  normalize_optional_phone (some (c ∷ s)) = or_folded 64 (normalize_phone (c ∷ s)) (c ∷ s)
