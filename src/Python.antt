-- ===== src/Python.antt =====
-- What the code uses of Python's `str` and `int`: stripping, and reading a decimal integer.
use leakcheck_hub.Prelude.{
  ℕ, zero, suc, ◌+◌, ◌-◌, ◌*◌, ◌/◌, ◌%◌, Bool, false, ◌&&◌, ◌||◌, Option, none, some, [], ◌∷◌, Text,
  leb, ◌==◌, if◌then◌else◌,
}

-- A signed integer: `negsuc n` is -(n + 1).
pub data ℤ : Type 0 where
  pos : ℕ → ℤ
  negsuc : ℕ → ℤ

-- `lo <= value <= hi` for a bound that is not negative.
abbrev pub within : ℕ → ℕ → ℤ → Bool
within lo hi (pos n) = leb lo n && leb n hi
within lo hi (negsuc n) = false

-- `str.isspace` of one code point.
unfoldable pub is_space : ℕ → Bool
is_space c =
    leb 9 c && leb c 13
    || leb 28 c && leb c 32
    || c == 0x85
    || c == 0xa0
    || c == 0x1680
    || leb 0x2000 c && leb c 0x200a
    || c == 0x2028
    || c == 0x2029
    || c == 0x202f
    || c == 0x205f
    || c == 0x3000

-- `str.lstrip()`
unfoldable pub lstrip : Text → Text
unfolding is_space
lstrip [] = []
lstrip (c ∷ s) = let rest = lstrip s in if is_space c then rest else c ∷ s

-- `str.rstrip()`
unfoldable pub rstrip : Text → Text
unfolding is_space
rstrip [] = []
rstrip (c ∷ s) = elim (rstrip s) [ [] ↦ if is_space c then [] else c ∷ [] | d ∷ r ↦ c ∷ d ∷ r ]

-- `str.strip()`
unfoldable pub strip : Text → Text
unfolding lstrip rstrip
strip s = rstrip (lstrip s)

is_digit : ℕ → Bool
is_digit c = leb b'0' c && leb c b'9'

-- The digits behind a first one: one underscore may stand between two digits.
digits : ℕ → Text → Option ℕ
unfolding is_digit
digits n [] = some n
digits n (c ∷ []) = if is_digit c then some (n * 10 + (c - b'0')) else none
digits n (c ∷ d ∷ s) =
    let plain = digits (n * 10 + (c - b'0')) (d ∷ s) in
    let split = digits (n * 10 + (d - b'0')) s in
    if is_digit c then plain else if c == b'_' && is_digit d then split else none

magnitude : Text → Option ℕ
unfolding digits
magnitude [] = none
magnitude (c ∷ s) = if is_digit c then digits (c - b'0') s else none

negated : ℕ → ℤ
negated zero = pos zero
negated (suc n) = negsuc n

signed : Text → Option ℤ
unfolding magnitude negated
signed [] = none
signed (c ∷ s) =
    if c == b'-'
    then elim (magnitude s) [ none ↦ none | some n ↦ some (negated n) ]
    else elim (magnitude (if c == b'+' then s else c ∷ s)) [ none ↦ none | some n ↦ some (pos n) ]

-- `int(text)`; none is the ValueError. Digits are the ASCII ones.
unfoldable pub parse_int : Text → Option ℤ
unfolding signed strip
parse_int s = signed (strip s)

-- `str` of a number: its last digit first, before the digits already written. As many rounds as the
-- number and one are enough, since each divides by ten.
decimal_digits : (fuel n : ℕ) → Text → Text
decimal_digits zero n rest = rest
decimal_digits (suc fuel) n rest =
    let more = decimal_digits fuel (n / 10) ((b'0' + n % 10) ∷ rest) in
    if leb n 9 then (b'0' + n) ∷ rest else more

unfoldable pub decimal : ℕ → Text
unfolding decimal_digits
decimal n = decimal_digits (suc n) n []
