-- ===== src/Unicode/Decoding.antt =====
-- A decoder of UTF-8 that reads every encoded text back, for the examples.
use leakcheck_hub.Prelude.{
  ℕ, zero, suc, ◌+◌, ◌-◌, ◌*◌, ◌/◌, ◌%◌, true, false, Option, none, some, [], ◌∷◌, ◌++◌, Text,
  Bytes, ltb, if◌then◌else◌, ◌≡◌, refl, ◌∙◌, arith, inl, inr, Bool-cases,
}
use leakcheck_hub.Unicode.{utf8_char, utf8}

unfoldable pub before : ℕ → Option Text → Option Text
before c none = none
before c (some s) = some (c ∷ s)

-- What is left to read of a character, and its value so far.
unfoldable pub decode_at : ℕ → ℕ → Bytes → Option Text
unfolding before
decode_at zero value [] = some []
decode_at (suc n) value [] = none
decode_at zero value (b ∷ s) =
    let one = decode_at 0 0 s in
    let two = decode_at 1 (b - 0xc0) s in
    let three = decode_at 2 (b - 0xe0) s in
    let four = decode_at 3 (b - 0xf0) s in
    if ltb b 0x80
    then before b one
    else if ltb b 0xe0
    then two
    else if ltb b 0xf0
    then three
    else four
decode_at (suc zero) value (b ∷ s) = before (value * 64 + (b - 0x80)) (decode_at 0 0 s)
decode_at (suc (suc n)) value (b ∷ s) = decode_at (suc n) (value * 64 + (b - 0x80)) s

unfoldable pub decode : Bytes → Option Text
unfolding decode_at
decode s = decode_at 0 0 s

decode_char :
    (c : ℕ) (rest : Bytes) → decode_at 0 0 (utf8_char c ++ rest) ≡ before c (decode_at 0 0 rest)
unfolding utf8_char decode_at
decode_char c rest = elim (Bool-cases (ltb c 0x80)) [
  | inl a ↦ rw (a, a) refl
  | inr a ↦ elim (Bool-cases (ltb c 0x800)) [
    | inl b ↦
        let e : ltb (0xc0 + c / 64) 0x80 ≡ false = ground arith in
        let f : ltb (0xc0 + c / 64) 0xe0 ≡ true = ground arith in
        let v : (0xc0 + c / 64 - 0xc0) * 64 + (0x80 + c % 64 - 0x80) ≡ c = omega arith in
        rw (a, b, e, f, v) refl
    | inr b ↦ elim (Bool-cases (ltb c 0x10000)) [
      | inl d ↦
          let e : ltb (0xe0 + c / 4096) 0x80 ≡ false = ground arith in
          let f : ltb (0xe0 + c / 4096) 0xe0 ≡ false = ground arith in
          let g : ltb (0xe0 + c / 4096) 0xf0 ≡ true = ground arith in
          let v : ((0xe0 + c / 4096 - 0xe0) * 64 + (0x80 + c / 64 % 64 - 0x80)) * 64
                + (0x80 + c % 64 - 0x80)
              ≡ c =
            omega arith in
          rw (a, b, d, e, f, g, v) refl
      | inr d ↦
          let e : ltb (0xf0 + c / 262144) 0x80 ≡ false = ground arith in
          let f : ltb (0xf0 + c / 262144) 0xe0 ≡ false = ground arith in
          let g : ltb (0xf0 + c / 262144) 0xf0 ≡ false = ground arith in
          let v : (((0xf0 + c / 262144 - 0xf0) * 64 + (0x80 + c / 4096 % 64 - 0x80)) * 64
                    + (0x80 + c / 64 % 64 - 0x80))
                  * 64
                + (0x80 + c % 64 - 0x80)
              ≡ c =
            omega arith in
          rw (a, b, d, e, f, g, v) refl
    ]
  ]
]

pub decode-utf8 : (s : Text) → decode (utf8 s) ≡ some s
unfolding decode utf8 decode_at before
decode-utf8 [] = refl
decode-utf8 (c ∷ s) = decode_char c (utf8 s) ∙ rw (decode-utf8 s) refl
