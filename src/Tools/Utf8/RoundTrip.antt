-- ===== src/Tools/Utf8/RoundTrip.antt =====
-- `UTF8_to_Unicode` of Tools/tools.cpp on text that is encoded in UTF-8.
use unity_game_localization.Prelude.{
  ℕ, ◌+◌, ◌-◌, ◌*◌, ◌/◌, ◌%◌, ◌≤◌, ◌<◌, ◌≡◌, if◌then◌else◌, ltb, List, [], ◌∷◌, ◌++◌, some, arith,
  length, ap, ◌∙◌, ==_of_ne,
}
use unity_game_localization.Tools.Utf8.{next_char, low_byte, high_byte, convert, utf8_to_unicode}
use native.Mathlib.Decide.{dec_lt}
use unity_game_localization.Prelude.Bits.{bit_and-low}
use unity_game_localization.Tools.Utf8.Bytes.{
  bit_and-0x80, two_fields, three_fields, four_fields, trailing-0xC0, trailing-0x3F, leading-0x80,
  two-0xE0, two-0x1F, three-0x80, three-0xE0, three-0xF0, three-0x0F, four-0x80, four-0xE0,
  four-0xF0, four-0x07,
}

-- The UTF-8 form of a code point (RFC 3629).
unfoldable pub encode : ℕ → List ℕ
encode u =
    if ltb u 0x80
    then u ∷ []
    else if ltb u 0x800
    then (0xC0 + u / 64) ∷ (0x80 + u % 64) ∷ []
    else if ltb u 0x10000
    then (0xE0 + u / 4096) ∷ (0x80 + u / 64 % 64) ∷ (0x80 + u % 64) ∷ []
    else (0xF0 + u / 262144) ∷ (0x80 + u / 4096 % 64) ∷ (0x80 + u / 64 % 64) ∷ (0x80 + u % 64) ∷ []

-- The cases of `next_char` by the size of the code point.
module _ (rest : List ℕ) (u : ℕ) where
  next_char-one : u < 0x80 → next_char (u ∷ rest) ≡ some (u, 1)
  unfolding next_char
  next_char-one h = ground (arith, bit_and-0x80 u)

  next_char-two :
      0x80 ≤ u → u < 0x800 → next_char ((0xC0 + u / 64) ∷ (0x80 + u % 64) ∷ rest) ≡ some (u, 2)
  unfolding next_char
  next_char-two l h = rw (
    leading-0x80 (u / 64) (omega arith),
    two-0xE0 (u / 64) (omega arith),
    trailing-0xC0 (u % 64) (omega arith),
    trailing-0x3F (u % 64) (omega arith),
    two-0x1F (u / 64) (omega arith),
    two_fields u,
  )

  next_char-three :
      u < 0x10000
      → next_char ((0xE0 + u / 4096) ∷ (0x80 + u / 64 % 64) ∷ (0x80 + u % 64) ∷ rest) ≡ some (u, 3)
  unfolding next_char
  next_char-three h = rw (
    three-0x80 (u / 4096) (omega arith),
    three-0xE0 (u / 4096) (omega arith),
    three-0xF0 (u / 4096) (omega arith),
    trailing-0xC0 (u / 64 % 64) (omega arith),
    trailing-0xC0 (u % 64) (omega arith),
    three-0x0F (u / 4096) (omega arith),
    trailing-0x3F (u / 64 % 64) (omega arith),
    trailing-0x3F (u % 64) (omega arith),
    three_fields u,
  )

  next_char-four :
      u < 0x200000
      → next_char (
          (0xF0 + u / 262144)
          ∷ (0x80 + u / 4096 % 64)
          ∷ (0x80 + u / 64 % 64)
          ∷ (0x80 + u % 64)
          ∷ rest)
        ≡ some (u, 4)
  unfolding next_char
  next_char-four h = rw (
    four-0x80 (u / 262144) (omega arith),
    four-0xE0 (u / 262144) (omega arith),
    four-0xF0 (u / 262144) (omega arith),
    trailing-0xC0 (u / 4096 % 64) (omega arith),
    trailing-0xC0 (u / 64 % 64) (omega arith),
    trailing-0xC0 (u % 64) (omega arith),
    four-0x07 (u / 262144) (omega arith),
    trailing-0x3F (u / 4096 % 64) (omega arith),
    trailing-0x3F (u / 64 % 64) (omega arith),
    trailing-0x3F (u % 64) (omega arith),
    four_fields u,
  )

-- The text of a list of code points in UTF-8, and in UTF-16 by its low 16 bits.
unfoldable pub encode_all : List ℕ → List ℕ
unfolding encode
encode_all [] = []
encode_all (u ∷ us) = encode u ++ encode_all us

unfoldable pub utf16_units : List ℕ → List ℕ
utf16_units [] = []
utf16_units (u ∷ us) = (u % 256) ∷ (u / 256 % 256) ∷ utf16_units us

abbrev pub AllCodePoints : List ℕ → Type 0
AllCodePoints [] = Unit {0}
AllCodePoints (u ∷ us) = (0 < u) × (u < 0x200000) × AllCodePoints us

abbrev Converted : ℕ → ℕ → List ℕ → Type 0
Converted u i rest =
    convert 0 i (encode u ++ rest)
    ≡ ((u % 256) ∷ (u / 256 % 256) ∷ (convert 0 (i + 2) rest).0, (convert 0 (i + 2) rest).1)

low_byte_lem : (u : ℕ) → low_byte u ≡ u % 256
low_byte_lem u = bit_and-low 8 u

high_byte_lem : (u : ℕ) → high_byte u ≡ u / 256 % 256
high_byte_lem u = bit_and-low 8 (u / 256)

-- One round of the loop, on the code point that the bytes begin with.
convert-some :
    (b : ℕ) (src : List ℕ) (u len i : ℕ)
    → 0 < b
    → next_char (b ∷ src) ≡ some (u, len)
    → convert 0 i (b ∷ src) ≡ (
      (u % 256) ∷ (u / 256 % 256) ∷ (convert (len - 1) (i + 2) src).0,
      (convert (len - 1) (i + 2) src).1,
    )
unfolding convert
convert-some b src u len i pos h =
    rw (==_of_ne b 0 (omega arith), convert)
      (rw (h, convert) (rw (low_byte_lem u, high_byte_lem u)))

encode-one : (u : ℕ) → u < 0x80 → encode u ≡ u ∷ []
unfolding encode
encode-one u h = ground arith

encode-two : (u : ℕ) → 0x80 ≤ u → u < 0x800 → encode u ≡ (0xC0 + u / 64) ∷ (0x80 + u % 64) ∷ []
unfolding encode
encode-two u l h = ground arith

encode-three :
    (u : ℕ)
    → 0x800 ≤ u
    → u < 0x10000
    → encode u ≡ (0xE0 + u / 4096) ∷ (0x80 + u / 64 % 64) ∷ (0x80 + u % 64) ∷ []
unfolding encode
encode-three u l h = ground arith

encode-four :
    (u : ℕ)
    → 0x10000 ≤ u
    → encode u
      ≡ (0xF0 + u / 262144) ∷ (0x80 + u / 4096 % 64) ∷ (0x80 + u / 64 % 64) ∷ (0x80 + u % 64) ∷ []
unfolding encode
encode-four u l = ground arith

convert-encode : (u i : ℕ) (rest : List ℕ) → 0 < u → u < 0x200000 → Converted u i rest
unfolding convert
convert-encode u i rest pos h = elim (dec_lt u 0x80) [
  | yes one ↦ rw (encode-one u one) (convert-some _ _ u 1 i pos (next_char-one rest u one))
  | no more ↦ elim (dec_lt u 0x800) [
    | yes two ↦
        rw (encode-two u (omega arith) two)
          (convert-some _ _ u 2 i (omega arith) (next_char-two rest u (omega arith) two))
    | no more ↦ elim (dec_lt u 0x10000) [
      | yes three ↦
          rw (encode-three u (omega arith) three)
            (convert-some _ _ u 3 i (omega arith) (next_char-three rest u three))
      | no more ↦
          rw (encode-four u (omega arith))
            (convert-some _ _ u 4 i (omega arith) (next_char-four rest u h))
    ]
  ]
]

convert-encode_all :
    (us : List ℕ) (i : ℕ)
    → AllCodePoints us
    → convert 0 i (encode_all us) ≡ (utf16_units us, i + 2 * length us)
unfolding convert encode_all utf16_units
convert-encode_all [] i h = ap (λ (n : ℕ). ([], n)) (omega arith)
convert-encode_all (u ∷ us) i h =
    rw (convert-encode u i (encode_all us) h.0 h.1, convert-encode_all us (i + 2) h.2)
      (ap (λ (n : ℕ). ((u % 256) ∷ (u / 256 % 256) ∷ utf16_units us, n)) (omega arith))

-- UTF-8 text of code points from 1 to 0x1FFFFF is converted to one 16-bit unit for each, low byte
-- first, and two bytes are counted for each; a code point above 0xFFFF keeps only its low 16 bits.
pub utf8_to_unicode-encode :
    (us : List ℕ)
    → AllCodePoints us
    → utf8_to_unicode (encode_all us) ≡ (utf16_units us, 2 * length us)
unfolding utf8_to_unicode
utf8_to_unicode-encode us h =
    convert-encode_all us 0 h ∙ ap (λ (n : ℕ). (utf16_units us, n)) (omega arith)
