-- ===== src/Tools/Utf8.antt =====
-- `UTF8_to_Unicode` of Tools/tools.cpp. A C string is the list of its bytes before the
-- terminating NUL; a read at its end gives that NUL.
pub mod Bytes
pub mod RoundTrip
pub mod Bounds
use unity_game_localization.Prelude.{
  ℕ, zero, suc, ◌+◌, ◌-◌, ◌==◌, if◌then◌else◌, get_or, bit_and, bit_or, ◌&&◌, List, [], ◌∷◌, Option,
  none, some,
}
use unity_game_localization.Prelude.Bits.{◌<<◌, ◌>>◌}

-- The code point that `src` begins with and the number of its bytes; `none` where the loop breaks.
unfoldable pub next_char : List ℕ → Option (ℕ × ℕ)
next_char src =
    let b0 = get_or src 0 0 in
    let b1 = get_or src 1 0 in
    let b2 = get_or src 2 0 in
    let b3 = get_or src 3 0 in
    if bit_and b0 0x80 == 0
    then some (b0, 1)
    else if (bit_and b0 0xE0 == 0xC0) && (bit_and b1 0xC0 == 0x80)
    then some (bit_or (bit_and b0 0x1F << 6) (bit_and b1 0x3F), 2)
    else if (bit_and b0 0xF0 == 0xE0) && (bit_and b1 0xC0 == 0x80) && (bit_and b2 0xC0 == 0x80)
    then some (bit_or (bit_or (bit_and b0 0x0F << 12) (bit_and b1 0x3F << 6)) (bit_and b2 0x3F), 3)
    else if (bit_and b0 0xF0 == 0xF0)
        && (bit_and b1 0xC0 == 0x80)
        && (bit_and b2 0xC0 == 0x80)
        && (bit_and b3 0xC0 == 0x80)
    then some (
      bit_or
          (bit_or (bit_or (bit_and b0 0x07 << 18) (bit_and b1 0x3F << 12)) (bit_and b2 0x3F << 6))
          (bit_and b3 0x3F),
      4,
    )
    else none

-- The two bytes written for a code point: the low 16 bits of it, low byte first.
abbrev pub low_byte : ℕ → ℕ
low_byte unicode = bit_and unicode 0xff

abbrev pub high_byte : ℕ → ℕ
high_byte unicode = bit_and (unicode >> 8) 0xff

-- The loop: the bytes that it writes from `dst` on, and the last value of the counter `i`.
-- `src += codeLen` steps over the first byte at once and over the other `skip` bytes in the next
-- rounds.
unfoldable pub convert : (skip i : ℕ) → List ℕ → List ℕ × ℕ
convert skip i [] = ([], i)
convert (suc skip) i (b ∷ src) = convert skip i src
convert zero i (b ∷ src) = elim (if b == 0 then none else next_char (b ∷ src)) [
  | none ↦ ([], i)
  | some (unicode, code_len) ↦
      let (dst, total) = convert (code_len - 1) (i + 2) src in
      (low_byte unicode ∷ high_byte unicode ∷ dst, total)
]

-- The bytes written to `dst` before the final NUL, and the returned count.
unfoldable pub utf8_to_unicode : List ℕ → List ℕ × ℕ
unfolding convert next_char
utf8_to_unicode src = convert 0 0 src
