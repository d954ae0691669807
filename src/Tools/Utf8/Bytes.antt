-- ===== src/Tools/Utf8/Bytes.antt =====
-- The masks and shifts of `UTF8_to_Unicode` on single bytes, as divisions and remainders.
use unity_game_localization.Prelude.{
  ℕ, ◌+◌, ◌*◌, ◌/◌, ◌%◌, ◌<◌, ◌≡◌, refl, ◌==◌, bit_and, bit_or, arith, all_below, all_below_lem,
  eq_of_==,
}
use unity_game_localization.Prelude.Bits.{◌<<◌, bit_and-low, bit_or-shift}

module _ (b : ℕ) (fits : b < 256) where
  pub bit_and-0x80 : bit_and b 0x80 ≡ b / 128 * 128
  unfolding all_below
  bit_and-0x80 = eq_of_== _ _ (all_below_lem 256 (λ x. bit_and x 0x80 == x / 128 * 128) b refl fits)

  pub bit_and-0xE0 : bit_and b 0xE0 ≡ b / 32 * 32
  unfolding all_below
  bit_and-0xE0 = eq_of_== _ _ (all_below_lem 256 (λ x. bit_and x 0xE0 == x / 32 * 32) b refl fits)

  pub bit_and-0xF0 : bit_and b 0xF0 ≡ b / 16 * 16
  unfolding all_below
  bit_and-0xF0 = eq_of_== _ _ (all_below_lem 256 (λ x. bit_and x 0xF0 == x / 16 * 16) b refl fits)

  pub bit_and-0xC0 : bit_and b 0xC0 ≡ b / 64 * 64
  unfolding all_below
  bit_and-0xC0 = eq_of_== _ _ (all_below_lem 256 (λ x. bit_and x 0xC0 == x / 64 * 64) b refl fits)

-- The bits of two, three and four bytes put together again.
pub two_fields : (u : ℕ) → bit_or (u / 64 << 6) (u % 64) ≡ u
two_fields u = omega (arith, bit_or-shift 6 (u / 64) (u % 64) (omega arith))

pub three_fields : (u : ℕ) → bit_or (bit_or (u / 4096 << 12) (u / 64 % 64 << 6)) (u % 64) ≡ u
three_fields u =
    let e : bit_or (u / 4096 << 12) (u / 64 % 64 << 6) ≡ u / 64 << 6 =
      omega (arith, bit_or-shift 12 (u / 4096) (u / 64 % 64 << 6) (omega arith)) in
    rw e (two_fields u)

pub four_fields :
    (u : ℕ)
    → bit_or (bit_or (bit_or (u / 262144 << 18) (u / 4096 % 64 << 12)) (u / 64 % 64 << 6)) (u % 64)
      ≡ u
four_fields u =
    let e : bit_or (u / 262144 << 18) (u / 4096 % 64 << 12) ≡ u / 4096 << 12 =
      omega (arith, bit_or-shift 18 (u / 262144) (u / 4096 % 64 << 12) (omega arith)) in
    rw e (three_fields u)

-- What the masks show of the bytes that `encode` writes.
pub trailing-0xC0 : (x : ℕ) → x < 64 → bit_and (0x80 + x) 0xC0 ≡ 0x80
trailing-0xC0 x h = omega (arith, bit_and-0xC0 (0x80 + x) (omega arith))

pub trailing-0x3F : (x : ℕ) → x < 64 → bit_and (0x80 + x) 0x3F ≡ x
trailing-0x3F x h = omega (arith, bit_and-low 6 (0x80 + x))

pub leading-0x80 : (x : ℕ) → x < 64 → bit_and (0xC0 + x) 0x80 ≡ 0x80
leading-0x80 x h = omega (arith, bit_and-0x80 (0xC0 + x) (omega arith))

pub two-0xE0 : (x : ℕ) → x < 32 → bit_and (0xC0 + x) 0xE0 ≡ 0xC0
two-0xE0 x h = omega (arith, bit_and-0xE0 (0xC0 + x) (omega arith))

pub two-0x1F : (x : ℕ) → x < 32 → bit_and (0xC0 + x) 0x1F ≡ x
two-0x1F x h = omega (arith, bit_and-low 5 (0xC0 + x))

pub three-0x80 : (x : ℕ) → x < 16 → bit_and (0xE0 + x) 0x80 ≡ 0x80
three-0x80 x h = omega (arith, bit_and-0x80 (0xE0 + x) (omega arith))

pub three-0xE0 : (x : ℕ) → x < 16 → bit_and (0xE0 + x) 0xE0 ≡ 0xE0
three-0xE0 x h = omega (arith, bit_and-0xE0 (0xE0 + x) (omega arith))

pub three-0xF0 : (x : ℕ) → x < 16 → bit_and (0xE0 + x) 0xF0 ≡ 0xE0
three-0xF0 x h = omega (arith, bit_and-0xF0 (0xE0 + x) (omega arith))

pub three-0x0F : (x : ℕ) → x < 16 → bit_and (0xE0 + x) 0x0F ≡ x
three-0x0F x h = omega (arith, bit_and-low 4 (0xE0 + x))

pub four-0x80 : (x : ℕ) → x < 8 → bit_and (0xF0 + x) 0x80 ≡ 0x80
four-0x80 x h = omega (arith, bit_and-0x80 (0xF0 + x) (omega arith))

pub four-0xE0 : (x : ℕ) → x < 8 → bit_and (0xF0 + x) 0xE0 ≡ 0xE0
four-0xE0 x h = omega (arith, bit_and-0xE0 (0xF0 + x) (omega arith))

pub four-0xF0 : (x : ℕ) → x < 8 → bit_and (0xF0 + x) 0xF0 ≡ 0xF0
four-0xF0 x h = omega (arith, bit_and-0xF0 (0xF0 + x) (omega arith))

pub four-0x07 : (x : ℕ) → x < 8 → bit_and (0xF0 + x) 0x07 ≡ x
four-0x07 x h = omega (arith, bit_and-low 3 (0xF0 + x))
