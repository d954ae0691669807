-- ===== src/Prelude/Bits.antt =====
-- Shifts, and `|` and `&` of fields as arithmetic: the native bit operations have no laws at
-- variables but the digit recursion that they stand for.
use Prim.Native.Nat.{
  ℕ, zero, suc, ◌+◌, ◌-◌, ◌*◌, ◌/◌, ◌%◌, ◌^◌, ◌≤◌, ◌<◌, min, max, bit_and, bit_or, digits,
  bit_and-bitwise, bit_or-bitwise,
}
use mathlib.Core.Path.{◌≡◌, refl, ap, ◌∙◌}
use native.Mathlib.Nat.{pow-suc, one-le-pow}
use native.Mathlib.Omega.{arith}

-- `x << k` before it is cut to its type's width, and `x >> k`.
infixl 60 ◌<<◌ ◌>>◌
abbrev pub ◌<<◌ : ℕ → ℕ → ℕ
x << k = x * 2 ^ k

abbrev pub ◌>>◌ : ℕ → ℕ → ℕ
x >> k = x / 2 ^ k

-- Casts to the fixed widths.
abbrev pub u8 : ℕ → ℕ
u8 x = x % 256

abbrev pub u16 : ℕ → ℕ
u16 x = x % 65536

abbrev pub u32 : ℕ → ℕ
u32 x = x % 4294967296

-- A recursion on digits stops changing once its fuel reaches its first number.
module _ (z : ℕ → ℕ) (f : ℕ → ℕ → ℕ) where
  digits-extra_fuel : (k n a b : ℕ) → a ≤ n → digits z f (n + k) a b ≡ digits z f n a b
  digits-extra_fuel k n zero b h = at_zero (n + k) n
    where
      at_zero : (m l : ℕ) → digits z f m 0 b ≡ digits z f l 0 b
      at_zero zero zero = refl
      at_zero zero (suc l) = refl
      at_zero (suc m) zero = refl
      at_zero (suc m) (suc l) = refl
  digits-extra_fuel k zero (suc a) b h = absurd (omega arith)
  digits-extra_fuel k (suc n) (suc a) b h =
      let e : suc n + k ≡ suc (n + k) = omega arith in
      rw (e, digits-extra_fuel k n (suc a / 2) (b / 2) (omega arith))

  pub digits-half : (a b : ℕ) → digits z f a (suc a / 2) b ≡ digits z f (suc a / 2) (suc a / 2) b
  digits-half a b =
      let e : a ≡ suc a / 2 + (a - suc a / 2) = omega arith in
      ap (λ (n : ℕ). digits z f n (suc a / 2) b) e
      ∙ digits-extra_fuel (a - suc a / 2) (suc a / 2) (suc a / 2) b (omega arith)

-- One equation for the lowest digit of each operation.
pub bit_and_step : (a b : ℕ) → bit_and a b ≡ bit_and (a / 2) (b / 2) * 2 + min (a % 2) (b % 2)
bit_and_step zero b = omega (arith, bit_and-bitwise 0 b, bit_and-bitwise 0 (b / 2))
bit_and_step (suc a) b = omega (
  arith,
  bit_and-bitwise (suc a) b,
  bit_and-bitwise (suc a / 2) (b / 2),
  digits-half (λ y. 0) min a (b / 2),
)

pub bit_or_step : (a b : ℕ) → bit_or a b ≡ bit_or (a / 2) (b / 2) * 2 + max (a % 2) (b % 2)
bit_or_step zero b = omega (arith, bit_or-bitwise 0 b, bit_or-bitwise 0 (b / 2))
bit_or_step (suc a) b = omega (
  arith,
  bit_or-bitwise (suc a) b,
  bit_or-bitwise (suc a / 2) (b / 2),
  digits-half (λ y. y) max a (b / 2),
)

bit_and-zero_below : (n a : ℕ) → a ≤ n → bit_and a 0 ≡ 0
bit_and-zero_below n zero h = refl
bit_and-zero_below zero (suc a) h = absurd (omega arith)
bit_and-zero_below (suc n) (suc a) h =
    omega (arith, bit_and_step (suc a) 0, bit_and-zero_below n (suc a / 2) (omega arith))

pub bit_and-zero : (a : ℕ) → bit_and a 0 ≡ 0
bit_and-zero a = bit_and-zero_below a a (omega arith)

bit_or-zero_below : (n a : ℕ) → a ≤ n → bit_or a 0 ≡ a
bit_or-zero_below n zero h = refl
bit_or-zero_below zero (suc a) h = absurd (omega arith)
bit_or-zero_below (suc n) (suc a) h =
    omega (arith, bit_or_step (suc a) 0, bit_or-zero_below n (suc a / 2) (omega arith))

pub bit_or-zero : (a : ℕ) → bit_or a 0 ≡ a
bit_or-zero a = bit_or-zero_below a a (omega arith)

double_shift : (h k : ℕ) → h * 2 ^ suc k ≡ 2 * (h * 2 ^ k)
double_shift h k = omega (arith, ap (λ (t : ℕ). h * t) (pow-suc 2 k))

-- A field below bit `k` is what the mask of the `k` low bits keeps.
bit_and-low_field : (k h x : ℕ) → x < 2 ^ k → bit_and (h * 2 ^ k + x) (2 ^ k - 1) ≡ x
bit_and-low_field zero h x fits = rw bit_and-zero (omega arith)
bit_and-low_field (suc k) h x fits = ground (
  arith,
  double_shift h k,
  pow-suc 2 k,
  one-le-pow k 2,
  bit_and_step (h * 2 ^ suc k + x) (2 ^ suc k - 1),
  bit_and-low_field k h (x / 2),
)

-- `x & (2 ^ k - 1)` is the remainder.
pub bit_and-low : (k x : ℕ) → bit_and x (2 ^ k - 1) ≡ x % 2 ^ k
bit_and-low k x = ground (arith, one-le-pow k 2, bit_and-low_field k (x / 2 ^ k) (x % 2 ^ k))

-- `(h << k) | x` is a sum when `x` fits into `k` bits.
pub bit_or-shift : (k h x : ℕ) → x < 2 ^ k → bit_or (h << k) x ≡ h * 2 ^ k + x
bit_or-shift zero h x fits = ground (arith, bit_or-zero h)
bit_or-shift (suc k) h x fits =
    ground (
      arith,
      double_shift h k,
      pow-suc 2 k,
      bit_or_step (h * 2 ^ suc k) x,
      bit_or-shift k h (x / 2),
    )

-- Two numbers that are cut at bit `k` are masked part by part.
pub bit_and-split :
    (k a b x y : ℕ)
    → x < 2 ^ k
    → y < 2 ^ k
    → bit_and (a * 2 ^ k + x) (b * 2 ^ k + y) ≡ bit_and a b * 2 ^ k + bit_and x y
bit_and-split zero a b x y l m =
    let e : x ≡ 0 = omega arith in let e' : y ≡ 0 = omega arith in rw (e, e') (ground arith)
bit_and-split (suc k) a b x y l m = ground (
  arith,
  double_shift a k,
  double_shift b k,
  double_shift (bit_and a b) k,
  pow-suc 2 k,
  bit_and_step (a * 2 ^ suc k + x) (b * 2 ^ suc k + y),
  bit_and_step x y,
  bit_and-split k a b (x / 2) (y / 2),
)

bit_and_le_below : (n a b : ℕ) → a ≤ n → bit_and a b ≤ a
bit_and_le_below n zero b h = omega (arith, bit_and-bitwise 0 b)
bit_and_le_below zero (suc a) b h = absurd (omega arith)
bit_and_le_below (suc n) (suc a) b h =
    omega (arith, bit_and_step (suc a) b, bit_and_le_below n (suc a / 2) (b / 2) (omega arith))

pub bit_and_le : (a b : ℕ) → bit_and a b ≤ a
bit_and_le a b = bit_and_le_below a a b (omega arith)

bit_or_comm_below : (n a b : ℕ) → a + b ≤ n → bit_or a b ≡ bit_or b a
bit_or_comm_below n zero b h = omega (arith, bit_or-bitwise 0 b, bit_or-zero b)
bit_or_comm_below n (suc a) zero h = omega (arith, bit_or-bitwise 0 (suc a), bit_or-zero (suc a))
bit_or_comm_below zero (suc a) (suc b) h = absurd (omega arith)
bit_or_comm_below (suc n) (suc a) (suc b) h = omega (
  arith,
  bit_or_step (suc a) (suc b),
  bit_or_step (suc b) (suc a),
  bit_or_comm_below n (suc a / 2) (suc b / 2) (omega arith),
)

pub bit_or_comm : (a b : ℕ) → bit_or a b ≡ bit_or b a
bit_or_comm a b = bit_or_comm_below (a + b) a b (omega arith)
