-- ===== src/Relocate/Arm/Types.antt =====
-- Which type `getTypeInArm` of relocate.c gives to the instructions that read the program counter,
-- and which fields its masks take out of them.
use unity_game_localization.Prelude.{
  ℕ, zero, suc, ◌+◌, ◌*◌, ◌^◌, ◌<◌, ◌≡◌, ◌≢◌, refl, sym, ◌∙◌, ◌==◌, ◌&&◌, if◌then◌else◌, bit_and,
  Bool, true, false, not, ◌||◌, ◌/◌, ◌%◌, ◌⊎◌, inl, inr, all_below, all_below_lem, arith, ==_of_ne,
  ==_of_eq,
}
use unity_game_localization.Prelude.Bits.{bit_and-split, bit_and_le, bit_and-low, bit_and-zero}
use native.Mathlib.Nat.{one-le-pow}
use unity_game_localization.Relocate.Classify.{
  InstructionType, blx_arm, bl_arm, b_arm, bx_arm, add_arm, adr1_arm, adr2_arm, ldr_arm, mov_arm,
  undefine, get_type_in_arm,
}
use unity_game_localization.Relocate.Arm.Machine.{
  Instr, load_up, load_down, add_pc, sub_pc, move_pc, exchange_pc, branch, call, call_thumb, plain,
  IsEncodable, encode,
}

-- A test by a mask on a word whose high part is known.
module _ (k high low : ℕ) (fits : low < 2 ^ k) where
  -- A value with another high part is missed.
  masked_ne :
      (a b v : ℕ)
      → b < 2 ^ k
      → ((x : ℕ) → x < 2 ^ k → bit_and high a * 2 ^ k + x ≢ v)
      → (bit_and (high * 2 ^ k + low) (a * 2 ^ k + b) == v) ≡ false
  masked_ne a b v l ne = ==_of_ne _ v λ e.
      ne (bit_and low b) (omega (arith, bit_and_le low b))
        (sym (bit_and-split k high a low b fits l) ∙ e)

  -- A mask on the high part only.
  pub masked_high : (a : ℕ) → bit_and (high * 2 ^ k + low) (a * 2 ^ k + 0) ≡ bit_and high a * 2 ^ k
  masked_high a =
      ground
        (arith, bit_and-split k high a low 0 fits (omega (arith, one-le-pow k 2)), bit_and-zero low)

-- The tests of `getTypeInArm` on the two halves of a word.
unfoldable type_of_halves : (high low : ℕ) → InstructionType
type_of_halves high low =
    if bit_and high 0xFE00 == 0xFA00
    then blx_arm
    else if bit_and high 0xF00 == 0xB00
    then bl_arm
    else if bit_and high 0xF00 == 0xA00
    then b_arm
    else if (bit_and high 0xFF0 == 0x120) && (bit_and low 0xFF == 0x1F)
    then bx_arm
    else if (bit_and high 0xFEF == 0x8F) && (bit_and low 0x10 == 0)
    then add_arm
    else if bit_and high 0xFFF == 0x28F
    then adr1_arm
    else if bit_and high 0xFFF == 0x24F
    then adr2_arm
    else if bit_and high 0xE5F == 0x41F
    then ldr_arm
    else if (bit_and high 0xFE0 == 0x1A0) && (bit_and low 0xFFF == 0xF)
    then mov_arm
    else undefine

module _ (high low : ℕ) (fits : low < 2 ^ 16) where
  pub test_high :
      (a v : ℕ)
      → (bit_and (high * 2 ^ 16 + low) (a * 2 ^ 16 + 0) == v * 2 ^ 16) ≡ (bit_and high a == v)
  test_high a v = ground (arith, masked_high 16 high low fits a)

  pub test_both :
      (a b v u : ℕ)
      → b < 2 ^ 16
      → u < 2 ^ 16
      → (bit_and (high * 2 ^ 16 + low) (a * 2 ^ 16 + b) == v * 2 ^ 16 + u)
        ≡ (bit_and high a == v) && (bit_and low b == u)
  test_both a b v u l m = ground (arith, bit_and-split 16 high a low b fits l, bit_and_le low b)

  get_type_in_arm-halves : get_type_in_arm (high * 2 ^ 16 + low) ≡ type_of_halves high low
  unfolding get_type_in_arm type_of_halves
  get_type_in_arm-halves =
      rw
        (
          test_high 0xFE00 0xFA00,
          test_high 0xF00 0xB00,
          test_high 0xF00 0xA00,
          test_both 0xFF0 0xFF 0x120 0x1F (omega arith) (omega arith),
          test_both 0xFEF 0x10 0x8F 0 (omega arith) (omega arith),
          test_high 0xFFF 0x28F,
          test_high 0xFFF 0x24F,
          test_high 0xE5F 0x41F,
          test_both 0xFE0 0xFFF 0x1A0 0xF (omega arith) (omega arith),
        )
        refl

-- The type that the source gives to each of the instructions.
unfoldable pub type_of : Instr → InstructionType
type_of (load_up rd imm) = ldr_arm
type_of (load_down rd imm) = ldr_arm
type_of (add_pc rd imm) = adr1_arm
type_of (sub_pc rd imm) = adr2_arm
type_of (move_pc rd) = mov_arm
type_of exchange_pc = bx_arm
type_of (branch offset) = b_arm
type_of (call offset) = bl_arm
type_of (call_thumb half offset) = blx_arm
type_of (plain op rn low) = undefine

-- What the tests of `getTypeInArm` on the high half make of `0xE000 + h`, for `h` of 12 bits.
abbrev misses : ℕ → Bool
misses h =
    let high = 0xE000 + h in
    not (bit_and high 0xFE00 == 0xFA00)
    && not (bit_and high 0xF00 == 0xB00)
    && not (bit_and high 0xF00 == 0xA00)
    && not (bit_and high 0xFEF == 0x8F)
    && not (bit_and high 0xFFF == 0x28F)
    && not (bit_and high 0xFFF == 0x24F)
    && not (bit_and high 0xE5F == 0x41F)

abbrev misses_register : ℕ → Bool
misses_register h =
    let high = 0xE000 + h in not (bit_and high 0xFF0 == 0x120) && not (bit_and high 0xFE0 == 0x1A0)

misses_plain : (h : ℕ) → h < 4096 → h % 16 ≢ 15 → h / 512 ≢ 5 → misses h ≡ true
unfolding all_below
misses_plain h l rn op =
    let all = all_below_lem 4096 (λ x. (x % 16 == 15) || (x / 512 == 5) || misses x) h refl l in
    rw (==_of_ne _ 15 rn, ==_of_ne _ 5 op) at all

misses_register_plain : (h : ℕ) → h < 4096 → h / 512 ≢ 0 → misses_register h ≡ true
unfolding all_below
misses_register_plain h l op =
    let all = all_below_lem 4096 (λ x. (x / 512 == 0) || misses_register x) h refl l in
    rw (==_of_ne _ 0 op) at all

type_of_halves-misses :
    (h low : ℕ)
    → misses h ≡ true
    → (misses_register h ≡ true) ⊎ (low % 16 ≢ 15)
    → type_of_halves (0xE000 + h) low ≡ undefine
unfolding type_of_halves
type_of_halves-misses h low m (inl r) = ground arith
type_of_halves-misses h low m (inr r) = ground (arith, bit_and-low 8 low, bit_and-low 12 low)

pub get_type_in_arm-encode : (i : Instr) → IsEncodable i → get_type_in_arm (encode i) ≡ type_of i
unfolding get_type_in_arm type_of_halves encode type_of IsEncodable
get_type_in_arm-encode (load_up rd imm) h =
    get_type_in_arm-halves 0xE59F (rd * 2 ^ 12 + imm) (omega arith)
get_type_in_arm-encode (load_down rd imm) h =
    get_type_in_arm-halves 0xE51F (rd * 2 ^ 12 + imm) (omega arith)
get_type_in_arm-encode (add_pc rd imm) h =
    get_type_in_arm-halves 0xE28F (rd * 2 ^ 12 + imm) (omega arith)
get_type_in_arm-encode (sub_pc rd imm) h =
    get_type_in_arm-halves 0xE24F (rd * 2 ^ 12 + imm) (omega arith)
get_type_in_arm-encode (move_pc rd) h =
    let e : (bit_and (rd * 2 ^ 12 + 15) 0xFFF == 0xF) ≡ true =
      ground (arith, bit_and-low 12 (rd * 2 ^ 12 + 15)) in
    get_type_in_arm-halves 0xE1A0 (rd * 2 ^ 12 + 15) (omega arith) ∙ rw e refl
get_type_in_arm-encode exchange_pc h = refl
get_type_in_arm-encode (branch offset) h =
    let t₁ = masked_ne 24 0xEA offset h.0 0xFE 0 0xFA000000 (omega arith) (λ x l. omega arith) in
    let t₂ = masked_ne 24 0xEA offset h.0 0xF 0 0xB000000 (omega arith) (λ x l. omega arith) in
    let t₃ = ==_of_eq _ 0xA000000 (masked_high 24 0xEA offset h.0 0xF) in rw (t₁, t₂, t₃) refl
get_type_in_arm-encode (call offset) h =
    let t₁ = masked_ne 24 0xEB offset h.0 0xFE 0 0xFA000000 (omega arith) (λ x l. omega arith) in
    let t₂ = ==_of_eq _ 0xB000000 (masked_high 24 0xEB offset h.0 0xF) in rw (t₁, t₂) refl
get_type_in_arm-encode (call_thumb zero offset) h =
    let t = ==_of_eq _ 0xFA000000 (masked_high 24 0xFA offset h.1 0xFE) in rw t refl
get_type_in_arm-encode (call_thumb (suc zero) offset) h =
    let t = ==_of_eq _ 0xFA000000 (masked_high 24 0xFB offset h.1 0xFE) in rw t refl
get_type_in_arm-encode (call_thumb (suc (suc n)) offset) h = absurd (omega arith)
get_type_in_arm-encode (plain op rn low) (f, r, l, nb, last) =
    let h = op * 16 + rn in
    let ops : h / 512 ≡ op / 32 = omega arith in
    get_type_in_arm-halves (0xE000 + h) low l
    ∙ type_of_halves-misses h low (misses_plain h (omega arith) (omega arith) (omega arith))
        (register last)
  where
    register :
        (op / 32 ≢ 0) ⊎ (low % 16 ≢ 15) → (misses_register (op * 16 + rn) ≡ true) ⊎ (low % 16 ≢ 15)
    register (inl n) = inl (misses_register_plain (op * 16 + rn) (omega arith) (omega arith))
    register (inr n) = inr n
