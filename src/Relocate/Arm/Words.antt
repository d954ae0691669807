-- ===== src/Relocate/Arm/Words.antt =====
-- The words that `relocateInstructionInArm` of relocate.c emits, as instructions and a literal.
use unity_game_localization.Prelude.{
  ℕ, zero, suc, ◌+◌, ◌-◌, ◌*◌, ◌/◌, ◌^◌, ◌<◌, ◌≡◌, refl, ap, ap₂, ◌∙◌, ◌==◌, List, [], ◌∷◌, bit_and,
  bit_or, true, false, arith, Bool-cases, ltb, inl, inr,
}
use unity_game_localization.Prelude.Bits.{
  ◌<<◌, ◌>>◌, u32, bit_and-split, bit_and-low, bit_or-shift, bit_or_comm, bit_and-zero, bit_or-zero,
}
use unity_game_localization.Relocate.Arm.{
  extend26, x_b_arm, x_blx_arm, rd_arm, branch_arm, load_literal_arm, ldr_arm_address,
  relocate_by_type_arm,
}
use unity_game_localization.Relocate.Arm.Machine.{
  Instr, load_up, load_down, add_pc, sub_pc, move_pc, exchange_pc, branch, call, call_thumb, plain,
  IsEncodable, encode, distance,
}
use unity_game_localization.Relocate.Arm.Types.{masked_high, type_of}

-- The literal: what the instruction loads or computes, or where it goes, with the bit for the mode.
unfoldable pub literal : (load : ℕ → ℕ) → Instr → (place : ℕ) → ℕ
literal load (load_up rd imm) place = load (u32 (place + 8 + imm))
literal load (load_down rd imm) place = load (u32 (place + 8 + 2 ^ 32 - imm))
literal load (add_pc rd imm) place = u32 (place + 8 + imm)
literal load (sub_pc rd imm) place = u32 (place + 8 + 2 ^ 32 - imm)
literal load (move_pc rd) place = u32 (place + 8)
literal load exchange_pc place = u32 (place + 8)
literal load (branch offset) place = u32 (place + 8 + distance offset)
literal load (call offset) place = u32 (place + 8 + distance offset)
literal load (call_thumb half offset) place = u32 (place + 8 + distance offset + 2 * half + 1)
literal load (plain op rn low) place = 0

abbrev pub loaded : (rd value : ℕ) → List ℕ
loaded rd value = encode (load_down rd 0) ∷ encode (add_pc 15 0) ∷ value ∷ []

abbrev pub jumped : (value : ℕ) → List ℕ
jumped value = encode (load_down 15 4) ∷ value ∷ []

abbrev pub called : (value : ℕ) → List ℕ
called value = encode (add_pc 14 4) ∷ jumped value

unfoldable pub emitted : Instr → (value : ℕ) → List ℕ
emitted (load_up rd imm) value = loaded rd value
emitted (load_down rd imm) value = loaded rd value
emitted (add_pc rd imm) value = loaded rd value
emitted (sub_pc rd imm) value = loaded rd value
emitted (move_pc rd) value = loaded rd value
emitted exchange_pc value = jumped value
emitted (branch offset) value = jumped value
emitted (call offset) value = called value
emitted (call_thumb half offset) value = called value
emitted (plain op rn low) value = encode (plain op rn low) ∷ []

-- The register field of a word.
rd_arm-low :
    (high rd imm : ℕ) → rd < 16 → imm < 2 ^ 12 → rd_arm (high * 2 ^ 16 + (rd * 2 ^ 12 + imm)) ≡ rd
rd_arm-low high rd imm r i = omega (
  arith,
  bit_and-split 16 high 0 (rd * 2 ^ 12 + imm) 0xF000 (omega arith) (omega arith),
  bit_and-zero high,
  bit_and-split 12 rd 15 imm 0 i (omega arith),
  bit_and-zero imm,
  bit_and-low 4 rd,
)

-- The offset field of a word.
imm-low :
    (high rd imm : ℕ) → imm < 2 ^ 12 → bit_and (high * 2 ^ 16 + (rd * 2 ^ 12 + imm)) 0xFFF ≡ imm
imm-low high rd imm i = omega (arith, bit_and-low 12 (high * 2 ^ 16 + (rd * 2 ^ 12 + imm)))

-- The bit that says whether the offset is added.
up-high :
    (high rd imm : ℕ)
    → rd < 16
    → imm < 2 ^ 12
    → bit_and (high * 2 ^ 16 + (rd * 2 ^ 12 + imm)) 0x800000 ≡ bit_and high 0x80 * 2 ^ 16
up-high high rd imm r i = masked_high 16 high (rd * 2 ^ 12 + imm) (omega arith) 0x80

load_literal_arm-loaded : (rd value : ℕ) → rd < 16 → load_literal_arm rd value ≡ loaded rd value
unfolding load_literal_arm encode
load_literal_arm-loaded rd value r =
    let e : bit_or 0xE51F0000 (rd << 12) ≡ 0xE51F * 2 ^ 16 + (rd * 2 ^ 12 + 0) =
      omega (arith, bit_or-shift 16 0xE51F (rd << 12) (omega arith)) in
    ap (λ w. w ∷ 0xE28FF000 ∷ value ∷ []) e

-- The offset of a branch, extended by its sign, with the halfword bit in front.
extend26-distance :
    (half offset : ℕ)
    → half < 2
    → offset < 2 ^ 24
    → extend26 (offset * 4 + 2 * half) ≡ distance offset + 2 * half
unfolding distance
extend26-distance half offset h l = elim (Bool-cases (ltb offset (2 ^ 23))) [
  | inl low ↦
      let t : ((offset * 4 + 2 * half) / 2 ^ 25 == 0) ≡ true = ground arith in
      rw (low, t) (ground arith)
  | inr high ↦
      let t : ((offset * 4 + 2 * half) / 2 ^ 25 == 0) ≡ false = ground arith in
      rw (high, t)
        (omega (
          arith,
          bit_or_comm (offset * 4 + 2 * half) 0xFC000000,
          bit_or-shift 26 63 (offset * 4 + 2 * half) (omega arith),
        ))
]

x_b_arm-offset :
    (high offset : ℕ) → offset < 2 ^ 24 → x_b_arm (high * 2 ^ 24 + offset) ≡ offset * 4 + 2 * 0
x_b_arm-offset high offset l = omega (arith, bit_and-low 24 (high * 2 ^ 24 + offset))

x_blx_arm-offset :
    (half offset : ℕ)
    → half < 2
    → offset < 2 ^ 24
    → x_blx_arm ((0xFA + half) * 2 ^ 24 + offset) ≡ offset * 4 + 2 * half
x_blx_arm-offset zero offset h l =
    let low : bit_and (0xFA * 2 ^ 24 + offset) 0xFFFFFF << 2 ≡ offset << 2 =
      omega (arith, bit_and-low 24 (0xFA * 2 ^ 24 + offset)) in
    let half : bit_and (0xFA * 2 ^ 24 + offset) 0x1000000 >> 23 ≡ 0 =
      omega (arith, masked_high 24 0xFA offset l 1) in
    ap₂ bit_or low half ∙ omega (arith, bit_or-zero (offset << 2))
x_blx_arm-offset (suc zero) offset h l =
    let low : bit_and (0xFB * 2 ^ 24 + offset) 0xFFFFFF << 2 ≡ offset << 2 =
      omega (arith, bit_and-low 24 (0xFB * 2 ^ 24 + offset)) in
    let half : bit_and (0xFB * 2 ^ 24 + offset) 0x1000000 >> 23 ≡ 2 =
      omega (arith, masked_high 24 0xFB offset l 1) in
    ap₂ bit_or low half ∙ omega (arith, bit_or-shift 2 offset 2 (omega arith))
x_blx_arm-offset (suc (suc n)) offset h l = absurd (omega arith)

module _ (high rd imm : ℕ) (r : rd < 16) (i : imm < 2 ^ 12) where
  abbrev word : ℕ
  word = high * 2 ^ 16 + (rd * 2 ^ 12 + imm)

  loads :
      (value value' : ℕ) → value ≡ value' → load_literal_arm (rd_arm word) value ≡ loaded rd value'
  loads value value' e =
      ap₂ load_literal_arm (rd_arm-low high rd imm r i) e ∙ load_literal_arm-loaded rd value' r

  address_up : (pc : ℕ) → bit_and high 0x80 ≡ 0x80 → ldr_arm_address pc word ≡ u32 (pc + imm)
  address_up pc up =
      let t : (bit_and word 0x800000 >> 23 == 0) ≡ false =
        ground (arith, up-high high rd imm r i) in
      rw (t, imm-low high rd imm i) refl

  address_down :
      (pc : ℕ) → bit_and high 0x80 ≡ 0 → ldr_arm_address pc word ≡ u32 (pc + 0x100000000 - imm)
  address_down pc down =
      let t : (bit_and word 0x800000 >> 23 == 0) ≡ true = ground (arith, up-high high rd imm r i) in
      rw (t, imm-low high rd imm i) refl

offset_of :
    (high offset : ℕ)
    → offset < 2 ^ 24
    → extend26 (x_b_arm (high * 2 ^ 24 + offset)) ≡ distance offset
offset_of high offset l =
    ap extend26 (x_b_arm-offset high offset l)
    ∙ (extend26-distance 0 offset (omega arith) l ∙ omega arith)

-- The words for an instruction.
module _ (load : ℕ → ℕ) (place : ℕ) where
  pub by_type-emitted :
      (i : Instr)
      → IsEncodable i
      → relocate_by_type_arm load (type_of i) (u32 (place + 8)) (encode i)
        ≡ emitted i (literal load i place)
  unfolding relocate_by_type_arm branch_arm type_of encode emitted literal IsEncodable
  by_type-emitted (load_up rd imm) h =
      loads 0xE59F rd imm h.0 h.1 _ _
        (ap load (address_up 0xE59F rd imm h.0 h.1 (u32 (place + 8)) refl ∙ omega arith))
  by_type-emitted (load_down rd imm) h =
      loads 0xE51F rd imm h.0 h.1 _ _
        (ap load (address_down 0xE51F rd imm h.0 h.1 (u32 (place + 8)) refl ∙ omega arith))
  by_type-emitted (add_pc rd imm) h =
      loads 0xE28F rd imm h.0 (omega arith) _ _
        (rw (imm-low 0xE28F rd imm (omega arith)) (omega arith))
  by_type-emitted (sub_pc rd imm) h =
      loads 0xE24F rd imm h.0 (omega arith) _ _
        (rw (imm-low 0xE24F rd imm (omega arith)) (omega arith))
  by_type-emitted (move_pc rd) h = loads 0xE1A0 rd 15 h.0 (omega arith) _ _ refl
  by_type-emitted exchange_pc h = ap jumped (omega arith)
  by_type-emitted (branch offset) h =
      ap jumped (ap (λ x. u32 (u32 (place + 8) + x)) (offset_of 0xEA offset h.0) ∙ omega arith)
  by_type-emitted (call offset) h =
      ap called (ap (λ x. u32 (u32 (place + 8) + x)) (offset_of 0xEB offset h.0) ∙ omega arith)
  by_type-emitted (call_thumb half offset) h = ap called (
      ap (λ x. u32 (u32 (place + 8) + extend26 x + 1)) (x_blx_arm-offset half offset h.0 h.1)
      ∙ ap (λ x. u32 (u32 (place + 8) + x + 1)) (extend26-distance half offset h.0 h.1)
      ∙ omega arith)
  by_type-emitted (plain op rn low) h = refl
