-- ===== src/Relocate/Thumb32.antt =====
-- `relocateInstructionInThumb32` of relocate.c. The words of the trampoline are 16-bit.
pub mod Shape
pub mod Plain
use unity_game_localization.Prelude.{
  ℕ, ◌+◌, ◌-◌, ◌==◌, if◌then◌else◌, bit_and, bit_or, List, [], ◌∷◌, ◌++◌,
}
use unity_game_localization.Prelude.Bits.{◌<<◌, ◌>>◌, u16, u32}
use unity_game_localization.Relocate.Classify.{
  InstructionType, blx_thumb32, bl_thumb32, b1_thumb32, b2_thumb32, adr1_thumb32, adr2_thumb32,
  ldr_thumb32, tbb_thumb32, tbh_thumb32, get_type_in_thumb32,
}
use unity_game_localization.Relocate.Common.{Emitted, align_pc, low_half, high_half, free_register}

-- `s ? (x | (0xFFFFFFFF << k)) : x`.
abbrev pub extend_by : (s x k : ℕ) → ℕ
extend_by s x k = if s == 0 then x else bit_or x (u32 (0xFFFFFFFF << k))

-- LDR.W PC, [PC] in front of a literal.
unfoldable pub jump32 : ℕ → List ℕ
jump32 value = 0xF8DF ∷ 0xF000 ∷ low_half value ∷ high_half value ∷ []

-- The fields of a branch.
module _ (high low : ℕ) where
  abbrev pub j1 : ℕ
  j1 = bit_and low 0x2000 >> 13

  abbrev pub j2 : ℕ
  j2 = bit_and low 0x800 >> 11

  abbrev pub s : ℕ
  s = bit_and high 0x400 >> 10

  abbrev pub i1 : ℕ
  i1 = if j1 == s then 1 else 0

  abbrev pub i2 : ℕ
  i2 = if j2 == s then 1 else 0

  -- `x` for BLX, for BL and B.W without condition, and for B.W with a condition.
  abbrev pub x_blx : ℕ
  x_blx =
      bit_or (bit_or (bit_or (bit_or (s << 24) (i1 << 23)) (i2 << 22)) (bit_and high 0x3FF << 12))
        (bit_and low 0x7FE << 1)

  abbrev pub x_bl : ℕ
  x_bl =
      bit_or (bit_or (bit_or (bit_or (s << 24) (i1 << 23)) (i2 << 22)) (bit_and high 0x3FF << 12))
        (bit_and low 0x7FF << 1)

  abbrev pub x_b1 : ℕ
  x_b1 =
      bit_or (bit_or (bit_or (bit_or (s << 20) (j2 << 19)) (j1 << 18)) (bit_and high 0x3F << 12))
        (bit_and low 0x7FF << 1)

-- ADD.W LR, PC, #9 in front of the jump of a call.
unfoldable pub branch32 : InstructionType → (pc high low : ℕ) → Emitted
unfolding jump32
branch32 blx_thumb32 pc high low = record {
  words = 0xF20F ∷ 0x0E09 ∷ jump32 (u32 (align_pc pc + extend_by (s high low) (x_blx high low) 25));
  offset = 6;
}
branch32 bl_thumb32 pc high low = record {
  words =
      0xF20F ∷ 0x0E09 ∷ jump32 (u32 (align_pc pc + extend_by (s high low) (x_bl high low) 25 + 1));
  offset = 6;
}
branch32 b1_thumb32 pc high low = record {
  words =
      bit_or 0xD000 (bit_and high 0x3C0 << 2)
      ∷ 0xE003
      ∷ jump32 (u32 (align_pc pc + extend_by (s high low) (x_b1 high low) 21 + 1));
  offset = 6;
}
branch32 _ pc high low = record {
  words = jump32 (u32 (align_pc pc + extend_by (s high low) (x_bl high low) 25 + 1));
  offset = 4;
}

-- `(i << 31) | (imm3 << 30) | (imm8 << 27)`, in 32 bits.
abbrev pub adr32_imm : (high low : ℕ) → ℕ
adr32_imm high low =
    let i = bit_and high 0x400 >> 10 in
    let imm3 = bit_and low 0x7000 >> 12 in
    let imm8 = bit_and low 0xFF in
    bit_or (bit_or (u32 (i << 31)) (u32 (imm3 << 30))) (u32 (imm8 << 27))

-- LDR.W Rr, [PC, #4] in front of a literal.
unfoldable pub load_literal32 : (r value : ℕ) → Emitted
load_literal32 r value = record {
  words =
      0xF8DF ∷ u16 (bit_or (r << 12) 4) ∷ 0xBF00 ∷ 0xE001 ∷ low_half value ∷ high_half value ∷ [];
  offset = 6;
}

-- The address of a literal load: bit 7 of the first half says whether to add.
abbrev pub ldr32_address : (pc high low : ℕ) → ℕ
ldr32_address pc high low =
    if bit_and high 0x80 >> 7 == 0
    then u32 (align_pc pc + 0x100000000 - bit_and low 0xFFF)
    else u32 (align_pc pc + bit_and low 0xFFF)

-- TBB and TBH: the table is read through the old PC in a scratch register, and the index is
-- kept in a second one.
unfoldable pub table_branch32 : (shift read : ℕ) → (pc low : ℕ) → Emitted
table_branch32 shift read pc low =
    let rm = bit_and low 0xF in
    let r = free_register 7 rm rm in
    let rx = free_register 7 rm r in
    record {
      words =
          bit_or 0xB400 (u16 (1 << rx))
          ∷ bit_or 0x4805 (r << 8)
          ∷ bit_or (bit_or 0x4600 (rm << 3)) rx
          ∷ bit_or 0xEB00 r
          ∷ bit_or (bit_or shift (rx << 8)) rx
          ∷ bit_or (bit_or read (rx << 3)) rx
          ∷ bit_or 0xEB00 r
          ∷ bit_or (bit_or 0x0040 (r << 8)) rx
          ∷ bit_or 0x3001 (r << 8)
          ∷ bit_or 0xBC00 (u16 (1 << rx))
          ∷ bit_or 0x4700 (r << 3)
          ∷ 0xBF00
          ∷ low_half pc
          ∷ high_half pc
          ∷ [];
      offset = 14;
    }

unfoldable pub relocate_by_type32 : (load : ℕ → ℕ) → InstructionType → (pc high low : ℕ) → Emitted
unfolding branch32 load_literal32 table_branch32
relocate_by_type32 load blx_thumb32 pc high low = branch32 blx_thumb32 pc high low
relocate_by_type32 load bl_thumb32 pc high low = branch32 bl_thumb32 pc high low
relocate_by_type32 load b1_thumb32 pc high low = branch32 b1_thumb32 pc high low
relocate_by_type32 load b2_thumb32 pc high low = branch32 b2_thumb32 pc high low
relocate_by_type32 load adr1_thumb32 pc high low =
    load_literal32 (bit_and low 0xF00 >> 8) (u32 (align_pc pc + adr32_imm high low))
relocate_by_type32 load adr2_thumb32 pc high low =
    load_literal32 (bit_and low 0xF00 >> 8) (u32 (align_pc pc + 0x100000000 - adr32_imm high low))
relocate_by_type32 load ldr_thumb32 pc high low =
    load_literal32 (low >> 12) (load (ldr32_address pc high low))
relocate_by_type32 load tbb_thumb32 pc high low = table_branch32 0x0000 0x7800 pc low
relocate_by_type32 load tbh_thumb32 pc high low = table_branch32 0x0040 0x8800 pc low
relocate_by_type32 load _ pc high low = record { words = high ∷ low ∷ []; offset = 2 }

unfoldable pub relocate_instruction_in_thumb32 : (load : ℕ → ℕ) (pc high low : ℕ) → Emitted
unfolding relocate_by_type32 get_type_in_thumb32
relocate_instruction_in_thumb32 load pc high low =
    relocate_by_type32 load (get_type_in_thumb32 (bit_or (high << 16) low)) pc high low
