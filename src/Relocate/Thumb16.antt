-- ===== src/Relocate/Thumb16.antt =====
-- `relocateInstructionInThumb16` of relocate.c. The words of the trampoline are 16-bit.
pub mod Shape
pub mod Machine
pub mod Fields
pub mod Words
pub mod Runs
pub mod Refine
mod Examples
use unity_game_localization.Prelude.{
  ℕ, ◌+◌, ◌==◌, if◌then◌else◌, bit_and, bit_or, List, [], ◌∷◌, ◌++◌, not,
}
use unity_game_localization.Prelude.Bits.{◌<<◌, ◌>>◌, u16, u32}
use unity_game_localization.Relocate.Classify.{
  InstructionType, b1_thumb16, b2_thumb16, bx_thumb16, add_thumb16, mov_thumb16, adr_thumb16,
  ldr_thumb16, cb_thumb16, undefine, get_type_in_thumb16,
}
use unity_game_localization.Relocate.Common.{Emitted, align_pc, low_half, high_half, free_register}

-- `top_bit ? (x | (0xFFFFFFFF << k)) : x` for `top_bit = x >> k`.
abbrev pub sign_extend : (x k : ℕ) → ℕ
sign_extend x k = if x >> k == 0 then x else bit_or x (u32 (0xFFFFFFFF << k))

-- `value |= 1` and the jump through a literal: LDR.W PC, [PC].
unfoldable pub jump_thumb : ℕ → List ℕ
jump_thumb value = 0xF8DF ∷ 0xF000 ∷ low_half (bit_or value 1) ∷ high_half (bit_or value 1) ∷ []

-- The branches: B <label> in two forms, and BX PC.
unfoldable pub branch16 : InstructionType → (pc instruction : ℕ) → Emitted
unfolding jump_thumb
branch16 b1_thumb16 pc instruction = record {
  words =
      bit_and instruction 0xFF00
      ∷ 0xE003
      ∷ jump_thumb (u32 (pc + sign_extend (bit_and instruction 0xFF << 1) 8));
  offset = 6;
}
branch16 b2_thumb16 pc instruction = record {
  words = jump_thumb (u32 (pc + sign_extend (bit_and instruction 0x7FF << 1) 11));
  offset = 4;
}
branch16 _ pc instruction = record { words = jump_thumb pc; offset = 4 }

-- ADD <Rdn>, PC, done with a scratch register that holds the old PC.
unfoldable pub add16 : (pc instruction : ℕ) → Emitted
add16 pc instruction =
    let rdn = bit_or (bit_and instruction 0x80 >> 4) (bit_and instruction 0x7) in
    let r = free_register 7 rdn rdn in
    record {
      words =
          bit_or 0xB400 (u16 (1 << r))
          ∷ bit_or 0x4802 (r << 8)
          ∷ bit_or (bit_and instruction 0xFF87) (r << 3)
          ∷ bit_or 0xBC00 (u16 (1 << r))
          ∷ 0xE002
          ∷ 0xBF00
          ∷ low_half pc
          ∷ high_half pc
          ∷ [];
      offset = 8;
    }

-- LDR Rd, [PC] in front of a literal.
unfoldable pub load_literal16 : (r value : ℕ) → Emitted
load_literal16 r value = record {
  words = bit_or 0x4800 (r << 8) ∷ 0xE001 ∷ low_half value ∷ high_half value ∷ [];
  offset = 4;
}

-- As written, `ALIGN_PC(pc) + (instruction & 0xFF) << 2` shifts the sum.
abbrev pub adr16_value : (pc instruction : ℕ) → ℕ
adr16_value pc instruction = u32 (u32 (align_pc pc + bit_and instruction 0xFF) << 2)

-- CB{N}Z <Rn>, <label>.
unfoldable pub compare_branch16 : (pc instruction : ℕ) → Emitted
compare_branch16 pc instruction =
    let imm32 = bit_or (bit_and instruction 0x200 >> 3) (bit_and instruction 0xF8 >> 2) in
    let value = u32 (pc + imm32 + 1) in
    record {
      words =
          bit_and instruction 0xFD07
          ∷ 0xE003
          ∷ 0xF8DF
          ∷ 0xF000
          ∷ low_half value
          ∷ high_half value
          ∷ [];
      offset = 6;
    }

-- `load` reads the word at an address.
unfoldable pub relocate_by_type16 :
    (load : ℕ → ℕ) → InstructionType → (pc instruction : ℕ) → Emitted
unfolding branch16 add16 load_literal16 compare_branch16
relocate_by_type16 load b1_thumb16 pc instruction = branch16 b1_thumb16 pc instruction
relocate_by_type16 load b2_thumb16 pc instruction = branch16 b2_thumb16 pc instruction
relocate_by_type16 load bx_thumb16 pc instruction = branch16 bx_thumb16 pc instruction
relocate_by_type16 load add_thumb16 pc instruction = add16 pc instruction
relocate_by_type16 load mov_thumb16 pc instruction = load_literal16 (bit_and instruction 0x7) pc
relocate_by_type16 load adr_thumb16 pc instruction =
    load_literal16 (bit_and instruction 0x700 >> 8) (adr16_value pc instruction)
relocate_by_type16 load ldr_thumb16 pc instruction =
    load_literal16 (bit_and instruction 0x700 >> 8)
      (load (u32 (align_pc pc + (bit_and instruction 0xFF << 2))))
relocate_by_type16 load cb_thumb16 pc instruction = compare_branch16 pc instruction
relocate_by_type16 load _ pc instruction = record { words = instruction ∷ 0xBF00 ∷ []; offset = 2 }

unfoldable pub relocate_instruction_in_thumb16 : (load : ℕ → ℕ) (pc instruction : ℕ) → Emitted
unfolding relocate_by_type16 get_type_in_thumb16
relocate_instruction_in_thumb16 load pc instruction =
    relocate_by_type16 load (get_type_in_thumb16 instruction) pc instruction
