-- ===== src/Relocate/Arm.antt =====
-- `relocateInstructionInArm` of relocate.c. The words of the trampoline are 32-bit, and its
-- position is their number.
pub mod Laws
pub mod Machine
pub mod Types
pub mod Words
pub mod Refine
pub mod Whole
pub mod Bounds
pub mod Marks
pub mod Trampoline
mod Examples
use unity_game_localization.Prelude.{
  ℕ, zero, suc, ◌+◌, ◌-◌, ◌*◌, ◌/◌, ◌==◌, if◌then◌else◌, bit_and, bit_or, List, [], ◌∷◌, ◌++◌,
  length, take,
}
use unity_game_localization.Prelude.Bits.{◌<<◌, ◌>>◌, u32}
use unity_game_localization.Run.{Run, ok, ◌>>=◌}
use unity_game_localization.Relocate.Classify.{
  InstructionType, blx_arm, bl_arm, b_arm, bx_arm, add_arm, adr1_arm, adr2_arm, ldr_arm, mov_arm,
  get_type_in_arm,
}
use unity_game_localization.Relocate.Common.{free_register}
use unity_game_localization.Relocate.Boundaries.{Boundaries, mark}
use unity_game_localization.Relocate.Thumb.{Relocated}

-- `top_bit ? (x | (0xFFFFFFFF << 26)) : x` for `top_bit = x >> 25`.
abbrev pub extend26 : ℕ → ℕ
extend26 x = if x >> 25 == 0 then x else bit_or x (u32 (0xFFFFFFFF << 26))

abbrev pub x_blx_arm : ℕ → ℕ
x_blx_arm instruction =
    bit_or (bit_and instruction 0xFFFFFF << 2) (bit_and instruction 0x1000000 >> 23)

abbrev pub x_b_arm : ℕ → ℕ
x_b_arm instruction = bit_and instruction 0xFFFFFF << 2

-- LDR PC, [PC, #-4] in front of a literal.
abbrev pub jump_arm : ℕ → List ℕ
jump_arm value = 0xE51FF004 ∷ value ∷ []

-- A call first puts the address behind the literal into LR.
unfoldable pub branch_arm : InstructionType → (pc instruction : ℕ) → List ℕ
branch_arm blx_arm pc instruction =
    0xE28FE004 ∷ jump_arm (u32 (pc + extend26 (x_blx_arm instruction) + 1))
branch_arm bl_arm pc instruction = 0xE28FE004 ∷ jump_arm (u32 (pc + extend26 (x_b_arm instruction)))
branch_arm b_arm pc instruction = jump_arm (u32 (pc + extend26 (x_b_arm instruction)))
branch_arm _ pc instruction = jump_arm (u32 (pc + extend26 0))

-- ADD Rd, PC, Rm, done with a scratch register that holds the old PC.
unfoldable pub add_arm_words : (pc instruction : ℕ) → List ℕ
add_arm_words pc instruction =
    let rd = bit_and instruction 0xF000 >> 12 in
    let rm = bit_and instruction 0xF in
    let r = free_register 12 rd rm in
    bit_or 0xE52D0004 (r << 12)
    ∷ bit_or 0xE59F0008 (r << 12)
    ∷ bit_or (bit_and instruction 0xFFF0FFFF) (r << 16)
    ∷ bit_or 0xE49D0004 (r << 12)
    ∷ 0xE28FF000
    ∷ pc
    ∷ []

-- LDR Rr, [PC] in front of a literal, and a jump over it.
unfoldable pub load_literal_arm : (r value : ℕ) → List ℕ
load_literal_arm r value = bit_or 0xE51F0000 (r << 12) ∷ 0xE28FF000 ∷ value ∷ []

-- Bit 23 of a literal load says whether its offset is added.
abbrev pub ldr_arm_address : (pc instruction : ℕ) → ℕ
ldr_arm_address pc instruction =
    if bit_and instruction 0x800000 >> 23 == 0
    then u32 (pc + 0x100000000 - bit_and instruction 0xFFF)
    else u32 (pc + bit_and instruction 0xFFF)

abbrev rd_arm : ℕ → ℕ
rd_arm instruction = bit_and instruction 0xF000 >> 12

unfoldable pub relocate_by_type_arm :
    (load : ℕ → ℕ) → InstructionType → (pc instruction : ℕ) → List ℕ
unfolding branch_arm add_arm_words load_literal_arm
relocate_by_type_arm load blx_arm pc instruction = branch_arm blx_arm pc instruction
relocate_by_type_arm load bl_arm pc instruction = branch_arm bl_arm pc instruction
relocate_by_type_arm load b_arm pc instruction = branch_arm b_arm pc instruction
relocate_by_type_arm load bx_arm pc instruction = branch_arm bx_arm pc instruction
relocate_by_type_arm load add_arm pc instruction = add_arm_words pc instruction
relocate_by_type_arm load adr1_arm pc instruction =
    load_literal_arm (rd_arm instruction) (u32 (pc + bit_and instruction 0xFFF))
relocate_by_type_arm load adr2_arm pc instruction =
    load_literal_arm (rd_arm instruction) (u32 (pc + 0x100000000 - bit_and instruction 0xFFF))
relocate_by_type_arm load ldr_arm pc instruction =
    load_literal_arm (rd_arm instruction) (load (ldr_arm_address pc instruction))
relocate_by_type_arm load mov_arm pc instruction = load_literal_arm (rd_arm instruction) pc
relocate_by_type_arm load _ pc instruction = instruction ∷ []

-- The loop over the instructions that are left; `words` is what the trampoline holds so far.
unfoldable pub arm_loop :
    (load : ℕ → ℕ) (orig_pos pc : ℕ) (words : List ℕ)
    → Boundaries
    → List ℕ
    → Run (List ℕ × Boundaries)
arm_loop load orig_pos pc words boundaries [] = ok (words, boundaries)
arm_loop load orig_pos pc words boundaries (instruction ∷ rest) = do
  boundaries' ← mark (orig_pos * 4) (length words * 4) boundaries
  arm_loop load (orig_pos + 1) (u32 (pc + 4))
      (words ++ relocate_by_type_arm load (get_type_in_arm instruction) pc instruction) boundaries'
      rest

-- `len` is the number of bytes to copy.
unfoldable pub relocate_instruction_in_arm :
    (load : ℕ → ℕ) (target_addr : ℕ) (orig_instructions : List ℕ) (len : ℕ)
    → Boundaries
    → Run Relocated
unfolding arm_loop relocate_by_type_arm get_type_in_arm
relocate_instruction_in_arm load target_addr orig_instructions len boundaries = do
  (words, bounds) ←
      arm_loop load 0 (u32 (target_addr + 8)) [] boundaries (take (len / 4) orig_instructions)
  ok (record { trampoline = words ++ jump_arm (u32 (target_addr + len)); bounds = bounds })
