-- ===== src/Relocate/Thumb16/Shape.antt =====
-- How many words `relocateInstructionInThumb16` of relocate.c writes and counts.
use unity_game_localization.Prelude.{ℕ, ◌%◌, ◌≤◌, ◌≡◌, arith, length}
use unity_game_localization.Relocate.Classify.{InstructionType, b1_thumb16, get_type_in_thumb16}
use unity_game_localization.Relocate.Common.{Emitted}
use unity_game_localization.Relocate.Thumb16.{relocate_by_type16, relocate_instruction_in_thumb16}

-- The returned offset is the number of the words; they fill whole 32-bit words, so that
-- the next literal is aligned, and are at least two and at most `most`.
pub record IsEmitted (most : ℕ) (e : Emitted) : Type 0 where
  pub counted : e.offset ≡ length e.words
  pub aligned : e.offset % 2 ≡ 0
  pub some_words : 2 ≤ e.offset
  pub bounded : e.offset ≤ most

by_type16-IsEmitted :
    (load : ℕ → ℕ) (type : InstructionType) (pc instruction : ℕ)
    → IsEmitted 8 (relocate_by_type16 load type pc instruction)
unfolding relocate_by_type16
by_type16-IsEmitted load b1_thumb16 pc instruction = omega arith
by_type16-IsEmitted load _ pc instruction = omega arith

-- Every 16-bit Thumb instruction becomes 2 to 8 halfwords, an even number, and that number is
-- returned.
pub relocate_instruction_in_thumb16-IsEmitted :
    (load : ℕ → ℕ) (pc instruction : ℕ)
    → IsEmitted 8 (relocate_instruction_in_thumb16 load pc instruction)
unfolding relocate_instruction_in_thumb16
relocate_instruction_in_thumb16-IsEmitted load pc instruction =
    by_type16-IsEmitted load (get_type_in_thumb16 instruction) pc instruction
