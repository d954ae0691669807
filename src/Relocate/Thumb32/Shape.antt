-- ===== src/Relocate/Thumb32/Shape.antt =====
-- How many words `relocateInstructionInThumb32` of relocate.c writes and counts.
use unity_game_localization.Prelude.{ℕ, arith, bit_or}
use unity_game_localization.Prelude.Bits.{◌<<◌}
use unity_game_localization.Relocate.Classify.{InstructionType, blx_thumb32, get_type_in_thumb32}
use unity_game_localization.Relocate.Thumb16.Shape.{IsEmitted}
use unity_game_localization.Relocate.Thumb32.{relocate_by_type32, relocate_instruction_in_thumb32}

by_type32-IsEmitted :
    (load : ℕ → ℕ) (type : InstructionType) (pc high low : ℕ)
    → IsEmitted 14 (relocate_by_type32 load type pc high low)
unfolding relocate_by_type32
by_type32-IsEmitted load blx_thumb32 pc high low = omega arith
by_type32-IsEmitted load _ pc high low = omega arith

-- Every 32-bit Thumb instruction becomes 2 to 14 halfwords, an even number, and that number is
-- returned.
pub relocate_instruction_in_thumb32-IsEmitted :
    (load : ℕ → ℕ) (pc high low : ℕ)
    → IsEmitted 14 (relocate_instruction_in_thumb32 load pc high low)
unfolding relocate_instruction_in_thumb32
relocate_instruction_in_thumb32-IsEmitted load pc high low =
    by_type32-IsEmitted load (get_type_in_thumb32 (bit_or (high << 16) low)) pc high low
