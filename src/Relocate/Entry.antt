-- ===== src/Relocate/Entry.antt =====
-- `relocateInstruction` of relocate.c: the mode is bit 0 of the target address. The copied
-- instructions are given as 16-bit words in Thumb mode and as 32-bit words in Arm mode.
use unity_game_localization.Prelude.{ℕ, ◌-◌, ◌==◌, if◌then◌else◌, bit_and, List}
use unity_game_localization.Run.{Run}
use unity_game_localization.Relocate.Boundaries.{Boundaries}
use unity_game_localization.Relocate.Thumb.{Relocated, relocate_instruction_in_thumb}
use unity_game_localization.Relocate.Arm.{relocate_instruction_in_arm}

unfoldable pub relocate_instruction :
    (load : ℕ → ℕ) (target_addr : ℕ) (orig_instructions : List ℕ) (len : ℕ)
    → Boundaries
    → Run Relocated
relocate_instruction load target_addr orig_instructions len boundaries =
    if bit_and target_addr 1 == 1
    then relocate_instruction_in_thumb load (target_addr - 1) orig_instructions len boundaries
    else relocate_instruction_in_arm load target_addr orig_instructions len boundaries
