-- ===== src/Relocate/Examples.antt =====
-- The theorems on the relocation at short functions.
use unity_game_localization.Prelude.{
  ℕ, ◌+◌, ◌≡◌, ◌≤◌, List, [], ◌∷◌, ◌++◌, arith, length, replicate,
}
use unity_game_localization.Run.{ok}
use unity_game_localization.Relocate.Boundaries.{Boundaries}
use unity_game_localization.Relocate.Thumb.{Relocated, relocate_instruction_in_thumb}
use unity_game_localization.Relocate.Thumb.Laws.{IsCopied, relocate_instruction_in_thumb-IsCopied}
use unity_game_localization.Relocate.Arm.{relocate_instruction_in_arm}
use unity_game_localization.Relocate.Arm.Laws.{
  relocate_all, relocate_instruction_in_arm-relocate_all,
}

abbrev no_boundaries : Boundaries
no_boundaries = record { cells = replicate 24 0; count = 0 }

abbrev load : ℕ → ℕ
load a = a + 1

-- `push {r4, lr}`, `bl`, and five more halfwords.
abbrev thumb_code : List ℕ
thumb_code = 0xB510 ∷ 0xF000 ∷ 0xF800 ∷ 0x4601 ∷ 0x4602 ∷ 0x4603 ∷ []

relocate_instruction_in_thumb-IsCopied_example :
    (r : Relocated) × (relocate_instruction_in_thumb load 0x8000 thumb_code 12 no_boundaries ≡ ok r)
    × IsCopied 0x8000 12 no_boundaries r
relocate_instruction_in_thumb-IsCopied_example =
    relocate_instruction_in_thumb-IsCopied load 0x8000 thumb_code 12 no_boundaries (omega arith)
      (omega arith)

-- `b` and `mov`.
abbrev arm_code : List ℕ
arm_code = 0xEA000002 ∷ 0xE1A00001 ∷ []

relocate_instruction_in_arm-relocate_all_example :
    (r : Relocated) × (relocate_instruction_in_arm load 0x8000 arm_code 8 no_boundaries ≡ ok r)
    × (r.trampoline ≡ relocate_all load 0x8008 arm_code ++ 0xE51FF004 ∷ 0x8008 ∷ [])
    × (4 ≤ length r.trampoline)
    × (length r.trampoline ≤ 14)
    × (r.bounds.count ≡ 2)
relocate_instruction_in_arm-relocate_all_example =
    relocate_instruction_in_arm-relocate_all load 0x8000 arm_code 8 no_boundaries (omega arith)
      (omega arith)
