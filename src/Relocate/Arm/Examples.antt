-- ===== src/Relocate/Arm/Examples.antt =====
-- The theorems on running the relocated Arm instructions, at small memories.
use unity_game_localization.Prelude.{
  ℕ, ◌+◌, ◌-◌, ◌*◌, ◌/◌, ◌≡◌, refl, ap, ◌∙◌, List, [], ◌∷◌, map, false, arith, get_or,
  get_or-get_elem?, length, replicate,
}
use unity_game_localization.Prelude.Bits.{u32}
use unity_game_localization.Run.{ok}
use unity_game_localization.Relocate.Classify.{get_type_in_arm}
use unity_game_localization.Relocate.Boundaries.{Boundaries}
use unity_game_localization.Relocate.Thumb.{Relocated}
use unity_game_localization.Relocate.Arm.{relocate_by_type_arm, relocate_instruction_in_arm}
use unity_game_localization.Relocate.Arm.Machine.{
  Cpu, Instr, load_up, add_pc, call, IsEncodable, encode, effect, Steps,
}
use unity_game_localization.Relocate.Arm.Refine.{IsPlaced, at, relocate_by_type_arm-effect}
use unity_game_localization.Relocate.Arm.Whole.{AllMove, moves_on, in_order}
use unity_game_localization.Relocate.Arm.Trampoline.{
  trampoline_of, relocate_instruction_in_arm-Steps,
}

-- The memory that holds these words from an address on, and zeros.
abbrev memory_of : (start : ℕ) → List ℕ → ℕ → ℕ
memory_of start words a = get_or words ((a - start) / 4) 0

memory_of-IsPlaced : (start : ℕ) (words : List ℕ) → IsPlaced (memory_of start words) start words
memory_of-IsPlaced start words k w h =
    ap (λ i. get_or words i 0) (let e : (start + 4 * k - start) / 4 ≡ k = omega arith in e)
    ∙ get_or-get_elem? words k w 0 h

abbrev cpu : Cpu
cpu = record { reg = λ r. r; pc = 0; thumb = false; exec = λ word reg. reg }

-- BL to 0x101C, from 0x1000.
abbrev call_words : List ℕ
call_words =
    relocate_by_type_arm (λ a. 0) (get_type_in_arm (encode (call 5))) (u32 (0x1000 + 8))
      (encode (call 5))

call-IsEncodable : IsEncodable (call 5)
unfolding IsEncodable
call-IsEncodable = omega arith

relocate_by_type_arm-effect_example :
    Steps
      (memory_of 0x2000 call_words)
      (at 0x2000 cpu)
      (effect (λ a. 0) (call 5) 0x1000 (0x2000 + 4 * length call_words) cpu)
relocate_by_type_arm-effect_example =
    relocate_by_type_arm-effect (λ a. 0) (memory_of 0x2000 call_words) 0x1000 0x2000 cpu
      (omega arith) (omega arith) refl (call 5) call-IsEncodable
      (memory_of-IsPlaced 0x2000 call_words)

-- ADD R1, PC, #16 and LDR R2, [PC, #8].
abbrev instructions : List Instr
instructions = add_pc 1 16 ∷ load_up 2 8 ∷ []

abbrev before : ℕ → ℕ
before = memory_of 0x1000 (map encode instructions)

abbrev no_boundaries : Boundaries
no_boundaries = record { cells = replicate 24 0; count = 0 }

abbrev trampoline : List ℕ
trampoline = trampoline_of (
    relocate_instruction_in_arm before 0x1000 (map encode instructions) (4 * length instructions)
      no_boundaries)

instructions-AllMove : AllMove instructions
unfolding AllMove IsEncodable moves_on
instructions-AllMove = (omega arith, refl, (omega arith, refl, refl))

relocate_instruction_in_arm-Steps_example :
    (r : Relocated) × (relocate_instruction_in_arm before 0x1000
        (map encode instructions)
        8
        no_boundaries
      ≡ ok r)
    × Steps before (at 0x1000 cpu) (in_order before 0x1000 instructions cpu)
    × Steps (memory_of 0x2000 trampoline) (at 0x2000 cpu) (in_order before 0x1000 instructions cpu)
relocate_instruction_in_arm-Steps_example =
    relocate_instruction_in_arm-Steps before (memory_of 0x2000 trampoline) instructions 0x1000
      0x2000 no_boundaries cpu instructions-AllMove refl (omega arith) (omega arith) (omega arith)
      (memory_of-IsPlaced 0x1000 (map encode instructions)) (memory_of-IsPlaced 0x2000 trampoline)
