-- ===== src/Relocate/Thumb/Examples.antt =====
-- The theorem on whole Thumb trampolines, at a small function.
use unity_game_localization.Prelude.{
  ℕ, ◌+◌, ◌-◌, ◌*◌, ◌/◌, ◌≡◌, refl, ap, ◌∙◌, List, [], ◌∷◌, ◌++◌, true, arith, get_or,
  get_or-get_elem?, length, replicate, inl,
}
use unity_game_localization.Run.{ok}
use unity_game_localization.Relocate.Boundaries.{Boundaries}
use unity_game_localization.Relocate.Thumb.{Relocated, relocate_instruction_in_thumb}
use unity_game_localization.Relocate.Thumb16.Machine.{
  Cpu, Instr, load_up, plain, plain_wide, IsEncodable, code, word_at, IsPlaced, Steps,
}
use unity_game_localization.Relocate.Thumb16.Runs.{at}
use unity_game_localization.Relocate.Thumb.Whole.{moves_on, AllMove, codes, IsRest}
use unity_game_localization.Relocate.Thumb.Trampoline.{in_order}
use unity_game_localization.Relocate.Thumb.Refine.{relocate_instruction_in_thumb-Steps}
use unity_game_localization.Relocate.Arm.Trampoline.{trampoline_of}

-- PUSH {R4, LR}, LDR R0, [PC, #4] and STMDB SP!, {R4-R11}, and the first half of a BL.
abbrev instructions : List Instr
instructions = plain 0xB5 0x10 ∷ load_up 0 1 ∷ plain_wide 0xE92D 0x0FF0 ∷ []

abbrev rest : List ℕ
rest = 0xF000 ∷ []

abbrev memory_of : (start : ℕ) → List ℕ → ℕ → ℕ
memory_of start words a = get_or words ((a - start) / 2) 0

memory_of-IsPlaced : (start : ℕ) (words : List ℕ) → IsPlaced (memory_of start words) start words
memory_of-IsPlaced start words k w h =
    ap (λ i. get_or words i 0) (let e : (start + 2 * k - start) / 2 ≡ k = omega arith in e)
    ∙ get_or-get_elem? words k w 0 h

abbrev cpu : Cpu
cpu = record {
  reg = λ r. r;
  pc = 0;
  thumb = true;
  holds = λ condition. true;
  exec = λ word reg. reg;
  exec_flags = λ word reg holds. holds;
}

abbrev before : ℕ → ℕ
before = memory_of 0x1002 (codes instructions)

abbrev no_boundaries : Boundaries
no_boundaries = record { cells = replicate 24 0; count = 0 }

abbrev trampoline : List ℕ
trampoline = trampoline_of (
    relocate_instruction_in_thumb (word_at before) 0x1002 (codes instructions ++ rest)
      (2 * length (codes instructions ++ rest)) no_boundaries)

instructions-AllMove : AllMove instructions
unfolding AllMove IsEncodable moves_on
instructions-AllMove = (
  (omega arith, omega arith, omega arith, refl),
  refl,
  (
    omega arith,
    refl,
    ((omega arith, omega arith, omega arith, omega arith, inl (omega arith)), refl, refl),
  ),
)

rest-IsRest : IsRest rest
unfolding IsRest
rest-IsRest = refl

relocate_instruction_in_thumb-Steps_example :
    (q : Relocated) × (relocate_instruction_in_thumb
        (word_at before)
        0x1002
        (codes instructions ++ rest)
        (2 * length (codes instructions ++ rest))
        no_boundaries
      ≡ ok q)
    × Steps before (at 0x1002 cpu) (in_order (word_at before) 0x1002 instructions cpu)
    × Steps
        (memory_of 0x2000 trampoline)
        (at 0x2000 cpu)
        (in_order (word_at before) 0x1002 instructions cpu)
unfolding codes code
relocate_instruction_in_thumb-Steps_example =
    relocate_instruction_in_thumb-Steps before (memory_of 0x2000 trampoline) instructions rest
      0x1002 0x2000 no_boundaries cpu instructions-AllMove rest-IsRest refl (omega arith)
      (omega arith) (omega arith) (omega arith) (memory_of-IsPlaced 0x1002 (codes instructions))
      (memory_of-IsPlaced 0x2000 trampoline)
