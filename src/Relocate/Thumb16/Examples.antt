-- ===== src/Relocate/Thumb16/Examples.antt =====
-- The theorem on running the relocated 16-bit Thumb instructions, at a small memory.
use unity_game_localization.Prelude.{
  ℕ, ◌+◌, ◌-◌, ◌*◌, ◌/◌, ◌≡◌, refl, ap, ◌∙◌, List, true, arith, get_or, get_or-get_elem?, length,
  ◌==◌,
}
use unity_game_localization.Prelude.Bits.{u32}
use unity_game_localization.Relocate.Thumb16.{relocate_instruction_in_thumb16}
use unity_game_localization.Relocate.Thumb16.Machine.{
  Cpu, Instr, compare_branch, IsEncodable, encode, size, effect, IsPlaced, Steps,
}
use unity_game_localization.Relocate.Thumb16.Refine.{relocate_instruction_in_thumb16-effect}
use unity_game_localization.Relocate.Thumb16.Runs.{at}

-- The memory that holds these halfwords from an address on, and zeros.
abbrev memory_of : (start : ℕ) → List ℕ → ℕ → ℕ
memory_of start words a = get_or words ((a - start) / 2) 0

memory_of-IsPlaced : (start : ℕ) (words : List ℕ) → IsPlaced (memory_of start words) start words
memory_of-IsPlaced start words k w h =
    ap (λ i. get_or words i 0) (let e : (start + 2 * k - start) / 2 ≡ k = omega arith in e)
    ∙ get_or-get_elem? words k w 0 h

-- CBNZ R1 over ten bytes.
abbrev instruction : Instr
instruction = compare_branch 1 0 5 1

instruction-IsEncodable : IsEncodable instruction
unfolding IsEncodable
instruction-IsEncodable = omega arith

size-instruction : size instruction ≡ 2
unfolding size
size-instruction = refl

abbrev cpu : Cpu
cpu = record {
  reg = λ r. r;
  pc = 0;
  thumb = true;
  holds = λ condition. condition == 0;
  exec = λ word reg. reg;
  exec_flags = λ word reg holds. holds;
}

abbrev words : List ℕ
words = (relocate_instruction_in_thumb16 (λ a. 0) (u32 (0x1002 + 4)) (encode instruction)).words

relocate_instruction_in_thumb16-effect_example :
    Steps
      (memory_of 0x2000 words)
      (at 0x2000 cpu)
      (effect (λ a. 0) instruction 0x1002 (0x2000 + 2 * length words) cpu)
relocate_instruction_in_thumb16-effect_example =
    relocate_instruction_in_thumb16-effect (λ a. 0) (memory_of 0x2000 words) 0x1002 0x2000 cpu
      (omega arith) (omega arith) refl instruction instruction-IsEncodable size-instruction
      (memory_of-IsPlaced 0x2000 words)
