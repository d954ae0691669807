-- ===== src/Relocate/Thumb.antt =====
-- `relocateInstructionInThumb` of relocate.c. The trampoline is the list of the 16-bit words that
-- are written to it.
pub mod Laws
pub mod Whole
pub mod Loop
pub mod Trampoline
pub mod Refine
pub mod Bounds
mod Examples
use unity_game_localization.Prelude.{
  ℕ, zero, suc, ◌+◌, ◌*◌, ◌/◌, ◌==◌, ltb, leb, ◌&&◌, if◌then◌else◌, Bool, true, false, List, [],
  ◌∷◌, ◌++◌, get_or,
}
use unity_game_localization.Prelude.Bits.{◌>>◌, u32}
use unity_game_localization.Run.{Run, ok, fault, out_of_fuel, ◌>>=◌}
use unity_game_localization.Relocate.Common.{Emitted, low_half, high_half}
use unity_game_localization.Relocate.Thumb16.{relocate_instruction_in_thumb16}
use unity_game_localization.Relocate.Thumb32.{relocate_instruction_in_thumb32}
use unity_game_localization.Relocate.Boundaries.{Boundaries, mark}

-- The variables of the loop; `words` is what the trampoline holds so far.
pub record State : Type 0 where
  pub orig_pos : ℕ
  pub trampoline_pos : ℕ
  pub pc : ℕ
  pub words : List ℕ
  pub boundaries : Boundaries

-- Whether a halfword is the first of a 32-bit instruction.
abbrev pub is_wide : ℕ → Bool
is_wide instruction = leb 0x1D (instruction >> 11) && leb (instruction >> 11) 0x1F

-- The state behind an instruction of `size` halfwords.
unfoldable pub advance : (size : ℕ) → Emitted → State → State
advance size e st = record st {
  orig_pos = st.orig_pos + size;
  trampoline_pos = st.trampoline_pos + e.offset;
  pc = u32 (st.pc + 2 * size);
  words = st.words ++ e.words;
}

module _ (load : ℕ → ℕ) (orig_instructions : List ℕ) (length : ℕ) where
  -- A round of the loop behind its writes to the boundaries; the flag says that it breaks.
  unfoldable pub round : State → State × Bool
  unfolding advance
  round st =
      let instruction = get_or orig_instructions st.orig_pos 0 in
      let next = get_or orig_instructions (st.orig_pos + 1) 0 in
      let wide = advance 2 (relocate_instruction_in_thumb32 load st.pc instruction next) st in
      let narrow = advance 1 (relocate_instruction_in_thumb16 load st.pc instruction) st in
      if is_wide instruction
      then (if ltb (length / 2) (st.orig_pos + 2)
          then (st, true)
          else (wide, leb (length / 2) wide.orig_pos))
      else (narrow, leb (length / 2) narrow.orig_pos)

  unfoldable pub loop : (fuel : ℕ) → State → Run State
  loop zero st = fault out_of_fuel
  loop (suc fuel) st = do
    boundaries ← mark (st.orig_pos * 2) (st.trampoline_pos * 2) st.boundaries
    let (st', stop) = round (record st { boundaries = boundaries })
    elim stop [ true ↦ ok st' | false ↦ loop fuel st' ]

-- What a relocation leaves: the words of the trampoline and the boundaries.
pub record Relocated : Type 0 where
  pub trampoline : List ℕ
  pub bounds : Boundaries

-- The jump back to the first instruction that was not copied.
unfoldable pub jump_back : (target_addr : ℕ) → State → List ℕ
jump_back target_addr st =
    let lr = u32 (target_addr + st.orig_pos * 2 + 1) in
    0xF8DF ∷ 0xF000 ∷ low_half lr ∷ high_half lr ∷ []

unfoldable pub start : (target_addr : ℕ) → Boundaries → State
start target_addr boundaries = record {
  orig_pos = 0;
  trampoline_pos = 0;
  pc = u32 (target_addr + 4);
  words = [];
  boundaries = boundaries;
}

-- Each round moves on by a halfword at least, so `length` rounds and one are enough.
unfoldable pub relocate_instruction_in_thumb :
    (load : ℕ → ℕ) (target_addr : ℕ) (orig_instructions : List ℕ) (length : ℕ)
    → Boundaries
    → Run Relocated
unfolding loop jump_back start
relocate_instruction_in_thumb load target_addr orig_instructions length boundaries = do
  st ← loop load orig_instructions length (length + 1) (start target_addr boundaries)
  ok (record { trampoline = st.words ++ jump_back target_addr st; bounds = st.boundaries })
