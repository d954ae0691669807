-- ===== src/Relocate/Thumb/Bounds.antt =====
-- The halfwords that `relocateInstructionInThumb` of relocate.c writes have 16 bits.
use unity_game_localization.Prelude.{
  ℕ, ◌+◌, ◌%◌, ◌^◌, ◌<◌, ◌≡◌, refl, sym, subst, List, [], ◌∷◌, ◌++◌, arith, true,
}
use unity_game_localization.Prelude.Bits.{u32, bit_and-low}
use unity_game_localization.Relocate.Thumb16.Machine.{
  Instr, load_up, move_pc, branch, branch_if, compare_branch, jump, no_op, plain, plain_wide,
  IsEncodable, encode, size,
}
use unity_game_localization.Relocate.Thumb16.Words.{
  literal, loaded, jumped, emitted, relocate_instruction_in_thumb16-emitted,
}
use unity_game_localization.Relocate.Thumb32.Plain.{relocate_instruction_in_thumb32-plain_wide}
use unity_game_localization.Relocate.Thumb.Whole.{moves_on, AllMove, relocated, relocate_all}
use unity_game_localization.Relocate.Thumb.Trampoline.{size-even}

-- Each of the numbers is one of 16 bits.
unfoldable pub AreHalves : List ℕ → Type 0
AreHalves [] = 0 < 1
AreHalves (w ∷ ws) = (w < 2 ^ 16) × AreHalves ws

pub AreHalves-append : (ws ws' : List ℕ) → AreHalves ws → AreHalves ws' → AreHalves (ws ++ ws')
unfolding AreHalves
AreHalves-append [] ws' a a' = a'
AreHalves-append (w ∷ ws) ws' a a' = (a.0, AreHalves-append ws ws' a.1 a')

pub AreHalves-jumped : (value : ℕ) → value < 2 ^ 32 → AreHalves (jumped value)
unfolding AreHalves
AreHalves-jumped value v = omega (arith, bit_and-low 16 value)

AreHalves-loaded : (rd value : ℕ) → rd < 8 → value < 2 ^ 32 → AreHalves (loaded rd value)
unfolding AreHalves encode
AreHalves-loaded rd value r v = omega (arith, bit_and-low 16 value)

module _ (load : ℕ → ℕ) (bounded : (a : ℕ) → load a < 2 ^ 32) where
  relocated-AreHalves :
      (i : Instr) (place : ℕ)
      → IsEncodable i
      → moves_on i ≡ true
      → place % 2 ≡ 0
      → AreHalves (relocated load place i)
  unfolding relocated moves_on emitted literal IsEncodable size AreHalves encode
  relocated-AreHalves (load_up rd imm) place h m e =
      subst AreHalves
        (sym (relocate_instruction_in_thumb16-emitted load place e (load_up rd imm) h refl))
        (AreHalves-loaded rd _ h.0 (bounded _))
  relocated-AreHalves (move_pc rd) place h m e =
      subst AreHalves
        (sym (relocate_instruction_in_thumb16-emitted load place e (move_pc rd) h refl))
        (AreHalves-loaded rd _ h.0 (omega arith))
  relocated-AreHalves no_op place h m e =
      subst AreHalves (sym (relocate_instruction_in_thumb16-emitted load place e no_op h refl))
        (omega arith)
  relocated-AreHalves (plain high low) place h m e =
      subst AreHalves
        (sym (relocate_instruction_in_thumb16-emitted load place e (plain high low) h refl))
        (omega (arith, h.0, h.1))
  relocated-AreHalves (plain_wide high low) place h m e =
      subst AreHalves
        (sym (relocate_instruction_in_thumb32-plain_wide load (u32 (place + 4)) high low h))
        (omega (arith, h.1, h.2))
  relocated-AreHalves (branch offset) place h m e = absurd (cc m)
  relocated-AreHalves (branch_if condition offset) place h m e = absurd (cc m)
  relocated-AreHalves (compare_branch nonzero high offset rn) place h m e = absurd (cc m)
  relocated-AreHalves jump place h m e = absurd (cc m)

  -- Every halfword of a relocated sequence that reads a memory of words has 16 bits.
  pub relocate_all-AreHalves :
      (is : List Instr) (place : ℕ)
      → AllMove is
      → place % 2 ≡ 0
      → AreHalves (relocate_all load place is)
  unfolding relocate_all AllMove AreHalves
  relocate_all-AreHalves [] place m e = omega arith
  relocate_all-AreHalves (i ∷ is) place m e =
      AreHalves-append (relocated load place i) _ (relocated-AreHalves i place m.0 m.1 e)
        (relocate_all-AreHalves is (place + size i) m.2 (size-even i place e))
