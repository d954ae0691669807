-- ===== src/Relocate/Arm/Bounds.antt =====
-- The words that `relocateInstructionInArm` of relocate.c emits have 32 bits.
use unity_game_localization.Prelude.{ℕ, ◌+◌, ◌^◌, ◌<◌, ◌≡◌, List, [], ◌∷◌, ◌++◌, map, arith}
use unity_game_localization.Prelude.Bits.{u32}
use unity_game_localization.Relocate.Arm.Laws.{relocate_all}
use unity_game_localization.Relocate.Arm.Machine.{
  Instr, load_up, load_down, add_pc, sub_pc, move_pc, exchange_pc, branch, call, call_thumb, plain,
  IsEncodable, encode,
}
use unity_game_localization.Relocate.Arm.Types.{get_type_in_arm-encode}
use unity_game_localization.Relocate.Arm.Words.{
  literal, loaded, jumped, called, emitted, by_type-emitted,
}
use unity_game_localization.Relocate.Arm.Whole.{AllMove}

-- Each of the words is one of 32 bits.
unfoldable pub AreWords : List ℕ → Type 0
AreWords [] = 0 < 1
AreWords (w ∷ ws) = (w < 2 ^ 32) × AreWords ws

pub AreWords-append : (ws ws' : List ℕ) → AreWords ws → AreWords ws' → AreWords (ws ++ ws')
unfolding AreWords
AreWords-append [] ws' a a' = a'
AreWords-append (w ∷ ws) ws' a a' = (a.0, AreWords-append ws ws' a.1 a')

pub AreWords-jumped : (value : ℕ) → value < 2 ^ 32 → AreWords (jumped value)
unfolding AreWords encode
AreWords-jumped value v = omega arith

AreWords-called : (value : ℕ) → value < 2 ^ 32 → AreWords (called value)
unfolding AreWords encode
AreWords-called value v = omega arith

AreWords-loaded : (rd value : ℕ) → rd < 16 → value < 2 ^ 32 → AreWords (loaded rd value)
unfolding AreWords encode
AreWords-loaded rd value r v = omega arith

module _ (load : ℕ → ℕ) (bounded : (a : ℕ) → load a < 2 ^ 32) where
  emitted-AreWords :
      (i : Instr) (place : ℕ) → IsEncodable i → AreWords (emitted i (literal load i place))
  unfolding emitted literal IsEncodable AreWords encode
  emitted-AreWords (load_up rd imm) place h = AreWords-loaded rd _ h.0 (bounded _)
  emitted-AreWords (load_down rd imm) place h = AreWords-loaded rd _ h.0 (bounded _)
  emitted-AreWords (add_pc rd imm) place h = AreWords-loaded rd _ h.0 (omega arith)
  emitted-AreWords (sub_pc rd imm) place h = AreWords-loaded rd _ h.0 (omega arith)
  emitted-AreWords (move_pc rd) place h = AreWords-loaded rd _ h.0 (omega arith)
  emitted-AreWords exchange_pc place h = AreWords-jumped _ (omega arith)
  emitted-AreWords (branch offset) place h = AreWords-jumped _ (omega arith)
  emitted-AreWords (call offset) place h = AreWords-called _ (omega arith)
  emitted-AreWords (call_thumb half offset) place h = AreWords-called _ (omega arith)
  emitted-AreWords (plain op rn low) place h = omega (arith, h)

  -- Every word of a relocated sequence that reads a memory of words has 32 bits.
  pub relocate_all-AreWords :
      (is : List Instr) (place : ℕ)
      → AllMove is
      → AreWords (relocate_all load (u32 (place + 8)) (map encode is))
  unfolding relocate_all AllMove AreWords
  relocate_all-AreWords [] place m = omega arith
  relocate_all-AreWords (i ∷ is) place m =
      let e : u32 (u32 (place + 8) + 4) ≡ u32 (place + 4 + 8) = omega arith in
      rw (get_type_in_arm-encode i m.0, by_type-emitted load place i m.0, e)
        (AreWords-append (emitted i (literal load i place)) _ (emitted-AreWords i place m.0)
          (relocate_all-AreWords is (place + 4) m.2))
