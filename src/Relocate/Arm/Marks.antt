-- ===== src/Relocate/Arm/Marks.antt =====
-- The boundaries that `relocateInstructionInArm` of relocate.c records for the two instructions
-- that inlineHook.c copies in Arm mode.
use unity_game_localization.Prelude.{
  ℕ, ◌+◌, ◌*◌, ◌≤◌, ◌≡◌, refl, sym, subst, List, [], ◌∷◌, arith, length,
}
use unity_game_localization.Prelude.Bits.{u32}
use unity_game_localization.Run.{ok}
use unity_game_localization.Relocate.Classify.{get_type_in_arm}
use unity_game_localization.Relocate.Boundaries.{
  Boundaries, orig_boundary, trampoline_boundary, marked, mark-marked,
}
use unity_game_localization.Relocate.Thumb.{Relocated}
use unity_game_localization.Relocate.Arm.{
  relocate_by_type_arm, arm_loop, relocate_instruction_in_arm,
}

-- What the first of the instructions at an address becomes.
abbrev pub first_words : (load : ℕ → ℕ) (target_addr instruction : ℕ) → List ℕ
first_words load target_addr instruction =
    relocate_by_type_arm load (get_type_in_arm instruction) (u32 (target_addr + 8)) instruction

module _ (load : ℕ → ℕ) (target_addr a b : ℕ) (bounds : Boundaries) where
  abbrev both : Boundaries
  both = marked 4 (length (first_words load target_addr a) * 4) (marked 0 0 bounds)

  pub relocated-bounds :
      (r : Relocated)
      → bounds.count ≤ 14
      → relocate_instruction_in_arm load target_addr (a ∷ b ∷ []) 8 bounds ≡ ok r
      → r.bounds ≡ both
  unfolding relocate_instruction_in_arm arm_loop
  relocated-bounds r room e =
      let e' =
        rw
          (
            mark-marked 0 0 bounds (omega arith),
            mark-marked 4 (length (first_words load target_addr a) * 4) (marked 0 0 bounds)
                (omega arith),
          )
          at e in
      cc e'

-- In a slot without boundaries the two boundaries of the original are 0 and 4, and those of the
-- trampoline 0 and where the second instruction's words begin.
pub record IsMarked (size : ℕ) (b : Boundaries) : Type 0 where
  pub two : b.count ≡ 2
  pub first : orig_boundary b 0 ≡ 0
  pub second : orig_boundary b 1 ≡ 4
  pub first_moved : trampoline_boundary b 0 ≡ 0
  pub second_moved : trampoline_boundary b 1 ≡ size

marked-IsMarked :
    (cells : List ℕ) (size : ℕ)
    → length cells ≡ 24
    → IsMarked size (marked 4 size (marked 0 0 (record { cells = cells; count = 0 })))
marked-IsMarked [] size l = absurd (omega arith)
marked-IsMarked (a ∷ []) size l = absurd (omega arith)
marked-IsMarked (a ∷ b ∷ []) size l = absurd (omega arith)
marked-IsMarked (a ∷ b ∷ c ∷ []) size l = absurd (omega arith)
marked-IsMarked (a ∷ b ∷ c ∷ d ∷ []) size l = absurd (omega arith)
marked-IsMarked (a ∷ b ∷ c ∷ d ∷ e ∷ []) size l = absurd (omega arith)
marked-IsMarked (a ∷ b ∷ c ∷ d ∷ e ∷ f ∷ cells) size l = record {
  two = refl;
  first = refl;
  second = refl;
  first_moved = refl;
  second_moved = refl;
}

pub relocated-IsMarked :
    (load : ℕ → ℕ) (target_addr a b : ℕ) (bounds : Boundaries) (r : Relocated)
    → bounds.count ≡ 0
    → length bounds.cells ≡ 24
    → relocate_instruction_in_arm load target_addr (a ∷ b ∷ []) 8 bounds ≡ ok r
    → IsMarked (length (first_words load target_addr a) * 4) r.bounds
relocated-IsMarked load target_addr a b bounds r none l e =
    let size = length (first_words load target_addr a) * 4 in
    let fresh : IsMarked size (marked 4 size (marked 0 0 bounds)) =
      subst
        (λ n.
          IsMarked size (marked 4 size (marked 0 0 (record { cells = bounds.cells; count = n }))))
        (sym none) (marked-IsMarked bounds.cells size l) in
    subst (IsMarked size) (sym (relocated-bounds load target_addr a b bounds r (omega arith) e))
      fresh
