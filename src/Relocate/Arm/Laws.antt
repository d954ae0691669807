-- ===== src/Relocate/Arm/Laws.antt =====
-- The loop of `relocateInstructionInArm` of relocate.c, instruction by instruction.
use unity_game_localization.Prelude.{
  ℕ, ◌+◌, ◌*◌, ◌/◌, ◌≤◌, ◌≡◌, refl, ap, sym, append-nil, append_assoc, ◌∙◌, List, [], ◌∷◌, ◌++◌,
  arith, length, take, length-append, length-take,
}
use unity_game_localization.Prelude.Bits.{u32}
use unity_game_localization.Run.{ok}
use unity_game_localization.Relocate.Classify.{InstructionType, blx_arm, get_type_in_arm}
use unity_game_localization.Relocate.Boundaries.{Boundaries, marked, mark-marked}
use unity_game_localization.Relocate.Thumb.{Relocated}
use unity_game_localization.Relocate.Arm.{
  relocate_by_type_arm, arm_loop, relocate_instruction_in_arm,
}

pub by_type_arm-length :
    (load : ℕ → ℕ) (type : InstructionType) (pc instruction : ℕ)
    → (1 ≤ length (relocate_by_type_arm load type pc instruction))
      × (length (relocate_by_type_arm load type pc instruction) ≤ 6)
unfolding relocate_by_type_arm
by_type_arm-length load blx_arm pc instruction = omega arith
by_type_arm-length load _ pc instruction = omega arith

-- The words for a sequence of instructions, each with the `pc` of its place.
unfoldable pub relocate_all : (load : ℕ → ℕ) (pc : ℕ) → List ℕ → List ℕ
relocate_all load pc [] = []
relocate_all load pc (i ∷ is) =
    relocate_by_type_arm load (get_type_in_arm i) pc i ++ relocate_all load (u32 (pc + 4)) is

pub length-relocate_all :
    (load : ℕ → ℕ) (pc : ℕ) (is : List ℕ)
    → (length is ≤ length (relocate_all load pc is))
      × (length (relocate_all load pc is) ≤ 6 * length is)
unfolding relocate_all
length-relocate_all load pc [] = omega arith
length-relocate_all load pc (i ∷ is) =
    rw
      (length-append (relocate_by_type_arm load (get_type_in_arm i) pc i)
        (relocate_all load (u32 (pc + 4)) is))
      (omega (
        arith,
        length-relocate_all load (u32 (pc + 4)) is,
        by_type_arm-length load (get_type_in_arm i) pc i,
      ))

module _ (load : ℕ → ℕ) where
  arm_loop-relocate_all :
      (orig_pos pc : ℕ) (words : List ℕ) (b : Boundaries) (is : List ℕ)
      → b.count + length is ≤ 20
      → (b' : Boundaries) × (arm_loop load orig_pos pc words b is
          ≡ ok (words ++ relocate_all load pc is, b'))
        × (b'.count ≡ b.count + length is)
  unfolding arm_loop relocate_all
  arm_loop-relocate_all orig_pos pc words b [] h =
      (b, ap (λ ws. ok (ws, b)) (sym (append-nil words)), omega arith)
  arm_loop-relocate_all orig_pos pc words b (i ∷ is) h =
      let b₁ = marked (orig_pos * 4) (length words * 4) b in
      let new = relocate_by_type_arm load (get_type_in_arm i) pc i in
      let (b', e, c) =
        arm_loop-relocate_all (orig_pos + 1) (u32 (pc + 4)) (words ++ new) b₁ is (omega arith) in
      (
        b',
        rw (mark-marked (orig_pos * 4) (length words * 4) b (omega arith))
            (e ∙ ap (λ ws. ok (ws, b')) (append_assoc words new _)),
        omega arith,
      )

  -- With the words to copy at hand and room for a boundary each, the relocation in Arm mode ends
  -- without a fault: the trampoline is the concatenation of what each instruction in turn becomes
  -- at its own PC, one to six words each, and a jump whose literal is the address behind the copied
  -- bytes, and one boundary is recorded for every instruction.
  pub relocate_instruction_in_arm-relocate_all :
      (target_addr : ℕ) (orig : List ℕ) (len : ℕ) (b : Boundaries)
      → len / 4 ≤ length orig
      → b.count + len / 4 ≤ 20
      → (r : Relocated) × (relocate_instruction_in_arm load target_addr orig len b ≡ ok r)
        × (r.trampoline
            ≡ relocate_all load (u32 (target_addr + 8)) (take (len / 4) orig)
              ++ 0xE51FF004 ∷ u32 (target_addr + len) ∷ [])
        × (len / 4 + 2 ≤ length r.trampoline)
        × (length r.trampoline ≤ 6 * (len / 4) + 2)
        × (r.bounds.count ≡ b.count + len / 4)
  unfolding relocate_instruction_in_arm
  relocate_instruction_in_arm-relocate_all target_addr orig len b enough room =
      let is = take (len / 4) orig in
      let words = relocate_all load (u32 (target_addr + 8)) is in
      let n : length is ≡ len / 4 = length-take (len / 4) orig enough in
      let (b', e, c) = arm_loop-relocate_all 0 (u32 (target_addr + 8)) [] b is (omega (arith, n)) in
      let total = length-append words (0xE51FF004 ∷ u32 (target_addr + len) ∷ []) in
      (
        record { trampoline = words ++ 0xE51FF004 ∷ u32 (target_addr + len) ∷ []; bounds = b' },
        rw e,
        refl,
        omega (arith, total, length-relocate_all load (u32 (target_addr + 8)) is, n),
        omega (arith, total, length-relocate_all load (u32 (target_addr + 8)) is, n),
        omega (arith, c, n),
      )
