-- ===== src/Relocate/Thumb16/Words.antt =====
-- The halfwords that `relocateInstructionInThumb16` of relocate.c emits, as instructions and a
-- literal.
use unity_game_localization.Prelude.{
  ℕ, ◌+◌, ◌-◌, ◌*◌, ◌/◌, ◌%◌, ◌^◌, ◌<◌, ◌≡◌, refl, ap, ap₂, ◌∙◌, List, [], ◌∷◌, bit_and, bit_or,
  arith,
}
use unity_game_localization.Prelude.Bits.{
  ◌<<◌, u32, bit_and-split, bit_and-low, bit_and-zero, bit_or-shift,
}
use unity_game_localization.Relocate.Common.{align_pc, low_half, high_half}
use unity_game_localization.Relocate.Thumb16.{
  jump_thumb, branch16, load_literal16, compare_branch16, relocate_by_type16,
  relocate_instruction_in_thumb16,
}
use unity_game_localization.Relocate.Thumb16.Machine.{
  Instr, load_up, move_pc, branch, branch_if, compare_branch, jump, no_op, plain, plain_wide,
  IsEncodable, encode, size, distance, aligned,
}
use unity_game_localization.Relocate.Thumb16.Fields.{
  plain-fields, load-fields, move-fields, branch-fields, branch_if-fields, compare-fields,
}

-- What the instruction loads or reads, or where it goes, with the bit for the mode.
unfoldable pub literal : (load : ℕ → ℕ) → Instr → (place : ℕ) → ℕ
literal load (load_up rd imm) place = load (u32 (aligned (u32 (place + 4)) + imm * 4))
literal load (move_pc rd) place = u32 (place + 4)
literal load (branch offset) place = u32 (place + 4 + distance 1024 offset) + 1
literal load (branch_if condition offset) place = u32 (place + 4 + distance 128 offset) + 1
literal load (compare_branch nonzero high offset rn) place =
    u32 (place + 4 + high * 64 + offset * 2) + 1
literal load jump place = 0
literal load no_op place = 0
literal load (plain high low) place = 0
literal load (plain_wide high low) place = 0

abbrev pub halves : ℕ → List ℕ
halves value = low_half value ∷ high_half value ∷ []

abbrev pub loaded : (rd value : ℕ) → List ℕ
loaded rd value = encode (load_up rd 0) ∷ encode (branch 1) ∷ halves value

abbrev pub jumped : (value : ℕ) → List ℕ
jumped value = 0xF8DF ∷ 0xF000 ∷ halves value

abbrev pub guarded : Instr → (value : ℕ) → List ℕ
guarded i value = encode i ∷ encode (branch 3) ∷ jumped value

unfoldable pub emitted : Instr → (value : ℕ) → List ℕ
unfolding encode
emitted (load_up rd imm) value = loaded rd value
emitted (move_pc rd) value = loaded rd value
emitted (branch offset) value = jumped value
emitted (branch_if condition offset) value = guarded (branch_if condition 0) value
emitted (compare_branch nonzero high offset rn) value =
    guarded (compare_branch nonzero 0 0 rn) value
emitted jump value = []
emitted no_op value = encode no_op ∷ encode no_op ∷ []
emitted (plain high low) value = encode (plain high low) ∷ encode no_op ∷ []
emitted (plain_wide high low) value = []

align_pc-aligned : (pc : ℕ) → pc < 2 ^ 32 → align_pc pc ≡ aligned pc
align_pc-aligned pc l =
    let e : pc ≡ pc / 4 * 2 ^ 2 + pc % 4 = omega arith in
    ap (λ x. bit_and x 0xFFFFFFFC) e
    ∙ (bit_and-split 2 (pc / 4) (2 ^ 30 - 1) (pc % 4) 0 (omega arith) (omega arith)
        ∙ omega (arith, bit_and-low 30 (pc / 4), bit_and-zero (pc % 4)))

-- `value |= 1` on an even value.
or_one : (value : ℕ) → value % 2 ≡ 0 → bit_or value 1 ≡ value + 1
or_one value even =
    let e : value ≡ value / 2 << 1 = omega arith in
    ap (λ x. bit_or x 1) e ∙ omega (arith, bit_or-shift 1 (value / 2) 1 (omega arith))

pub distance_even : (half offset : ℕ) → distance half offset % 2 ≡ 0
distance_even half offset = ground arith

jump_thumb-jumped :
    (value value' : ℕ) → value ≡ value' → value' % 2 ≡ 0 → jump_thumb value ≡ jumped (value' + 1)
unfolding jump_thumb
jump_thumb-jumped value value' e even = ap jumped (ap (λ x. bit_or x 1) e ∙ or_one value' even)

loads :
    (r rd value value' : ℕ)
    → r ≡ rd
    → value ≡ value'
    → bit_or 0x4800 (rd << 8) ≡ 0x4800 + rd * 256 + 0
    → (load_literal16 r value).words ≡ loaded rd value'
unfolding load_literal16 encode
loads r rd value value' e e' w =
    ap₂ (λ x v. bit_or 0x4800 (x << 8) ∷ 0xE001 ∷ halves v) e e'
    ∙ ap (λ x. x ∷ 0xE001 ∷ halves value') w

module _ (load : ℕ → ℕ) (place : ℕ) (even : place % 2 ≡ 0) where
  -- The jump to the target of a branch.
  target :
      (half offset x : ℕ)
      → x ≡ distance half offset
      → jump_thumb (u32 (u32 (place + 4) + x)) ≡ jumped (u32 (place + 4 + distance half offset) + 1)
  target half offset x e =
      jump_thumb-jumped _ (u32 (place + 4 + distance half offset))
        (ap (λ d. u32 (u32 (place + 4) + d)) e ∙ omega arith)
        (omega (arith, distance_even half offset))

  pub relocate_instruction_in_thumb16-emitted :
      (i : Instr)
      → IsEncodable i
      → size i ≡ 2
      → (relocate_instruction_in_thumb16 load (u32 (place + 4)) (encode i)).words
        ≡ emitted i (literal load i place)
  unfolding relocate_instruction_in_thumb16 relocate_by_type16 branch16 load_literal16
      compare_branch16 jump_thumb encode emitted literal IsEncodable size
  relocate_instruction_in_thumb16-emitted (load_up rd imm) h s =
      let (t, r, o, w) = load-fields rd imm h.0 h.1 in
      ap (λ t. (relocate_by_type16 load t (u32 (place + 4)) (encode (load_up rd imm))).words) t
      ∙ loads _ rd _ _ r
          (ap load (
            ap₂ (λ a b. u32 (a + (b << 2))) (align_pc-aligned (u32 (place + 4)) (omega arith)) o
            ∙ omega arith))
          w
  relocate_instruction_in_thumb16-emitted (move_pc rd) h s =
      let (t, r, w) = move-fields rd h.0 in
      ap (λ t. (relocate_by_type16 load t (u32 (place + 4)) (encode (move_pc rd))).words) t
      ∙ loads _ rd _ _ r refl w
  relocate_instruction_in_thumb16-emitted (branch offset) h s =
      let (t, d) = branch-fields offset h.0 in
      ap (λ t. (relocate_by_type16 load t (u32 (place + 4)) (encode (branch offset))).words) t
      ∙ target 1024 offset _ d
  relocate_instruction_in_thumb16-emitted (branch_if c offset) h s =
      let (t, d, w) = branch_if-fields c offset h.0 h.1 in
      ap (λ t. (relocate_by_type16 load t (u32 (place + 4)) (encode (branch_if c offset))).words) t
      ∙ ap₂ (λ x j. x ∷ 0xE003 ∷ j) w (target 128 offset _ d)
  relocate_instruction_in_thumb16-emitted (compare_branch n hi o rn) h s =
      let (t, d, w) = compare-fields n hi o rn h.0 h.1 h.2 h.3 in
      ap
        (λ t.
          (relocate_by_type16 load t (u32 (place + 4)) (encode (compare_branch n hi o rn))).words)
        t
      ∙ ap₂ (λ x v. x ∷ 0xE003 ∷ jumped v) w
          (ap (λ x. u32 (u32 (place + 4) + x + 1)) d ∙ omega arith)
  relocate_instruction_in_thumb16-emitted jump h s = absurd (omega arith)
  relocate_instruction_in_thumb16-emitted no_op h s = refl
  relocate_instruction_in_thumb16-emitted (plain high low) h s =
      let t = plain-fields high low (omega (arith, h)) h.1 h.3 in
      ap (λ t. (relocate_by_type16 load t (u32 (place + 4)) (high * 256 + low)).words) t
  relocate_instruction_in_thumb16-emitted (plain_wide high low) h s = absurd (omega arith)
