-- ===== src/Relocate/Thumb32/Plain.antt =====
-- The wide Thumb instructions that relocate.c copies as they are.
use unity_game_localization.Prelude.{
  ℕ, ◌+◌, ◌*◌, ◌/◌, ◌%◌, ◌^◌, ◌<◌, ◌≡◌, ◌≢◌, ◌⊎◌, inl, inr, refl, ap, ◌∙◌, ◌==◌, ◌&&◌, ◌||◌, not,
  bit_and, bit_or, Bool, true, [], ◌∷◌, arith, all_below, all_below_lem, ==_of_ne,
}
use unity_game_localization.Prelude.Bits.{◌<<◌, bit_or-shift, bit_and_le}
use unity_game_localization.Relocate.Classify.{undefine, get_type_in_thumb32}
use unity_game_localization.Relocate.Thumb32.{relocate_by_type32, relocate_instruction_in_thumb32}
use unity_game_localization.Relocate.Arm.Types.{test_both}
use unity_game_localization.Relocate.Thumb16.Machine.{plain_wide, IsEncodable}

-- What the tests of `getTypeInThumb32` make of the first halfword.
abbrev misses : ℕ → Bool
misses high =
    not (bit_and high 0xFBFF == 0xF2AF)
    && not (bit_and high 0xFBFF == 0xF20F)
    && not (bit_and high 0xFF7F == 0xF85F)
    && not (bit_and high 0xFFFF == 0xE8DF)

abbrev misses_branch : ℕ → Bool
misses_branch high = not (bit_and high 0xF800 == 0xF000)

misses_all : all_below 256 (λ a. all_below 256 (λ b. (b % 16 == 15) || misses (a * 256 + b))) ≡ true
unfolding all_below
misses_all = refl

misses_branch_all :
    all_below 256 (λ a. all_below 256 (λ b. (a / 8 == 30) || misses_branch (a * 256 + b))) ≡ true
unfolding all_below
misses_branch_all = refl

misses_plain : (high : ℕ) → high < 2 ^ 16 → high % 16 ≢ 15 → misses high ≡ true
misses_plain high h n =
    let all =
      all_below_lem 256 (λ b. (b % 16 == 15) || misses (high / 256 * 256 + b)) (high % 256)
        (all_below_lem 256 (λ a. all_below 256 (λ b. (b % 16 == 15) || misses (a * 256 + b)))
          (high / 256) misses_all (omega arith))
        (omega arith) in
    let e : high / 256 * 256 + high % 256 ≡ high = omega arith in
    rw (==_of_ne (high % 256 % 16) 15 (omega arith), e) at all

misses_branch_plain : (high : ℕ) → high < 2 ^ 16 → high / 2048 ≢ 30 → misses_branch high ≡ true
misses_branch_plain high h n =
    let all =
      all_below_lem 256 (λ b. (high / 256 / 8 == 30) || misses_branch (high / 256 * 256 + b))
        (high % 256)
        (all_below_lem 256 (λ a. all_below 256 (λ b. (a / 8 == 30) || misses_branch (a * 256 + b)))
          (high / 256) misses_branch_all (omega arith))
        (omega arith) in
    let e : high / 256 * 256 + high % 256 ≡ high = omega arith in
    rw (==_of_ne (high / 256 / 8) 30 (omega arith), e) at all

module _ (high low : ℕ) (fits : low < 2 ^ 16) where
  type-misses :
      misses high ≡ true
      → (misses_branch high ≡ true) ⊎ (low < 0x8000)
      → get_type_in_thumb32 (high * 2 ^ 16 + low) ≡ undefine
  unfolding get_type_in_thumb32
  type-misses m (inl b) =
      rw
        (
          test_both high low fits 0xFFF0 0xD000 0xF3B0 0x8000 (omega arith) (omega arith),
          test_both high low fits 0xF800 0xD000 0xF000 0xC000 (omega arith) (omega arith),
          test_both high low fits 0xF800 0xD000 0xF000 0xD000 (omega arith) (omega arith),
          test_both high low fits 0xF800 0xD000 0xF000 0x8000 (omega arith) (omega arith),
          test_both high low fits 0xF800 0xD000 0xF000 0x9000 (omega arith) (omega arith),
          test_both high low fits 0xFBFF 0x8000 0xF2AF 0 (omega arith) (omega arith),
          test_both high low fits 0xFBFF 0x8000 0xF20F 0 (omega arith) (omega arith),
          test_both high low fits 0xFF7F 0 0xF85F 0 (omega arith) (omega arith),
          test_both high low fits 0xFFFF 0xF0 0xE8DF 0 (omega arith) (omega arith),
          test_both high low fits 0xFFFF 0xF0 0xE8DF 0x10 (omega arith) (omega arith),
        )
        (ground arith)
  type-misses m (inr b) =
      let l = bit_and_le low 0xD000 in
      rw
        (
          test_both high low fits 0xFFF0 0xD000 0xF3B0 0x8000 (omega arith) (omega arith),
          test_both high low fits 0xF800 0xD000 0xF000 0xC000 (omega arith) (omega arith),
          test_both high low fits 0xF800 0xD000 0xF000 0xD000 (omega arith) (omega arith),
          test_both high low fits 0xF800 0xD000 0xF000 0x8000 (omega arith) (omega arith),
          test_both high low fits 0xF800 0xD000 0xF000 0x9000 (omega arith) (omega arith),
          test_both high low fits 0xFBFF 0x8000 0xF2AF 0 (omega arith) (omega arith),
          test_both high low fits 0xFBFF 0x8000 0xF20F 0 (omega arith) (omega arith),
          test_both high low fits 0xFF7F 0 0xF85F 0 (omega arith) (omega arith),
          test_both high low fits 0xFFFF 0xF0 0xE8DF 0 (omega arith) (omega arith),
          test_both high low fits 0xFFFF 0xF0 0xE8DF 0x10 (omega arith) (omega arith),
        )
        (ground arith)

-- A plain wide instruction is copied.
pub relocate_instruction_in_thumb32-plain_wide :
    (load : ℕ → ℕ) (pc high low : ℕ)
    → IsEncodable (plain_wide high low)
    → (relocate_instruction_in_thumb32 load pc high low).words ≡ high ∷ low ∷ []
unfolding relocate_instruction_in_thumb32 relocate_by_type32 IsEncodable
relocate_instruction_in_thumb32-plain_wide load pc high low (_, h, l, n, b) =
    let word : bit_or (high << 16) low ≡ high * 2 ^ 16 + low = bit_or-shift 16 high low l in
    let type : get_type_in_thumb32 (bit_or (high << 16) low) ≡ undefine =
      ap get_type_in_thumb32 word ∙ type-misses high low l (misses_plain high h n) (branch b) in
    ap (λ t. (relocate_by_type32 load t pc high low).words) type
  where
    branch : (high / 2048 ≢ 30) ⊎ (low < 0x8000) → (misses_branch high ≡ true) ⊎ (low < 0x8000)
    branch (inl m) = inl (misses_branch_plain high h m)
    branch (inr m) = inr m
