-- ===== src/Relocate/Thumb/Whole.antt =====
-- Thumb instructions that do not write the program counter, one after the other, and what the loop
-- of `relocateInstructionInThumb` of relocate.c makes of them.
use unity_game_localization.Prelude.{
  ℕ, zero, suc, ◌+◌, ◌/◌, ◌<◌, ◌≡◌, ◌⊎◌, inl, inr, refl, Bool, true, false, List, [], ◌∷◌, ◌++◌,
  arith, length, length-append, get_or,
}
use unity_game_localization.Prelude.Bits.{u32}
use unity_game_localization.Relocate.Thumb16.{relocate_instruction_in_thumb16}
use unity_game_localization.Relocate.Thumb32.{relocate_instruction_in_thumb32}
use unity_game_localization.Relocate.Thumb16.Machine.{
  Instr, load_up, move_pc, branch, branch_if, compare_branch, jump, no_op, plain, plain_wide,
  IsEncodable, encode, code, size,
}
use unity_game_localization.Relocate.Thumb.{is_wide}

-- The instruction does not write the program counter.
unfoldable pub moves_on : Instr → Bool
moves_on (load_up rd imm) = true
moves_on (move_pc rd) = true
moves_on no_op = true
moves_on (plain high low) = true
moves_on (plain_wide high low) = true
moves_on _ = false

unfoldable pub AllMove : List Instr → Type 0
AllMove [] = true ≡ true
AllMove (i ∷ is) = IsEncodable i × (moves_on i ≡ true) × AllMove is

-- The halfwords of the instructions.
unfoldable pub codes : List Instr → List ℕ
codes [] = []
codes (i ∷ is) = code i ++ codes is

-- What an instruction at an address becomes.
unfoldable pub relocated : (load : ℕ → ℕ) (place : ℕ) → Instr → List ℕ
relocated load place (plain_wide high low) =
    (relocate_instruction_in_thumb32 load (u32 (place + 4)) high low).words
relocated load place i = (relocate_instruction_in_thumb16 load (u32 (place + 4)) (encode i)).words

unfoldable pub relocate_all : (load : ℕ → ℕ) (place : ℕ) → List Instr → List ℕ
relocate_all load place [] = []
relocate_all load place (i ∷ is) = relocated load place i ++ relocate_all load (place + size i) is

-- Only the wide instruction begins with a halfword that says so.
pub narrow-is_wide :
    (i : Instr) → IsEncodable i → moves_on i ≡ true → size i ≡ 2 → is_wide (encode i) ≡ false
unfolding IsEncodable moves_on size encode
narrow-is_wide (load_up rd imm) h m s = ground arith
narrow-is_wide (move_pc rd) h m s = ground arith
narrow-is_wide no_op h m s = refl
narrow-is_wide (plain high low) (l, l', _, _) m s = ground arith
narrow-is_wide (plain_wide high low) h m s = absurd (omega arith)
narrow-is_wide (branch offset) h m s = absurd (cc m)
narrow-is_wide (branch_if condition offset) h m s = absurd (cc m)
narrow-is_wide (compare_branch nonzero high offset rn) h m s = absurd (cc m)
narrow-is_wide jump h m s = absurd (cc m)

pub wide-is_wide : (high low : ℕ) → IsEncodable (plain_wide high low) → is_wide high ≡ true
unfolding IsEncodable
wide-is_wide high low (l, h, _, _, _) = ground arith

-- What the loop leaves uncopied: nothing, or the first half of a wide instruction.
unfoldable pub IsRest : List ℕ → Type 0
IsRest [] = true ≡ true
IsRest (h ∷ []) = is_wide h ≡ true
IsRest (h ∷ h' ∷ rest) = true ≡ false

-- The number of halfwords.
abbrev pub halves : Instr → ℕ
halves i = size i / 2

pub length-code : (i : Instr) → moves_on i ≡ true → length (code i) ≡ halves i
unfolding code size moves_on
length-code (load_up rd imm) m = refl
length-code (move_pc rd) m = refl
length-code no_op m = refl
length-code (plain high low) m = refl
length-code (plain_wide high low) m = refl
length-code (branch offset) m = absurd (cc m)
length-code (branch_if condition offset) m = absurd (cc m)
length-code (compare_branch nonzero high offset rn) m = absurd (cc m)
length-code jump m = absurd (cc m)

pub halves-cases : (i : Instr) → (size i ≡ 2) ⊎ (size i ≡ 4)
unfolding size
halves-cases (load_up rd imm) = inl refl
halves-cases (move_pc rd) = inl refl
halves-cases no_op = inl refl
halves-cases (plain high low) = inl refl
halves-cases (plain_wide high low) = inr refl
halves-cases (branch offset) = inl refl
halves-cases (branch_if condition offset) = inl refl
halves-cases (compare_branch nonzero high offset rn) = inl refl
halves-cases jump = inr refl

pub halves_positive : (i : Instr) → 0 < halves i
halves_positive i = elim (halves-cases i) [ inl s ↦ omega (arith, s) | inr s ↦ omega (arith, s) ]

pub relocate_all-none :
    (load : ℕ → ℕ) (place : ℕ) (is : List Instr)
    → AllMove is
    → length (codes is) ≡ 0
    → relocate_all load place is ≡ []
unfolding relocate_all codes AllMove
relocate_all-none load place [] m h = refl
relocate_all-none load place (i ∷ is) m h =
    absurd
      (omega (arith, h, halves_positive i, length-code i m.1, length-append (code i) (codes is)))

pub get_or-middle :
    (pre ys : List ℕ) (n : ℕ) → length pre ≡ n → get_or (pre ++ ys) n 0 ≡ get_or ys 0 0
get_or-middle [] ys zero h = refl
get_or-middle [] ys (suc n) h = absurd (omega arith)
get_or-middle (x ∷ pre) ys zero h = absurd (omega arith)
get_or-middle (x ∷ pre) ys (suc n) h = get_or-middle pre ys n (omega arith)

pub get_or-next :
    (pre ys : List ℕ) (n : ℕ) → length pre ≡ n → get_or (pre ++ ys) (n + 1) 0 ≡ get_or ys 1 0
get_or-next pre ys n h = let e : n + 1 ≡ suc n = omega arith in rw e (next pre ys n h)
  where
    next : (pre ys : List ℕ) (n : ℕ) → length pre ≡ n → get_or (pre ++ ys) (suc n) 0 ≡ get_or ys 1 0
    next [] ys zero h = refl
    next [] ys (suc n) h = absurd (omega arith)
    next (x ∷ pre) ys zero h = absurd (omega arith)
    next (x ∷ pre) ys (suc n) h = next pre ys n (omega arith)
