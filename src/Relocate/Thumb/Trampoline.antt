-- ===== src/Relocate/Thumb/Trampoline.antt =====
-- The trampoline of `relocateInstructionInThumb` of relocate.c as a whole, against the instructions
-- that it stands for.
use unity_game_localization.Prelude.{
  ℕ, ◌+◌, ◌*◌, ◌%◌, ◌^◌, ◌≤◌, ◌<◌, ◌≡◌, refl, sym, subst, ap, ◌∙◌, true, List, [], ◌∷◌, ◌++◌, arith,
  length, length-append, inl, inr, get_elem?-append_left, get_elem?-append_right,
}
use unity_game_localization.Prelude.Bits.{u32}
use unity_game_localization.Relocate.Thumb16.Shape.{
  IsEmitted, relocate_instruction_in_thumb16-IsEmitted,
}
use unity_game_localization.Relocate.Common.{Emitted}
use unity_game_localization.Relocate.Thumb16.Machine.{
  Cpu, Instr, load_up, move_pc, branch, branch_if, compare_branch, jump, no_op, plain, plain_wide,
  IsEncodable, encode, code, size, effect, IsPlaced, Steps, stop,
}
use unity_game_localization.Relocate.Thumb16.Runs.{at, Steps-append, run-plain_wide}
use unity_game_localization.Relocate.Thumb16.Refine.{relocate_instruction_in_thumb16-effect}
use unity_game_localization.Relocate.Thumb32.Plain.{relocate_instruction_in_thumb32-plain_wide}
use unity_game_localization.Relocate.Thumb.{start}
use unity_game_localization.Relocate.Thumb.Whole.{
  moves_on, AllMove, codes, relocated, relocate_all, halves, halves-cases, length-code,
}

-- The instructions one after the other, each at its own place.
unfoldable pub in_order : (load : ℕ → ℕ) (place : ℕ) → List Instr → Cpu → Cpu
unfolding effect
in_order load place [] c = at place c
in_order load place (i ∷ is) c =
    in_order load (place + size i) is (effect load i place (place + size i) c)

module _ (load : ℕ → ℕ) where
  -- Such an instruction ends behind itself and stays in Thumb mode, wherever it is fetched from.
  pub effect-moves :
      (i : Instr) (place next next' p : ℕ) (c : Cpu)
      → moves_on i ≡ true
      → (effect load i place next c ≡ at next (effect load i place next' c))
        × (effect load i place next (at p c) ≡ effect load i place next c)
        × ((effect load i place next c).thumb ≡ c.thumb)
  unfolding effect moves_on
  effect-moves (load_up rd imm) place next next' p c h = (refl, refl, refl)
  effect-moves (move_pc rd) place next next' p c h = (refl, refl, refl)
  effect-moves no_op place next next' p c h = (refl, refl, refl)
  effect-moves (plain high low) place next next' p c h = (refl, refl, refl)
  effect-moves (plain_wide high low) place next next' p c h = (refl, refl, refl)
  effect-moves (branch offset) place next next' p c h = absurd (cc h)
  effect-moves (branch_if condition offset) place next next' p c h = absurd (cc h)
  effect-moves (compare_branch nonzero high offset rn) place next next' p c h = absurd (cc h)
  effect-moves jump place next next' p c h = absurd (cc h)

  pub in_order-thumb :
      (is : List Instr) (place : ℕ) (c : Cpu)
      → AllMove is
      → (in_order load place is c).thumb ≡ c.thumb
  unfolding in_order AllMove
  in_order-thumb [] place c m = refl
  in_order-thumb (i ∷ is) place c m =
      in_order-thumb is (place + size i) (effect load i place (place + size i) c) m.2
      ∙ (effect-moves i place (place + size i) 0 0 c m.1).2

-- Halfwords behind one another are placed behind one another.
pub IsPlaced-append :
    (half : ℕ → ℕ) (start : ℕ) (xs ys : List ℕ)
    → IsPlaced half start (xs ++ ys)
    → IsPlaced half start xs × IsPlaced half (start + 2 * length xs) ys
IsPlaced-append half start xs ys p = (
  λ k w h. p k w (get_elem?-append_left xs ys k w h),
  λ k w h.
      ap half
        (let e : start + 2 * length xs + 2 * k ≡ start + 2 * (length xs + k) = omega arith in e)
      ∙ p (length xs + k) w (get_elem?-append_right xs ys k ∙ h),
)

module _ (load half : ℕ → ℕ) (place start : ℕ) (c : Cpu) (even : place % 2 ≡ 0)
    (fits : (start % 4 ≡ 0) × (start + 16 < 2 ^ 32)) (t : c.thumb ≡ true) where
  run-wide :
      (high low : ℕ)
      → IsEncodable (plain_wide high low)
      → IsPlaced half start (relocated load place (plain_wide high low))
      → Steps half (at start c) (
          effect load
            (plain_wide high low)
            place
            (start + 2 * length (relocated load place (plain_wide high low)))
            c)
  unfolding effect relocated
  run-wide high low h =
      subst
        (λ (ws : List ℕ).
          IsPlaced half start ws
          → Steps half (at start c)
              (effect load (plain_wide high low) place (start + 2 * length ws) c))
        (sym (relocate_instruction_in_thumb32-plain_wide load (u32 (place + 4)) high low h))
        (run-plain_wide half high low start c h fits.1 t)

  -- The halfwords for one instruction do what it does.
  run-relocated :
      (i : Instr)
      → IsEncodable i
      → moves_on i ≡ true
      → IsPlaced half start (relocated load place i)
      → Steps half
          (at start c)
          (effect load i place (start + 2 * length (relocated load place i)) c)
  unfolding relocated moves_on size
  run-relocated (load_up rd imm) h m p =
      relocate_instruction_in_thumb16-effect load half place start c even fits t (load_up rd imm) h
        refl p
  run-relocated (move_pc rd) h m p =
      relocate_instruction_in_thumb16-effect load half place start c even fits t (move_pc rd) h refl
        p
  run-relocated no_op h m p =
      relocate_instruction_in_thumb16-effect load half place start c even fits t no_op h refl p
  run-relocated (plain high low) h m p =
      relocate_instruction_in_thumb16-effect load half place start c even fits t (plain high low) h
        refl p
  run-relocated (plain_wide high low) h m p = run-wide high low h p
  run-relocated (branch offset) h m p = absurd (cc m)
  run-relocated (branch_if condition offset) h m p = absurd (cc m)
  run-relocated (compare_branch nonzero high offset rn) h m p = absurd (cc m)
  run-relocated jump h m p = absurd (cc m)

pub size-even : (i : Instr) (place : ℕ) → place % 2 ≡ 0 → (place + size i) % 2 ≡ 0
size-even i place e = elim (halves-cases i) [ inl s ↦ omega (arith, s) | inr s ↦ omega (arith, s) ]

narrow : {e : Emitted} → IsEmitted 8 e → (length e.words % 2 ≡ 0) × (length e.words ≤ 8 * 1)
narrow h = (omega (arith, h.counted, h.aligned), omega (arith, h.counted, h.bounded))

-- They are an even number, at most eight for each halfword.
length-relocated :
    (load : ℕ → ℕ) (place : ℕ) (i : Instr)
    → IsEncodable i
    → moves_on i ≡ true
    → (length (relocated load place i) % 2 ≡ 0) × (length (relocated load place i) ≤ 8 * halves i)
unfolding relocated moves_on size
length-relocated load place (load_up rd imm) h m =
    narrow
      (relocate_instruction_in_thumb16-IsEmitted load (u32 (place + 4)) (encode (load_up rd imm)))
length-relocated load place (move_pc rd) h m =
    narrow (relocate_instruction_in_thumb16-IsEmitted load (u32 (place + 4)) (encode (move_pc rd)))
length-relocated load place no_op h m =
    narrow (relocate_instruction_in_thumb16-IsEmitted load (u32 (place + 4)) (encode no_op))
length-relocated load place (plain high low) h m =
    narrow
      (relocate_instruction_in_thumb16-IsEmitted load (u32 (place + 4)) (encode (plain high low)))
length-relocated load place (plain_wide high low) h m = omega (
  arith,
  ap (λ (ws : List ℕ). length ws)
      (relocate_instruction_in_thumb32-plain_wide load (u32 (place + 4)) high low h),
)
length-relocated load place (branch offset) h m = absurd (cc m)
length-relocated load place (branch_if condition offset) h m = absurd (cc m)
length-relocated load place (compare_branch nonzero high offset rn) h m = absurd (cc m)
length-relocated load place jump h m = absurd (cc m)

pub length-relocate_all :
    (load : ℕ → ℕ) (place : ℕ) (is : List Instr)
    → AllMove is
    → (length (relocate_all load place is) % 2 ≡ 0)
      × (length (relocate_all load place is) ≤ 8 * length (codes is))
unfolding relocate_all codes AllMove
length-relocate_all load place [] m = omega arith
length-relocate_all load place (i ∷ is) m = omega (
  arith,
  length-relocated load place i m.0 m.1,
  length-code i m.1,
  length-relocate_all load (place + size i) is m.2,
  length-append (relocated load place i) (relocate_all load (place + size i) is),
  length-append (code i) (codes is),
)

module _ (load after : ℕ → ℕ) where
  pub trampoline-Steps :
      (is : List Instr) (place start : ℕ) (c : Cpu)
      → AllMove is
      → c.thumb ≡ true
      → (place % 2 ≡ 0) × (start % 4 ≡ 0)
      → start + 2 * length (relocate_all load place is) + 16 < 2 ^ 32
      → IsPlaced after start (relocate_all load place is)
      → Steps after
          (at start c)
          (at (start + 2 * length (relocate_all load place is)) (in_order load place is c))
  unfolding in_order AllMove relocate_all
  trampoline-Steps [] place start c m t a l p =
      subst (λ n. Steps after (at start c) (at n c))
        (let e : start ≡ start + 2 * 0 = omega arith in e) (stop (at start c))
  trampoline-Steps (i ∷ is) place start c m t a l p =
      let w = relocated load place i in
      let rest = relocate_all load (place + size i) is in
      let parts = IsPlaced-append after start w rest p in
      let moved = effect-moves load i place (start + 2 * length w) (place + size i) 0 c m.1 in
      let d : Cpu = effect load i place (place + size i) c in
      let same = (effect-moves load i place (place + size i) 0 0 c m.1).2 in
      let total : length (w ++ rest) ≡ length w + length rest = length-append w rest in
      let shape = length-relocated load place i m.0 m.1 in
      let one =
        run-relocated load after place start c a.0 (a.1, omega (arith, total)) t i m.0 m.1
          parts.0 in
      let further =
        trampoline-Steps is (place + size i) (start + 2 * length w) d m.2 (same ∙ t)
          (size-even i place a.0, omega (arith, shape.0)) (omega (arith, total)) parts.1 in
      let behind : start + 2 * length w + 2 * length rest ≡ start + 2 * length (w ++ rest) =
        omega (arith, total) in
      Steps-append after (at start c) (at (start + 2 * length w) d)
        (at (start + 2 * length (w ++ rest)) (in_order load (place + size i) is d))
        (subst (Steps after (at start c)) moved.0 one)
        (subst
          (λ n.
            Steps after (at (start + 2 * length w) d) (at n (in_order load (place + size i) is d)))
          behind further)
