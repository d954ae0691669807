-- ===== src/Relocate/Thumb/Refine.antt =====
-- `relocateInstructionInThumb` of relocate.c against the instructions that it copies, run where
-- they stand.
use unity_game_localization.Prelude.{
  ℕ, ◌+◌, ◌-◌, ◌*◌, ◌%◌, ◌^◌, ◌≤◌, ◌<◌, ◌≡◌, refl, sym, subst, ap, ap₂, ◌∙◌, true, List, [], ◌∷◌,
  ◌++◌, arith, length, length-append, ==_of_eq, inl, inr,
}
use unity_game_localization.Prelude.Bits.{u32}
use unity_game_localization.Run.{ok}
use unity_game_localization.Relocate.Boundaries.{Boundaries}
use unity_game_localization.Relocate.Thumb16.Machine.{
  Cpu, Instr, code, size, effect, word_at, jump_to, IsPlaced, Step, fetch, Steps, stop, go,
}
use unity_game_localization.Relocate.Thumb16.Words.{jumped}
use unity_game_localization.Relocate.Thumb16.Runs.{at, same_cpu, Steps-append, run-jump}
use unity_game_localization.Relocate.Thumb.{
  Relocated, start, jump_back, relocate_instruction_in_thumb,
}
use unity_game_localization.Relocate.Thumb.Whole.{
  moves_on, AllMove, codes, relocate_all, IsRest, length-code, halves-cases,
}
use unity_game_localization.Relocate.Thumb.Loop.{loop-relocate_all}
use unity_game_localization.Relocate.Thumb.Trampoline.{
  in_order, effect-moves, in_order-thumb, IsPlaced-append, length-relocate_all, trampoline-Steps,
}
use unity_game_localization.Relocate.Arm.Trampoline.{trampoline_of}

-- Bytes and halfwords of an instruction.
two_code : (i : Instr) → moves_on i ≡ true → 2 * length (code i) ≡ size i
two_code i m = elim (halves-cases i) [
  | inl s ↦ omega (arith, s, length-code i m)
  | inr s ↦ omega (arith, s, length-code i m)
]

module _ (before : ℕ → ℕ) where
  abbrev load : ℕ → ℕ
  load = word_at before

  -- The original instructions do what they do in order.
  pub original-Steps :
      (is : List Instr) (place : ℕ) (c : Cpu)
      → AllMove is
      → c.thumb ≡ true
      → place + 2 * length (codes is) < 2 ^ 32
      → IsPlaced before place (codes is)
      → Steps before (at place c) (in_order (word_at before) place is c)
  unfolding in_order AllMove codes
  original-Steps [] place c m t l p = stop (at place c)
  original-Steps (i ∷ is) place c m t l p =
      let parts = IsPlaced-append before place (code i) (codes is) p in
      let d : Cpu = effect load i place (place + size i) c in
      let moved = effect-moves load i place (u32 (place + size i)) (place + size i) place c m.1 in
      let total : length (code i ++ codes is) ≡ length (code i) + length (codes is) =
        length-append (code i) (codes is) in
      let there : effect load i place (u32 (place + size i)) (at place c) ≡ at (place + size i) d =
        moved.1
        ∙ (moved.0
            ∙ ap (λ n. at n d)
                (let e : u32 (place + size i) ≡ place + size i =
                    omega (arith, total, two_code i m.1) in
                  e)) in
      let next : place + 2 * length (code i) ≡ place + size i = omega (arith, two_code i m.1) in
      go (at place c) (at (place + size i) d) (in_order load (place + size i) is d)
        (subst (Step before (at place c)) there (fetch i (at place c) m.0 t parts.0))
        (original-Steps is (place + size i) d m.2
          ((effect-moves load i place (place + size i) 0 0 c m.1).2 ∙ t)
          (omega (arith, total, two_code i m.1))
          (subst (λ a. IsPlaced before a (codes is)) next parts.1))

-- The state behind the instructions.
in_order-at :
    (load : ℕ → ℕ) (is : List Instr) (place : ℕ) (c : Cpu)
    → AllMove is
    → in_order load place is c ≡ at (place + 2 * length (codes is)) (in_order load place is c)
unfolding in_order AllMove codes
in_order-at load [] place c m = ap (λ n. at n c) (let e : place ≡ place + 2 * 0 = omega arith in e)
in_order-at load (i ∷ is) place c m =
    let d : Cpu = effect load i place (place + size i) c in
    in_order-at load is (place + size i) d m.2
    ∙ ap (λ n. at n (in_order load (place + size i) is d))
        (let e : place + size i + 2 * length (codes is) ≡ place + 2 * length (code i ++ codes is) =
            omega (arith, two_code i m.1, length-append (code i) (codes is)) in
          e)

codes-even : (is : List Instr) (place : ℕ) → place % 2 ≡ 0 → (place + 2 * length (codes is)) % 2 ≡ 0
codes-even is place e = omega arith

module _ (load : ℕ → ℕ) (is : List Instr) (rest : List ℕ) (target_addr : ℕ) (b : Boundaries)
    (m : AllMove is) (r : IsRest rest) (some_code : 0 < length (codes is ++ rest))
    (marks : b.count + length (codes is ++ rest) ≤ 20) where
  -- The trampoline is what each instruction becomes at its own place, and the jump back.
  pub relocate_instruction_in_thumb-relocate_all :
      (q : Relocated) × (relocate_instruction_in_thumb load target_addr
          (codes is ++ rest)
          (2 * length (codes is ++ rest))
          b
        ≡ ok q)
      × (q.trampoline
          ≡ relocate_all load target_addr is
            ++ jumped (u32 (target_addr + length (codes is) * 2 + 1)))
  unfolding relocate_instruction_in_thumb start jump_back
  relocate_instruction_in_thumb-relocate_all =
      let orig = codes is ++ rest in
      let first = start target_addr b in
      let (st, e, w, p) =
        loop-relocate_all load orig (2 * length orig) target_addr refl is (2 * length orig + 1)
          first [] rest m r refl refl
          (record { counted = refl; aligned = refl; bounded = omega arith; pc_at = omega arith })
          some_code (omega arith) (omega arith) in
      (
        record { trampoline = st.words ++ jump_back target_addr st; bounds = st.boundaries },
        rw e refl,
        ap₂ (λ ws n. ws ++ jumped (u32 (target_addr + n * 2 + 1)))
            (w
              ∙ ap (λ place. relocate_all load place is)
                  (let z : target_addr + 2 * 0 ≡ target_addr = omega arith in z))
            (let z : st.orig_pos ≡ length (codes is) = omega (arith, p) in z),
      )

module _ (before after : ℕ → ℕ) (is : List Instr) (rest : List ℕ) (target_addr page : ℕ)
    (b : Boundaries) (c : Cpu) (m : AllMove is) (r : IsRest rest) (t : c.thumb ≡ true)
    (aligned : (target_addr % 2 ≡ 0) × (page % 4 ≡ 0)) (some_code : 0 < length (codes is ++ rest))
    (low : (target_addr + 2 * length (codes is) + 2 < 2 ^ 32)
      × (page + 16 * length (codes is) + 24 < 2 ^ 32))
    (marks : b.count + length (codes is ++ rest) ≤ 20)
    (here : IsPlaced before target_addr (codes is)) where
  abbrev end_state : Cpu
  end_state = in_order (word_at before) target_addr is c

  abbrev behind : ℕ
  behind = u32 (target_addr + length (codes is) * 2 + 1)

  ends : jump_to behind end_state ≡ end_state
  ends =
      same_cpu end_state _ _ _ _
        (let e : behind - behind % 2 ≡ target_addr + 2 * length (codes is) = omega arith in e)
        (==_of_eq (behind % 2) 1 (omega arith)
          ∙ sym (in_order-thumb (word_at before) is target_addr c m ∙ t))
      ∙ sym (in_order-at (word_at before) is target_addr c m)

  -- Take Thumb instructions that do not write the PC: LDR from the PC, MOV of the PC to one of the
  -- first eight registers, NOP, and 16-bit and 32-bit instructions that do not involve the PC, IT
  -- left out. Let their halfwords stand at an even address, and let at most the first half of a
  -- 32-bit instruction be copied behind them; let there be room for a boundary for each halfword
  -- and no address above 32 bits. The relocation in Thumb mode then returns without a fault, and
  -- with its halfwords in memory at an address that is a multiple of 4, the machine of
  -- `Thumb16.Machine` that starts there reaches the state that it reaches from the original
  -- halfwords: the same registers and flags, behind the original instructions.
  pub relocate_instruction_in_thumb-Steps :
      IsPlaced after page (
        trampoline_of (
          relocate_instruction_in_thumb
            (word_at before)
            target_addr
            (codes is ++ rest)
            (2 * length (codes is ++ rest))
            b))
      → (q : Relocated) × (relocate_instruction_in_thumb
            (word_at before)
            target_addr
            (codes is ++ rest)
            (2 * length (codes is ++ rest))
            b
          ≡ ok q)
        × Steps before (at target_addr c) (in_order (word_at before) target_addr is c)
        × Steps after (at page c) (in_order (word_at before) target_addr is c)
  unfolding trampoline_of
  relocate_instruction_in_thumb-Steps p =
      let (q, e, s) =
        relocate_instruction_in_thumb-relocate_all (word_at before) is rest target_addr b m r
          some_code marks in
      let ws = relocate_all (word_at before) target_addr is in
      let parts =
        IsPlaced-append after page ws (jumped behind)
          (subst (IsPlaced after page) (ap trampoline_of e ∙ s) p) in
      let size = length-relocate_all (word_at before) target_addr is m in
      (
        q,
        e,
        original-Steps before is target_addr c m t (omega arith) here,
        Steps-append after (at page c) (at (page + 2 * length ws) end_state) end_state
            (trampoline-Steps (word_at before) after is target_addr page c m t aligned
              (omega (arith, size)) parts.0)
            (subst (Steps after (at (page + 2 * length ws) end_state)) ends (
              run-jump after (page + 2 * length ws) behind end_state (omega (arith, size))
                (omega (arith, size)) (in_order-thumb (word_at before) is target_addr c m ∙ t)
                parts.1)),
      )
