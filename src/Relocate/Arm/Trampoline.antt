-- ===== src/Relocate/Arm/Trampoline.antt =====
-- The trampoline of `relocateInstructionInArm` of relocate.c as a whole, against the instructions
-- that it stands for.
use unity_game_localization.Prelude.{
  ℕ, suc, ◌+◌, ◌-◌, ◌*◌, ◌/◌, ◌%◌, ◌^◌, ◌<◌, ◌≤◌, ◌≡◌, refl, ap, sym, subst, ◌∙◌, List, [], ◌∷◌,
  ◌++◌, map, false, arith, length, length-append, length-map, take-all, take, ==_of_ne,
}
use unity_game_localization.Prelude.Bits.{u32}
use unity_game_localization.Run.{Run, ok, fault}
use unity_game_localization.Relocate.Classify.{get_type_in_arm}
use unity_game_localization.Relocate.Boundaries.{Boundaries}
use unity_game_localization.Relocate.Thumb.{Relocated}
use unity_game_localization.Relocate.Arm.{relocate_by_type_arm, relocate_instruction_in_arm}
use unity_game_localization.Relocate.Arm.Laws.{
  relocate_all, length-relocate_all, relocate_instruction_in_arm-relocate_all,
}
use unity_game_localization.Relocate.Arm.Machine.{Cpu, Instr, encode, put, effect, Steps, stop}
use unity_game_localization.Relocate.Arm.Words.{jumped}
use unity_game_localization.Relocate.Arm.Refine.{
  IsPlaced, at, same_cpu, jumps, relocate_by_type_arm-effect,
}
use unity_game_localization.Relocate.Arm.Whole.{
  AllMove, in_order, effect-at, effect-thumb, IsPlaced-append, Steps-append, original-Steps,
}

module _ (before after : ℕ → ℕ) where
  abbrev words : (place : ℕ) → List Instr → List ℕ
  words place is = relocate_all before (u32 (place + 8)) (map encode is)

  abbrev first_words : (place : ℕ) → Instr → List ℕ
  first_words place i =
      relocate_by_type_arm before (get_type_in_arm (encode i)) (u32 (place + 8)) (encode i)

  words-cons :
      (place : ℕ) (i : Instr) (is : List Instr)
      → words place (i ∷ is) ≡ first_words place i ++ words (place + 4) is
  unfolding relocate_all
  words-cons place i is =
      ap (λ pc. first_words place i ++ relocate_all before pc (map encode is))
        (let e : u32 (u32 (place + 8) + 4) ≡ u32 (place + 4 + 8) = omega arith in e)

  words-nil : (place : ℕ) → words place [] ≡ []
  unfolding relocate_all
  words-nil place = refl

  trampoline-Steps :
      (is : List Instr) (place start : ℕ) (c : Cpu)
      → AllMove is
      → c.thumb ≡ false
      → (place % 4 ≡ 0) × (start % 4 ≡ 0)
      → start + 4 * length (words place is) + 16 < 2 ^ 32
      → IsPlaced after start (words place is)
      → Steps after
          (at start c)
          (at (start + 4 * length (words place is)) (in_order before place is c))
  unfolding in_order AllMove
  trampoline-Steps [] place start c m t a l p =
      subst (λ n. Steps after (at start c) (at n c))
        (let e : start ≡ start + 4 * length (words place []) =
            omega (arith, ap (λ (ws : List ℕ). length ws) (words-nil place)) in
          e)
        (stop (at start c))
  trampoline-Steps (i ∷ is) place start c m t a l p =
      let w = first_words place i in
      let p' = subst (IsPlaced after start) (words-cons place i is) p in
      let parts = IsPlaced-append after start w (words (place + 4) is) p' in
      let d : Cpu = effect before i place (place + 4) c in
      let size : length (words place (i ∷ is)) ≡ length w + length (words (place + 4) is) =
        ap (λ (ws : List ℕ). length ws) (words-cons place i is)
        ∙ length-append w (words (place + 4) is) in
      let one =
        relocate_by_type_arm-effect before after place start c a.0 (a.1, omega arith) t i m.0
          parts.0 in
      let rest =
        trampoline-Steps is (place + 4) (start + 4 * length w) d m.2
          (effect-thumb before i place (place + 4) c m.1 ∙ t) (omega arith) (omega arith) parts.1 in
      let behind : start + 4 * length w + 4 * length (words (place + 4) is)
          ≡ start + 4 * length (words place (i ∷ is)) =
        omega arith in
      Steps-append after (at start c) (at (start + 4 * length w) d)
        (at (start + 4 * length (words place (i ∷ is))) (in_order before (place + 4) is d))
        (subst (Steps after (at start c))
          (effect-at before i place (start + 4 * length w) (place + 4) c m.1) one)
        (subst
          (λ n. Steps after (at (start + 4 * length w) d) (at n (in_order before (place + 4) is d)))
          behind rest)

-- The state behind the instructions.
in_order-at :
    (load : ℕ → ℕ) (is : List Instr) (place : ℕ) (c : Cpu)
    → in_order load place is c ≡ at (place + 4 * length is) (in_order load place is c)
unfolding in_order
in_order-at load [] place c = ap (λ n. at n c) (let e : place ≡ place + 4 * 0 = omega arith in e)
in_order-at load (i ∷ is) place c =
    let d : Cpu = effect load i place (place + 4) c in
    in_order-at load is (place + 4) d
    ∙ ap (λ n. at n (in_order load (place + 4) is d))
        (let e : place + 4 + 4 * length is ≡ place + 4 * suc (length is) = omega arith in e)

in_order-thumb :
    (load : ℕ → ℕ) (is : List Instr) (place : ℕ) (c : Cpu)
    → AllMove is
    → (in_order load place is c).thumb ≡ c.thumb
unfolding in_order AllMove
in_order-thumb load [] place c m = refl
in_order-thumb load (i ∷ is) place c m =
    in_order-thumb load is (place + 4) (effect load i place (place + 4) c) m.2
    ∙ effect-thumb load i place (place + 4) c m.1

-- What a relocation leaves in the trampoline.
unfoldable pub trampoline_of : Run Relocated → List ℕ
trampoline_of (ok r) = r.trampoline
trampoline_of (fault e) = []

module _ (before after : ℕ → ℕ) (is : List Instr) (place start : ℕ) (c : Cpu) (m : AllMove is)
    (t : c.thumb ≡ false) (aligned : (place % 4 ≡ 0) × (start % 4 ≡ 0))
    (low : (place + 4 * length is < 2 ^ 32) × (start + 24 * length is + 24 < 2 ^ 32)) where
  abbrev end_state : Cpu
  end_state = in_order before place is c

  -- The jump back leads behind the original instructions.
  ends : put 15 (u32 (place + 4 * length is)) 0 end_state ≡ end_state
  unfolding put
  ends =
      same_cpu end_state.exec end_state.reg _ _ _ _
        (let e : u32 (place + 4 * length is) - u32 (place + 4 * length is) % 2
              ≡ place + 4 * length is =
            omega arith in
          e)
        (==_of_ne (u32 (place + 4 * length is) % 2) 1 (omega arith)
          ∙ sym (in_order-thumb before is place c m ∙ t))
      ∙ sym (in_order-at before is place c)

  -- The words of some instructions and the jump behind them do what the instructions do.
  pub relocate_all-Steps :
      IsPlaced after start (
        relocate_all before (u32 (place + 8)) (map encode is)
        ++ jumped (u32 (place + 4 * length is)))
      → Steps after (at start c) end_state
  relocate_all-Steps p =
      let ws = words before after place is in
      let parts = IsPlaced-append after start ws (jumped (u32 (place + 4 * length is))) p in
      let room : length ws ≤ 6 * length is = omega (
        arith,
        length-map encode is,
        (length-relocate_all before (u32 (place + 8)) (map encode is)).1,
      ) in
      Steps-append after (at start c) (at (start + 4 * length ws) end_state) end_state
        (trampoline-Steps before after is place start c m t aligned (omega arith) parts.0)
        (subst (Steps after (at (start + 4 * length ws) end_state)) ends (
          jumps before after place (start + 4 * length ws) end_state aligned.0
            (omega arith, omega arith) (in_order-thumb before is place c m ∙ t)
            (u32 (place + 4 * length is)) parts.1))

module _ (before after : ℕ → ℕ) (is : List Instr) (target_addr start : ℕ) (b : Boundaries) (c : Cpu)
    (m : AllMove is) (t : c.thumb ≡ false) (aligned : (target_addr % 4 ≡ 0) × (start % 4 ≡ 0))
    (low : (target_addr + 4 * length is < 2 ^ 32) × (start + 24 * length is + 24 < 2 ^ 32))
    (marks : b.count + length is ≤ 20) (here : IsPlaced before target_addr (map encode is)) where
  -- Take Arm instructions with the condition `always` that do not write the PC: LDR with an offset
  -- from the PC, ADD and SUB of the PC and a constant below 256, MOV from the PC, and any that do
  -- not involve the PC; let their words stand at an aligned address, with room for their boundaries
  -- and no address above 32 bits. The relocation in Arm mode then returns without a fault, and with
  -- its words in memory at another aligned address, the machine of `Machine` that starts there
  -- reaches the state that it reaches from the original words: every register is the same, and it
  -- goes on behind the original instructions.
  pub relocate_instruction_in_arm-Steps :
      IsPlaced after start (
        trampoline_of
          (relocate_instruction_in_arm before target_addr (map encode is) (4 * length is) b))
      → (r : Relocated) × (relocate_instruction_in_arm before target_addr
            (map encode is)
            (4 * length is)
            b
          ≡ ok r)
        × Steps before (at target_addr c) (in_order before target_addr is c)
        × Steps after (at start c) (in_order before target_addr is c)
  unfolding trampoline_of encode
  relocate_instruction_in_arm-Steps p =
      let n = length is in
      let size : length (map encode is) ≡ n = length-map encode is in
      let (r, e, tr, _, short, _) =
        relocate_instruction_in_arm-relocate_all before target_addr (map encode is) (4 * n) b
          (omega arith) (omega arith) in
      let all : take (4 * n / 4) (map encode is) ≡ map encode is =
        take-all (map encode is) (4 * n / 4) (omega arith) in
      let shape : r.trampoline
          ≡ relocate_all before (u32 (target_addr + 8)) (map encode is)
            ++ jumped (u32 (target_addr + 4 * n)) =
        tr
        ∙ ap
            (λ os.
              relocate_all before (u32 (target_addr + 8)) os ++ jumped (u32 (target_addr + 4 * n)))
            all in
      (
        r,
        e,
        original-Steps before is target_addr c m t low.0 here,
        relocate_all-Steps before after is target_addr start c m t aligned low
            (subst (IsPlaced after start) (ap trampoline_of e ∙ shape) p),
      )
