-- ===== src/Relocate/Arm/Refine.antt =====
-- Running the words that `relocateInstructionInArm` of relocate.c emits.
use unity_game_localization.Prelude.{
  ℕ, ◌+◌, ◌-◌, ◌*◌, ◌%◌, ◌^◌, ◌<◌, ◌≡◌, refl, ap, ap₂, sym, subst, ◌∙◌, ◌==◌, List, Bool, false,
  arith, Bool-cases, some, get_elem?, length, inl, inr, ==_of_eq, ==_of_ne,
}
use unity_game_localization.Prelude.Bits.{u32}
use unity_game_localization.Relocate.Classify.{get_type_in_arm}
use unity_game_localization.Relocate.Arm.{relocate_by_type_arm}
use unity_game_localization.Relocate.Arm.Machine.{
  Cpu, Instr, load_up, load_down, add_pc, sub_pc, move_pc, exchange_pc, branch, call, call_thumb,
  plain, IsEncodable, encode, distance, put, effect, Step, fetch, Steps, stop, go,
}
use unity_game_localization.Relocate.Arm.Types.{get_type_in_arm-encode}
use unity_game_localization.Relocate.Arm.Words.{
  literal, loaded, jumped, called, emitted, by_type-emitted,
}

-- The words stand in memory from an address on.
abbrev pub IsPlaced : (load : ℕ → ℕ) (start : ℕ) → List ℕ → Type 0
IsPlaced load start words = (k w : ℕ) → get_elem? words k ≡ some w → load (start + 4 * k) ≡ w

abbrev pub at : ℕ → Cpu → Cpu
at start c = record c { pc = start }

pub same_cpu :
    (exec : ℕ → (ℕ → ℕ) → ℕ → ℕ) (reg : ℕ → ℕ) (pc pc' : ℕ) (thumb thumb' : Bool)
    → pc ≡ pc'
    → thumb ≡ thumb'
    → ◌≡◌ {A = Cpu}
        (record { reg = reg; pc = pc; thumb = thumb; exec = exec })
        (record { reg = reg; pc = pc'; thumb = thumb'; exec = exec })
same_cpu exec reg pc pc' thumb thumb' e e' =
    ap₂ (λ p t. record { reg = reg; pc = p; thumb = t; exec = exec }) e e'

module _ (load : ℕ → ℕ) (start : ℕ) (fits : (start % 4 ≡ 0) × (start + 16 < 2 ^ 32)) where
  -- A fetched instruction, with its effect given by an equation.
  step :
      (i : Instr) (place : ℕ) (c d e : Cpu)
      → IsEncodable i
      → c.thumb ≡ false
      → load place ≡ encode i
      → effect load i place (u32 (place + 4)) (at place c) ≡ d
      → Steps load d e
      → Steps load (at place c) e
  step i place c d e n t p q rest =
      go (at place c) d e (subst (Step load (at place c)) q (fetch i (at place c) n t p)) rest

  -- A jump through the literal behind it.
  pub run-jumped :
      (value next place : ℕ) (c : Cpu)
      → place + 4 < 2 ^ 32
      → c.thumb ≡ false
      → load place ≡ encode (load_down 15 4)
      → load (place + 4) ≡ value
      → Steps load (at place c) (put 15 value next c)
  unfolding effect put IsEncodable
  run-jumped value next place c l t p v =
      step (load_down 15 4) place c (put 15 value next c) (put 15 value next c) (omega arith) t p
        (ap (λ x. put 15 x next c)
          (ap load (let e : u32 (place + 8 + 2 ^ 32 - 4) ≡ place + 4 = omega arith in e) ∙ v))
        (stop (put 15 value next c))

  run-loaded :
      (rd value : ℕ) (c : Cpu)
      → rd < 16
      → c.thumb ≡ false
      → IsPlaced load start (loaded rd value)
      → Steps load (at start c) (put rd value (start + 12) c)
  unfolding effect put IsEncodable
  run-loaded rd value c r t p =
      let at_value : load (u32 (start + 8 + 2 ^ 32 - 0)) ≡ value =
        ap load (let e : u32 (start + 8 + 2 ^ 32 - 0) ≡ start + 4 * 2 = omega arith in e)
        ∙ p 2 value refl in
      let first = ap (λ x. put rd x (u32 (start + 4)) (at start c)) at_value in
      let done : Cpu = put rd value (start + 12) c in
      let here : load start ≡ encode (load_down rd 0) =
        ap load (let e : start ≡ start + 4 * 0 = omega arith in e)
        ∙ p 0 (encode (load_down rd 0)) refl in
      elim (Bool-cases (rd == 15)) [
        | inl y ↦
            step (load_down rd 0) start c done done (r, omega arith) t here (first ∙ rw y refl)
              (stop done)
        | inr n ↦
            step (load_down rd 0) start c (at (start + 4) done) done (r, omega arith) t here
              (first ∙ rw n (same_cpu c.exec _ _ _ _ _ (omega arith) refl))
              (step (add_pc 15 0) (start + 4) done done done (omega arith) (rw n t)
                (p 1 (encode (add_pc 15 0)) refl)
                (rw n
                  (same_cpu c.exec _ _ _ _ _ (omega arith) (==_of_ne _ 1 (omega arith) ∙ sym t)))
                (stop done))
      ]

  run-called :
      (value : ℕ) (c : Cpu)
      → c.thumb ≡ false
      → IsPlaced load start (called value)
      → Steps load (at start c) (put 15 value 0 (put 14 (start + 12) (start + 12) c))
  unfolding effect put IsEncodable
  run-called value c t p =
      let linked : Cpu = put 14 (start + 12) (start + 12) c in
      let here : load start ≡ encode (add_pc 14 4) =
        ap load (let e : start ≡ start + 4 * 0 = omega arith in e)
        ∙ p 0 (encode (add_pc 14 4)) refl in
      let there : load (start + 4 + 4) ≡ value =
        ap load (let e : start + 4 + 4 ≡ start + 4 * 2 = omega arith in e) ∙ p 2 value refl in
      step (add_pc 14 4) start c (at (start + 4) linked) (put 15 value 0 linked) (omega arith) t
        here
        (ap₂ (λ v next. put 14 v next c)
          (let e : u32 (start + 8 + 4) ≡ start + 12 = omega arith in e)
          (let e : u32 (start + 4) ≡ start + 4 = omega arith in e))
        (run-jumped value 0 (start + 4) linked (omega arith) t (p 1 (encode (load_down 15 4)) refl)
          there)

distance_aligned : (offset : ℕ) → distance offset % 4 ≡ 0
unfolding distance
distance_aligned offset = ground arith

module _ (before after : ℕ → ℕ) (place start : ℕ) (c : Cpu) (aligned : place % 4 ≡ 0)
    (fits : (start % 4 ≡ 0) × (start + 16 < 2 ^ 32)) (t : c.thumb ≡ false) where
  abbrev Runs : Instr → Type 0
  Runs i =
      IsPlaced after start (emitted i (literal before i place))
      → Steps after (at start c)
          (effect before i place (start + 4 * length (emitted i (literal before i place))) c)

  pub jumps :
      (value : ℕ)
      → IsPlaced after start (jumped value)
      → Steps after (at start c) (put 15 value 0 c)
  jumps value p =
      run-jumped after start fits value 0 start c (omega arith) t
        (ap after (let e : start ≡ start + 4 * 0 = omega arith in e)
          ∙ p 0 (encode (load_down 15 4)) refl)
        (p 1 value refl)

  run-emitted : (i : Instr) → IsEncodable i → Runs i
  unfolding effect put emitted literal IsEncodable
  run-emitted (load_up rd imm) h p = run-loaded after start fits rd _ c h.0 t p
  run-emitted (load_down rd imm) h p = run-loaded after start fits rd _ c h.0 t p
  run-emitted (add_pc rd imm) h p = run-loaded after start fits rd _ c h.0 t p
  run-emitted (sub_pc rd imm) h p = run-loaded after start fits rd _ c h.0 t p
  run-emitted (move_pc rd) h p = run-loaded after start fits rd _ c h.0 t p
  run-emitted exchange_pc h p = jumps _ p
  run-emitted (branch offset) h p =
      subst (Steps after (at start c))
        (same_cpu c.exec c.reg _ _ _ _ (omega (arith, aligned, distance_aligned offset))
          (==_of_ne _ 1 (omega (arith, aligned, distance_aligned offset)) ∙ sym t))
        (jumps _ p)
  run-emitted (call offset) h p =
      subst (Steps after (at start c))
        (same_cpu c.exec _ _ _ _ _ (omega (arith, aligned, distance_aligned offset))
          (==_of_ne _ 1 (omega (arith, aligned, distance_aligned offset)) ∙ sym t))
        (run-called after start fits _ c t p)
  run-emitted (call_thumb half offset) h p =
      subst (Steps after (at start c))
        (same_cpu c.exec _ _ _ _ _ (omega (arith, aligned, distance_aligned offset))
          (==_of_eq _ 1 (omega (arith, aligned, distance_aligned offset))))
        (run-called after start fits _ c t p)
  run-emitted (plain op rn low) h p =
      step after start fits (plain op rn low) start c _ _ h t
        (ap after (let e : start ≡ start + 4 * 0 = omega arith in e) ∙ p 0 _ refl)
        (ap (λ next. record c { reg = c.exec (encode (plain op rn low)) c.reg; pc = next })
          (let e : u32 (start + 4) ≡ start + 4 * 1 = omega arith in e))
        (stop _)

  -- The words that the source emits for an instruction.
  abbrev pub relocated : Instr → List ℕ
  relocated i =
      relocate_by_type_arm before (get_type_in_arm (encode i)) (u32 (place + 8)) (encode i)

  -- Take an Arm instruction with the condition `always`: LDR with an offset from the PC, ADD and
  -- SUB of the PC and a constant below 256, MOV from the PC, each with any target register, BX PC,
  -- B, BL or BLX, or an instruction that does not involve the PC. From the words that
  -- `relocateInstructionInArm` emits for it, placed at an aligned address, the machine of `Machine`
  -- reaches the state that the instruction's own effect leads to at its original, aligned place,
  -- where what stands behind it, and what a call returns to, is the address behind the emitted
  -- words.
  pub relocate_by_type_arm-effect :
      (i : Instr)
      → IsEncodable i
      → IsPlaced after start
          (relocate_by_type_arm before (get_type_in_arm (encode i)) (u32 (place + 8)) (encode i))
      → Steps after (at start c) (effect before i place (start + 4 * length (relocated i)) c)
  relocate_by_type_arm-effect i h =
      let words : relocated i ≡ emitted i (literal before i place) =
        ap (λ type. relocate_by_type_arm before type (u32 (place + 8)) (encode i))
          (get_type_in_arm-encode i h)
        ∙ by_type-emitted before place i h in
      subst
        (λ (ws : List ℕ).
          IsPlaced after start ws
          → Steps after (at start c) (effect before i place (start + 4 * length ws) c))
        (sym words) (run-emitted i h)
