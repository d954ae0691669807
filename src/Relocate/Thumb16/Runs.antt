-- ===== src/Relocate/Thumb16/Runs.antt =====
-- Runs of the instruction sequences that `relocateInstructionInThumb16` of relocate.c emits, on the
-- machine for 16-bit Thumb.
use unity_game_localization.Prelude.{
  ℕ, zero, suc, ◌+◌, ◌*◌, ◌/◌, ◌%◌, ◌^◌, ◌<◌, ◌≡◌, refl, ap, ap₂, sym, subst, ◌∙◌, ◌==◌, List, [],
  ◌∷◌, if◌then◌else◌, Bool, true, false, arith, some, Option, get_elem?,
}
use unity_game_localization.Prelude.Bits.{u32, bit_and-low}
use unity_game_localization.Relocate.Common.{low_half, high_half}
use unity_game_localization.Relocate.Thumb16.Machine.{
  Cpu, Instr, load_up, branch, jump, no_op, plain, plain_wide, IsEncodable, encode, code, size,
  distance, aligned, effect, jump_to, word_at, IsPlaced, Step, fetch, Steps, stop, go,
}
use unity_game_localization.Relocate.Thumb16.Words.{loaded, jumped, guarded}

abbrev pub at : ℕ → Cpu → Cpu
at start c = record c { pc = start }

pub same_cpu :
    (c : Cpu) (pc pc' : ℕ) (thumb thumb' : Bool)
    → pc ≡ pc'
    → thumb ≡ thumb'
    → ◌≡◌ {A = Cpu} (record c { pc = pc; thumb = thumb }) (record c { pc = pc'; thumb = thumb' })
same_cpu c pc pc' thumb thumb' e e' = ap₂ (λ p t. record c { pc = p; thumb = t }) e e'

module _ (half : ℕ → ℕ) where
  pub Steps-append : (c d e : Cpu) → Steps half c d → Steps half d e → Steps half c e
  Steps-append _ _ e (stop c) t = t
  Steps-append _ _ e (go c c' d s r) t = go c c' e s (Steps-append c' d e r t)

  IsPlaced-one : (place w : ℕ) → half place ≡ w → IsPlaced half place (w ∷ [])
  IsPlaced-one place w h zero v e =
      let here : place + 2 * 0 ≡ place = omega arith in
      let same : ◌≡◌ {A = Option ℕ} (some w) (some v) = e in
      let same' : w ≡ v = cc same in ap half here ∙ (h ∙ same')
  IsPlaced-one place w h (suc k) v e = absurd (cc e)

  -- Behind `n` halfwords.
  pub half-IsPlaced :
      (start : ℕ) (words : List ℕ) (k a w : ℕ)
      → IsPlaced half start words
      → get_elem? words k ≡ some w
      → start + 2 * k ≡ a
      → half a ≡ w
  half-IsPlaced start words k a w p g e = ap half (sym e) ∙ p k w g

  word_at-halves :
      (a value : ℕ) → half a ≡ value % 65536 → half (a + 2) ≡ value / 65536 → word_at half a ≡ value
  word_at-halves a value l h = omega arith

  step :
      (i : Instr) (place : ℕ) (c d e : Cpu)
      → IsEncodable i
      → c.thumb ≡ true
      → IsPlaced half place (code i)
      → effect (word_at half) i place (u32 (place + size i)) (at place c) ≡ d
      → Steps half d e
      → Steps half (at place c) e
  step i place c d e n t p q rest =
      go (at place c) d e (subst (Step half (at place c)) q (fetch i (at place c) n t p)) rest

  -- A branch over `n` bytes.
  run-branch :
      (offset place : ℕ) (c : Cpu)
      → offset < 1024
      → place + 4 + offset * 2 < 2 ^ 32
      → c.thumb ≡ true
      → half place ≡ encode (branch offset)
      → Steps half (at place c) (at (place + 4 + offset * 2) c)
  unfolding effect code size IsEncodable
  run-branch offset place c l m t h =
      step (branch offset) place c (at (place + 4 + offset * 2) c) (at (place + 4 + offset * 2) c)
        (omega arith) t (IsPlaced-one place (encode (branch offset)) h)
        (ap (λ n. at n c)
          (let e : u32 (place + 4 + distance 1024 offset) ≡ place + 4 + offset * 2 = ground arith in
            e))
        (stop (at (place + 4 + offset * 2) c))

  -- The literal that stands behind `k` halfwords.
  literal-word :
      (start value k a : ℕ) (words : List ℕ)
      → IsPlaced half start words
      → start + 2 * k ≡ a
      → get_elem? words k ≡ some (low_half value)
      → get_elem? words (suc k) ≡ some (high_half value)
      → word_at half a ≡ value
  literal-word start value k a words p e g g' =
      word_at-halves a value (half-IsPlaced start words k a _ p g e ∙ bit_and-low 16 value)
        (half-IsPlaced start words (suc k) (a + 2) _ p g' (omega arith))

  -- LDR.W PC, [PC] at an aligned address, in front of its literal.
  pub run-jump :
      (place value : ℕ) (c : Cpu)
      → place % 4 ≡ 0
      → place + 8 < 2 ^ 32
      → c.thumb ≡ true
      → IsPlaced half place (jumped value)
      → Steps half (at place c) (jump_to value c)
  unfolding effect code encode size IsEncodable
  run-jump place value c a l t p =
      step jump place c (jump_to value c) (jump_to value c) (omega arith) t two
        (ap (λ v. jump_to v c)
          (ap (word_at half) (let e : aligned (u32 (place + 4)) ≡ place + 4 = omega arith in e)
            ∙ literal-word place value 2 (place + 4) (jumped value) p refl refl refl))
        (stop (jump_to value c))
    where
      two : IsPlaced half place (0xF8DF ∷ 0xF000 ∷ [])
      two zero w e = p 0 w e
      two (suc zero) w e = p 1 w e
      two (suc (suc k)) w e = absurd (cc e)

  pub run-loaded :
      (start rd value : ℕ) (c : Cpu)
      → start % 4 ≡ 0
      → start + 16 < 2 ^ 32
      → rd < 8
      → c.thumb ≡ true
      → IsPlaced half start (loaded rd value)
      → Steps half
          (at start c)
          (record c { reg = λ r. if r == rd then value else c.reg r; pc = start + 8 })
  unfolding effect code size IsEncodable
  run-loaded start rd value c a l r t p =
      let done : Cpu = record c { reg = λ r. if r == rd then value else c.reg r; pc = start + 8 } in
      let here = half-IsPlaced start (loaded rd value) 0 start _ p refl (omega arith) in
      let there = half-IsPlaced start (loaded rd value) 1 (start + 2) _ p refl (omega arith) in
      let at_value : word_at half (u32 (aligned (u32 (start + 4)) + 0 * 4)) ≡ value =
        ap (word_at half)
          (let e : u32 (aligned (u32 (start + 4)) + 0 * 4) ≡ start + 4 = omega arith in e)
        ∙ literal-word start value 2 (start + 4) (loaded rd value) p refl refl refl in
      step (load_up rd 0) start c (at (start + 2) done) done (r, omega arith) t
        (IsPlaced-one start (encode (load_up rd 0)) here)
        (ap₂ (λ v n. record c { reg = λ r. if r == rd then v else c.reg r; pc = n }) at_value
          (let e : u32 (start + 2) ≡ start + 2 = omega arith in e))
        (subst (λ n. Steps half (at (start + 2) done) (at n done))
          (let e : start + 2 + 4 + 1 * 2 ≡ start + 8 = omega arith in e)
          (run-branch 1 (start + 2) done (omega arith) (omega arith) t there))

  -- A branch to the jump behind the next halfword, which leads over the jump.
  pub run-guarded :
      (i : Instr) (start value : ℕ) (taken : Bool) (c : Cpu)
      → start % 4 ≡ 0
      → start + 16 < 2 ^ 32
      → c.thumb ≡ true
      → IsEncodable i
      → code i ≡ encode i ∷ []
      → effect (word_at half) i start (u32 (start + size i)) (at start c)
        ≡ at (if taken then start + 4 else start + 2) c
      → IsPlaced half start (guarded i value)
      → Steps half (at start c) (if taken then jump_to value c else at (start + 12) c)
  run-guarded i start value true c a l t n one q p =
      step i start c (at (start + 4) c) (jump_to value c) n t
        (subst (IsPlaced half start) (sym one) (
          IsPlaced-one start (encode i)
            (half-IsPlaced start (guarded i value) 0 start _ p refl (omega arith))))
        q
        (run-jump (start + 4) value c (omega arith) (omega arith) t (λ k w e.
          ap half (let e' : start + 4 + 2 * k ≡ start + 2 * suc (suc k) = omega arith in e')
          ∙ p (suc (suc k)) w e))
  run-guarded i start value false c a l t n one q p =
      step i start c (at (start + 2) c) (at (start + 12) c) n t
        (subst (IsPlaced half start) (sym one) (
          IsPlaced-one start (encode i)
            (half-IsPlaced start (guarded i value) 0 start _ p refl (omega arith))))
        q
        (subst (λ n. Steps half (at (start + 2) c) (at n c))
          (let e : start + 2 + 4 + 3 * 2 ≡ start + 12 = omega arith in e)
          (run-branch 3 (start + 2) c (omega arith) (omega arith) t
            (half-IsPlaced start (guarded i value) 1 (start + 2) _ p refl (omega arith))))

  pub run-no_op :
      (place : ℕ) (c : Cpu)
      → place + 2 < 2 ^ 32
      → c.thumb ≡ true
      → half place ≡ encode no_op
      → Steps half (at place c) (at (place + 2) c)
  unfolding effect code size IsEncodable
  run-no_op place c l t h =
      step no_op place c (at (place + 2) c) (at (place + 2) c) (omega arith) t
        (IsPlaced-one place (encode no_op) h)
        (ap (λ n. at n c) (let e : u32 (place + 2) ≡ place + 2 = omega arith in e))
        (stop (at (place + 2) c))

  -- A plain instruction and a NOP.
  pub run-plain :
      (high low start : ℕ) (c : Cpu)
      → IsEncodable (plain high low)
      → start + 16 < 2 ^ 32
      → c.thumb ≡ true
      → IsPlaced half start (encode (plain high low) ∷ encode no_op ∷ [])
      → Steps half (at start c) (effect (word_at half) (plain high low) start (start + 4) c)
  unfolding effect code size
  run-plain high low start c n l t p =
      let words = encode (plain high low) ∷ encode no_op ∷ [] in
      let next = effect (word_at half) (plain high low) start (start + 2) c in
      step (plain high low) start c next (at (start + 4) next) n t
        (IsPlaced-one start _ (half-IsPlaced start words 0 start _ p refl (omega arith)))
        (ap (λ n. at n next) (let e : u32 (start + 2) ≡ start + 2 = omega arith in e))
        (subst (λ n. Steps half (at (start + 2) next) (at n next))
          (let e : start + 2 + 2 ≡ start + 4 = omega arith in e)
          (run-no_op (start + 2) next (omega arith) t
            (half-IsPlaced start words 1 (start + 2) _ p refl (omega arith))))

  pub run-no_ops :
      (start : ℕ) (c : Cpu)
      → start + 16 < 2 ^ 32
      → c.thumb ≡ true
      → IsPlaced half start (encode no_op ∷ encode no_op ∷ [])
      → Steps half (at start c) (at (start + 4) c)
  run-no_ops start c l t p =
      let words = encode no_op ∷ encode no_op ∷ [] in
      let last =
        subst (λ n. Steps half (at (start + 2) c) (at n c))
          (let e : start + 2 + 2 ≡ start + 4 = omega arith in e)
          (run-no_op (start + 2) c (omega arith) t
            (half-IsPlaced start words 1 (start + 2) _ p refl (omega arith))) in
      Steps-append (at start c) (at (start + 2) c) (at (start + 4) c)
        (run-no_op start c (omega arith) t
          (half-IsPlaced start words 0 start _ p refl (omega arith)))
        last

  -- A plain instruction of two halfwords.
  pub run-plain_wide :
      (high low start : ℕ) (c : Cpu)
      → IsEncodable (plain_wide high low)
      → start + 16 < 2 ^ 32
      → c.thumb ≡ true
      → IsPlaced half start (high ∷ low ∷ [])
      → Steps half (at start c) (effect (word_at half) (plain_wide high low) start (start + 4) c)
  unfolding effect code size
  run-plain_wide high low start c n l t p =
      let next = effect (word_at half) (plain_wide high low) start (start + 4) c in
      step (plain_wide high low) start c next next n t p
        (ap (λ n. at n next) (let e : u32 (start + 4) ≡ start + 4 = omega arith in e)) (stop next)
