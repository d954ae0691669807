-- ===== src/Relocate/Thumb16/Refine.antt =====
-- Running the halfwords that `relocateInstructionInThumb16` of relocate.c emits.
use unity_game_localization.Prelude.{
  ℕ, ◌+◌, ◌*◌, ◌%◌, ◌^◌, ◌<◌, ◌≡◌, refl, ap, sym, subst, ◌∙◌, ◌==◌, List, if◌then◌else◌, not, Bool,
  true, false, arith, length, ==_of_eq,
}
use unity_game_localization.Prelude.Bits.{u32}
use unity_game_localization.Relocate.Thumb16.{relocate_instruction_in_thumb16}
use unity_game_localization.Relocate.Thumb16.Machine.{
  Cpu, Instr, load_up, move_pc, branch, branch_if, compare_branch, jump, no_op, plain, plain_wide,
  IsEncodable, encode, code, size, distance, effect, jump_to, IsPlaced, Steps,
}
use unity_game_localization.Relocate.Thumb16.Words.{
  literal, distance_even, emitted, relocate_instruction_in_thumb16-emitted,
}
use unity_game_localization.Relocate.Thumb16.Runs.{
  at, same_cpu, run-jump, run-loaded, run-guarded, run-plain, run-no_ops,
}

module _ (load half : ℕ → ℕ) (place start : ℕ) (c : Cpu) (even : place % 2 ≡ 0)
    (fits : (start % 4 ≡ 0) × (start + 16 < 2 ^ 32)) (t : c.thumb ≡ true) where
  jump_to-even : (x : ℕ) → x % 2 ≡ 0 → jump_to (x + 1) c ≡ at x c
  jump_to-even x e = same_cpu c _ _ _ _ (omega arith) (==_of_eq _ 1 (omega arith) ∙ sym t)

  guarded_end :
      (taken : Bool) (x : ℕ)
      → x % 2 ≡ 0
      → (if taken then jump_to (x + 1) c else at (start + 12) c)
        ≡ at (if taken then x else start + 12) c
  guarded_end true x e = jump_to-even x e
  guarded_end false x e = refl

  guarded_start :
      (taken : Bool) (x : ℕ)
      → x ≡ start + 4
      → at (if taken then x else u32 (start + 2)) c ≡ at (if taken then start + 4 else start + 2) c
  guarded_start true x e = ap (λ n. at n c) e
  guarded_start false x e =
      ap (λ n. at n c) (let e' : u32 (start + 2) ≡ start + 2 = omega arith in e')

  run-emitted :
      (i : Instr)
      → IsEncodable i
      → size i ≡ 2
      → IsPlaced half start (emitted i (literal load i place))
      → Steps half
          (at start c)
          (effect load i place (start + 2 * length (emitted i (literal load i place))) c)
  unfolding effect emitted literal IsEncodable size code
  run-emitted (load_up rd imm) h s p = run-loaded half start rd _ c fits.0 fits.1 h.0 t p
  run-emitted (move_pc rd) h s p = run-loaded half start rd _ c fits.0 fits.1 h.0 t p
  run-emitted (branch offset) h s p =
      subst (Steps half (at start c))
        (jump_to-even (u32 (place + 4 + distance 1024 offset))
          (omega (arith, distance_even 1024 offset)))
        (run-jump half start _ c fits.0 (omega arith) t p)
  run-emitted (branch_if condition offset) h s p =
      subst (Steps half (at start c))
        (guarded_end (c.holds condition) (u32 (place + 4 + distance 128 offset))
          (omega (arith, distance_even 128 offset)))
        (run-guarded half (branch_if condition 0) start _ (c.holds condition) c fits.0 fits.1 t
          (h.0, omega arith) refl
          (guarded_start (c.holds condition) (u32 (start + 4 + distance 128 0)) (ground arith)) p)
  run-emitted (compare_branch nonzero high offset rn) h s p =
      let taken = if nonzero == 0 then c.reg rn == 0 else not (c.reg rn == 0) in
      subst (Steps half (at start c))
        (guarded_end taken (u32 (place + 4 + high * 64 + offset * 2)) (omega arith))
        (run-guarded half (compare_branch nonzero 0 0 rn) start _ taken c fits.0 fits.1 t
          (h.0, omega arith, omega arith, h.3) refl
          (guarded_start taken (u32 (start + 4 + 0 * 64 + 0 * 2)) (omega arith)) p)
  run-emitted jump h s p = absurd (omega arith)
  run-emitted no_op h s p = run-no_ops half start c fits.1 t p
  run-emitted (plain high low) h s p = run-plain half high low start c h fits.1 t p
  run-emitted (plain_wide high low) h s p = absurd (omega arith)

  -- Take a 16-bit Thumb instruction: LDR from the PC, MOV of the PC to one of the first eight
  -- registers, B, B with one of the 14 conditions, CBZ, CBNZ, NOP, or one that does not involve the
  -- PC, IT left out. From the halfwords that `relocateInstructionInThumb16` emits for it, placed at
  -- an address that is a multiple of 4, the machine of `Thumb16.Machine` reaches the state that the
  -- instruction's own effect leads to at its original, even place, where what stands behind it is
  -- the address behind the emitted halfwords.
  pub relocate_instruction_in_thumb16-effect :
      (i : Instr)
      → IsEncodable i
      → size i ≡ 2
      → IsPlaced half start
          (relocate_instruction_in_thumb16 load (u32 (place + 4)) (encode i)).words
      → Steps half (at start c) (
          effect load i place
            (start
              + 2
                * length (relocate_instruction_in_thumb16 load (u32 (place + 4)) (encode i)).words)
            c)
  relocate_instruction_in_thumb16-effect i h s =
      subst
        (λ (ws : List ℕ).
          IsPlaced half start ws
          → Steps half (at start c) (effect load i place (start + 2 * length ws) c))
        (sym (relocate_instruction_in_thumb16-emitted load place even i h s)) (run-emitted i h s)
