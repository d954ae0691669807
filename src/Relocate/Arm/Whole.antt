-- ===== src/Relocate/Arm/Whole.antt =====
-- Arm instructions that read the program counter and do not write it, run where they stand.
use unity_game_localization.Prelude.{
  ℕ, ◌+◌, ◌*◌, ◌^◌, ◌<◌, ◌≡◌, refl, ap, subst, ◌∙◌, ◌==◌, List, [], ◌∷◌, ◌++◌, map, not, Bool, true,
  false, arith, Bool-cases, length, inl, inr, get_elem?-append_left, get_elem?-append_right,
}
use unity_game_localization.Prelude.Bits.{u32}
use unity_game_localization.Relocate.Arm.Machine.{
  Cpu, Instr, load_up, load_down, add_pc, sub_pc, move_pc, exchange_pc, branch, call, call_thumb,
  plain, IsEncodable, encode, put, effect, Step, fetch, Steps, stop, go,
}
use unity_game_localization.Relocate.Arm.Refine.{IsPlaced, at}

-- The instruction does not write the program counter.
unfoldable pub moves_on : Instr → Bool
moves_on (load_up rd imm) = not (rd == 15)
moves_on (load_down rd imm) = not (rd == 15)
moves_on (add_pc rd imm) = not (rd == 15)
moves_on (sub_pc rd imm) = not (rd == 15)
moves_on (move_pc rd) = not (rd == 15)
moves_on (plain op rn low) = true
moves_on _ = false

unfoldable pub AllMove : List Instr → Type 0
AllMove [] = true ≡ true
AllMove (i ∷ is) = IsEncodable i × (moves_on i ≡ true) × AllMove is

-- The instructions one after the other, each at its own place.
unfoldable pub in_order : (load : ℕ → ℕ) (place : ℕ) → List Instr → Cpu → Cpu
unfolding effect
in_order load place [] c = at place c
in_order load place (i ∷ is) c = in_order load (place + 4) is (effect load i place (place + 4) c)

put-at :
    (rd value next next' : ℕ) (c : Cpu)
    → not (rd == 15) ≡ true
    → put rd value next c ≡ at next (put rd value next' c)
unfolding put
put-at rd value next next' c h = elim (Bool-cases (rd == 15)) [
  | inl y ↦ absurd (ground arith)
  | inr n ↦ rw n refl
]

-- Such an instruction ends at the address behind it, and does the same wherever that is.
pub effect-at :
    (load : ℕ → ℕ) (i : Instr) (place next next' : ℕ) (c : Cpu)
    → moves_on i ≡ true
    → effect load i place next c ≡ at next (effect load i place next' c)
unfolding effect moves_on
effect-at load (load_up rd imm) place next next' c h = put-at rd _ next next' c h
effect-at load (load_down rd imm) place next next' c h = put-at rd _ next next' c h
effect-at load (add_pc rd imm) place next next' c h = put-at rd _ next next' c h
effect-at load (sub_pc rd imm) place next next' c h = put-at rd _ next next' c h
effect-at load (move_pc rd) place next next' c h = put-at rd _ next next' c h
effect-at load exchange_pc place next next' c h = absurd (ground arith)
effect-at load (branch offset) place next next' c h = absurd (ground arith)
effect-at load (call offset) place next next' c h = absurd (ground arith)
effect-at load (call_thumb half offset) place next next' c h = absurd (ground arith)
effect-at load (plain op rn low) place next next' c h = refl

-- Words behind one another are placed behind one another.
pub IsPlaced-append :
    (load : ℕ → ℕ) (start : ℕ) (xs ys : List ℕ)
    → IsPlaced load start (xs ++ ys)
    → IsPlaced load start xs × IsPlaced load (start + 4 * length xs) ys
IsPlaced-append load start xs ys p = (
  λ k w h. p k w (get_elem?-append_left xs ys k w h),
  λ k w h.
      ap load
        (let e : start + 4 * length xs + 4 * k ≡ start + 4 * (length xs + k) = omega arith in e)
      ∙ p (length xs + k) w (get_elem?-append_right xs ys k ∙ h),
)

pub Steps-append : (load : ℕ → ℕ) (c d e : Cpu) → Steps load c d → Steps load d e → Steps load c e
Steps-append load _ _ e (stop c) t = t
Steps-append load _ _ e (go c c' d s r) t = go c c' e s (Steps-append load c' d e r t)

-- Where an instruction is fetched from does not change its effect, which is told its place.
effect-here :
    (load : ℕ → ℕ) (i : Instr) (place next p : ℕ) (c : Cpu)
    → effect load i place next (at p c) ≡ effect load i place next c
unfolding effect put
effect-here load (load_up rd imm) place next p c = refl
effect-here load (load_down rd imm) place next p c = refl
effect-here load (add_pc rd imm) place next p c = refl
effect-here load (sub_pc rd imm) place next p c = refl
effect-here load (move_pc rd) place next p c = refl
effect-here load exchange_pc place next p c = refl
effect-here load (branch offset) place next p c = refl
effect-here load (call offset) place next p c = refl
effect-here load (call_thumb half offset) place next p c = refl
effect-here load (plain op rn low) place next p c = refl

put-thumb :
    (rd value next : ℕ) (c : Cpu) → not (rd == 15) ≡ true → (put rd value next c).thumb ≡ c.thumb
unfolding put
put-thumb rd value next c h = elim (Bool-cases (rd == 15)) [
  | inl y ↦ absurd (ground arith)
  | inr n ↦ rw n refl
]

pub effect-thumb :
    (load : ℕ → ℕ) (i : Instr) (place next : ℕ) (c : Cpu)
    → moves_on i ≡ true
    → (effect load i place next c).thumb ≡ c.thumb
unfolding effect moves_on
effect-thumb load (load_up rd imm) place next c h = put-thumb rd _ next c h
effect-thumb load (load_down rd imm) place next c h = put-thumb rd _ next c h
effect-thumb load (add_pc rd imm) place next c h = put-thumb rd _ next c h
effect-thumb load (sub_pc rd imm) place next c h = put-thumb rd _ next c h
effect-thumb load (move_pc rd) place next c h = put-thumb rd _ next c h
effect-thumb load exchange_pc place next c h = absurd (ground arith)
effect-thumb load (branch offset) place next c h = absurd (ground arith)
effect-thumb load (call offset) place next c h = absurd (ground arith)
effect-thumb load (call_thumb half offset) place next c h = absurd (ground arith)
effect-thumb load (plain op rn low) place next c h = refl

module _ (before : ℕ → ℕ) where
  -- The state behind an instruction that moves on.
  abbrev pub behind : (place : ℕ) → Instr → Cpu → Cpu
  behind place i c = effect before i place (place + 4) c

  -- The original instructions do what they do in order.
  pub original-Steps :
      (is : List Instr) (place : ℕ) (c : Cpu)
      → AllMove is
      → c.thumb ≡ false
      → place + 4 * length is < 2 ^ 32
      → IsPlaced before place (map encode is)
      → Steps before (at place c) (in_order before place is c)
  unfolding in_order AllMove
  original-Steps [] place c m t l p = stop (at place c)
  original-Steps (i ∷ is) place c m t l p =
      let here : before place ≡ encode i =
        ap before (let e : place ≡ place + 4 * 0 = omega arith in e) ∙ p 0 (encode i) refl in
      let there : effect before i place (u32 (place + 4)) (at place c)
          ≡ at (place + 4) (behind place i c) =
        effect-here before i place (u32 (place + 4)) place c
        ∙ (ap (λ n. effect before i place n c)
              (let e : u32 (place + 4) ≡ place + 4 = omega arith in e)
            ∙ effect-at before i place (place + 4) (place + 4) c m.1) in
      go (at place c) (at (place + 4) (behind place i c)) (in_order before place (i ∷ is) c)
        (subst (Step before (at place c)) there (fetch i (at place c) m.0 t here))
        (original-Steps is (place + 4) (behind place i c) m.2
          (effect-thumb before i place (place + 4) c m.1 ∙ t) (omega arith)
          (IsPlaced-append before place (encode i ∷ []) (map encode is) p).1)
