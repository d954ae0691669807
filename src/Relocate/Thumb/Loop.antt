-- ===== src/Relocate/Thumb/Loop.antt =====
-- The loop of `relocateInstructionInThumb` of relocate.c on instructions that do not write the
-- program counter.
use unity_game_localization.Prelude.{
  ℕ, zero, suc, ◌+◌, ◌*◌, ◌/◌, ◌≤◌, ◌<◌, ◌≡◌, inl, inr, refl, sym, ap, ◌∙◌, ltb, leb, Bool, true,
  false, List, [], ◌∷◌, ◌++◌, append_assoc, append-nil, arith, length, length-append, get_or, ap₂,
  Bool-cases, le_of_leb, lt_of_leb,
}
use unity_game_localization.Prelude.Bits.{u32}
use unity_game_localization.Run.{ok}
use unity_game_localization.Relocate.Boundaries.{Boundaries}
use unity_game_localization.Relocate.Thumb16.{relocate_instruction_in_thumb16}
use unity_game_localization.Relocate.Thumb16.Machine.{
  Instr, load_up, move_pc, branch, branch_if, compare_branch, jump, no_op, plain, plain_wide,
  IsEncodable, encode, code, size,
}
use unity_game_localization.Relocate.Thumb.{State, is_wide, advance, round, loop}
use unity_game_localization.Relocate.Thumb.Laws.{IsGood, noted, round-IsRound, loop-stop, loop-more}
use unity_game_localization.Relocate.Thumb.Whole.{
  moves_on, AllMove, codes, relocated, relocate_all, IsRest, halves, halves-cases, length-code,
  narrow-is_wide, wide-is_wide, halves_positive, relocate_all-none, get_or-middle, get_or-next,
}

module _ (load : ℕ → ℕ) (orig : List ℕ) (len target_addr : ℕ)
    (whole_len : len ≡ 2 * length orig) where
  -- What a round makes of the next instruction.
  record Moves (i : Instr) (st st' : State) (stop : Bool) : Type 0 where
    words : st'.words ≡ st.words ++ relocated load (target_addr + 2 * st.orig_pos) i
    pos : st'.orig_pos ≡ st.orig_pos + halves i
    flag : stop ≡ leb (length orig) (st.orig_pos + halves i)

  first : (n x : ℕ) (pre ys : List ℕ) → orig ≡ pre ++ x ∷ ys → length pre ≡ n → get_or orig n 0 ≡ x
  first n x pre ys o l = ap (λ (ws : List ℕ). get_or ws n 0) o ∙ get_or-middle pre (x ∷ ys) n l

  second :
      (n x y : ℕ) (pre ys : List ℕ)
      → orig ≡ pre ++ x ∷ y ∷ ys
      → length pre ≡ n
      → get_or orig (n + 1) 0 ≡ y
  second n x y pre ys o l =
      ap (λ (ws : List ℕ). get_or ws (n + 1) 0) o ∙ get_or-next pre (x ∷ y ∷ ys) n l

  half_length : len / 2 ≡ length orig
  half_length = omega arith

  same_pc : (st : State) → IsGood target_addr st → st.pc ≡ u32 (target_addr + 2 * st.orig_pos + 4)
  same_pc st g = omega (arith, g.pc_at)

  narrow-Moves :
      (i : Instr) (st : State)
      → IsEncodable i
      → moves_on i ≡ true
      → size i ≡ 2
      → relocated load (target_addr + 2 * st.orig_pos) i
        ≡ (relocate_instruction_in_thumb16 load
            (u32 (target_addr + 2 * st.orig_pos + 4))
            (encode i)).words
      → IsGood target_addr st
      → get_or orig st.orig_pos 0 ≡ encode i
      → Moves i st (round load orig len st).0 (round load orig len st).1
  unfolding round advance
  narrow-Moves i st h m s r g at =
      let one : 1 ≡ halves i = omega (arith, s) in
      rw (at, narrow-is_wide i h m s, half_length, same_pc st g)
        (record {
          words = ap (λ ws. st.words ++ ws) (sym r);
          pos = ap (λ n. st.orig_pos + n) one;
          flag = ap (λ n. leb (length orig) (st.orig_pos + n)) one;
        })

  wide-Moves :
      (high low : ℕ) (st : State)
      → IsEncodable (plain_wide high low)
      → IsGood target_addr st
      → get_or orig st.orig_pos 0 ≡ high
      → get_or orig (st.orig_pos + 1) 0 ≡ low
      → st.orig_pos + 2 ≤ length orig
      → Moves (plain_wide high low) st (round load orig len st).0 (round load orig len st).1
  unfolding round advance relocated size
  wide-Moves high low st h g at next room =
      let fits : ltb (length orig) (st.orig_pos + 2) ≡ false = ground arith in
      rw (at, next, wide-is_wide high low h, half_length, fits, same_pc st g)
        (record { words = refl; pos = refl; flag = refl })

  -- The halfwords of the instruction stand at the position.
  round-Moves :
      (i : Instr) (st : State) (pre more : List ℕ)
      → IsEncodable i
      → moves_on i ≡ true
      → IsGood target_addr st
      → orig ≡ pre ++ (code i ++ more)
      → length pre ≡ st.orig_pos
      → Moves i st (round load orig len st).0 (round load orig len st).1
  unfolding code relocated moves_on size
  round-Moves (load_up rd imm) st pre more h m g o l =
      narrow-Moves (load_up rd imm) st h m refl refl g (first _ _ pre _ o l)
  round-Moves (move_pc rd) st pre more h m g o l =
      narrow-Moves (move_pc rd) st h m refl refl g (first _ _ pre _ o l)
  round-Moves no_op st pre more h m g o l =
      narrow-Moves no_op st h m refl refl g (first _ _ pre _ o l)
  round-Moves (plain high low) st pre more h m g o l =
      narrow-Moves (plain high low) st h m refl refl g (first _ _ pre _ o l)
  round-Moves (plain_wide high low) st pre more h m g o l =
      wide-Moves high low st h g (first _ _ pre _ o l) (second _ _ _ pre _ o l)
        (omega (arith, l, ap (λ (ws : List ℕ). length ws) o, length-append pre (high ∷ low ∷ more)))
  round-Moves (branch offset) st pre more h m g o l = absurd (cc m)
  round-Moves (branch_if condition offset) st pre more h m g o l = absurd (cc m)
  round-Moves (compare_branch nonzero high offset rn) st pre more h m g o l = absurd (cc m)
  round-Moves jump st pre more h m g o l = absurd (cc m)

  -- A wide instruction that is cut off ends the loop.
  rest-round :
      (h : ℕ) (st : State) (pre : List ℕ)
      → is_wide h ≡ true
      → orig ≡ pre ++ h ∷ []
      → length pre ≡ st.orig_pos
      → round load orig len st ≡ (st, true)
  unfolding round
  rest-round h st pre wide o l =
      let over : ltb (length orig) (st.orig_pos + 2) ≡ true =
        let total : length orig ≡ st.orig_pos + 1 =
          omega (arith, l, ap (λ (ws : List ℕ). length ws) o, length-append pre (h ∷ [])) in
        ground arith in
      rw (first _ _ pre _ o l, wide, half_length, over) refl

  bytes : (i : Instr) (n : ℕ) → target_addr + 2 * (n + halves i) ≡ target_addr + 2 * n + size i
  bytes i n = elim (halves-cases i) [ inl s ↦ omega (arith, s) | inr s ↦ omega (arith, s) ]

  -- The loop from an instruction on, where at most the first half of a wide instruction is left
  -- behind the others.
  pub loop-relocate_all :
      (is : List Instr) (fuel : ℕ) (st : State) (pre rest : List ℕ)
      → AllMove is
      → IsRest rest
      → orig ≡ pre ++ (codes is ++ rest)
      → length pre ≡ st.orig_pos
      → IsGood target_addr st
      → st.orig_pos < length orig
      → length orig ≤ st.orig_pos + fuel
      → st.boundaries.count + length orig ≤ 20 + st.orig_pos
      → (st' : State) × (loop load orig len fuel st ≡ ok st')
        × (st'.words ≡ st.words ++ relocate_all load (target_addr + 2 * st.orig_pos) is)
        × (st'.orig_pos ≡ st.orig_pos + length (codes is))
  unfolding codes AllMove relocate_all IsRest
  loop-relocate_all is zero st pre rest m r o l g b f c = absurd (omega arith)
  loop-relocate_all [] (suc fuel) st pre [] m r o l g b f c =
      absurd (omega (arith, l, ap (λ (ws : List ℕ). length ws) (o ∙ append-nil pre)))
  loop-relocate_all [] (suc fuel) st pre (h ∷ []) m r o l g b f c =
      let ends = rest-round h (noted load orig len target_addr st) pre r o l in
      (
        noted load orig len target_addr st,
        loop-stop load orig len target_addr fuel st (omega arith)
              (ap (λ (q : State × Bool). q.1) ends)
            ∙ ap (λ (q : State × Bool). ok q.0) ends,
        sym (append-nil st.words),
        omega arith,
      )
  loop-relocate_all [] (suc fuel) st pre (h ∷ h' ∷ rest) m r o l g b f c = absurd (cc r)
  loop-relocate_all (i ∷ is) (suc fuel) st pre rest m r o l g b f c =
      let n = noted load orig len target_addr st in
      let st' = (round load orig len n).0 in
      let g₁ : IsGood target_addr n = record {
        counted = g.counted;
        aligned = g.aligned;
        bounded = g.bounded;
        pc_at = g.pc_at;
      } in
      let o' : orig ≡ pre ++ (code i ++ (codes is ++ rest)) =
        o ∙ ap (λ ws. pre ++ ws) (append_assoc (code i) (codes is) rest) in
      let v = round-Moves i n pre (codes is ++ rest) m.0 m.1 g₁ o' l in
      let q = round-IsRound load orig len target_addr n g₁ (omega arith) in
      let size_i = length-code i m.1 in
      let total : length orig ≡ st.orig_pos + (halves i + (length (codes is) + length rest)) =
        omega (
          arith,
          l,
          size_i,
          ap (λ (ws : List ℕ). length ws) o',
          length-append pre (code i ++ (codes is ++ rest)),
          length-append (code i) (codes is ++ rest),
          length-append (codes is) rest,
        ) in
      let behind : target_addr + 2 * (st.orig_pos + halves i)
          ≡ target_addr + 2 * st.orig_pos + size i =
        bytes i st.orig_pos in
      elim (Bool-cases (round load orig len n).1) [
        | inl stop ↦
            let none : length (codes is) ≡ 0 =
              let reached = le_of_leb _ _ (sym v.flag ∙ stop) in omega (arith, total, reached) in
            (
              st',
              loop-stop load orig len target_addr fuel st (omega arith) stop,
              v.words
                  ∙ ap (λ ws. st.words ++ ws)
                      (sym (append-nil _)
                        ∙ ap (λ ws. relocated load (target_addr + 2 * st.orig_pos) i ++ ws)
                            (sym (
                              relocate_all-none load (target_addr + 2 * st.orig_pos + size i) is m.2
                                none))),
              omega (arith, v.pos, size_i, none, length-append (code i) (codes is)),
            )
        | inr more ↦
            let further = lt_of_leb _ _ (sym v.flag ∙ more) in
            let count : st'.boundaries.count ≡ st.boundaries.count + 1 =
              ap (λ (x : Boundaries). x.count) q.kept in
            let step = halves_positive i in
            let (st'', e, w, p) =
              loop-relocate_all is fuel st' (pre ++ code i) rest m.2 r
                (o' ∙ sym (append_assoc pre (code i) (codes is ++ rest)))
                (omega (arith, length-append pre (code i), l, size_i, v.pos)) q.good
                (omega (arith, v.pos, further)) (omega (arith, v.pos, step))
                (omega (arith, v.pos, count, step)) in
            (
              st'',
              loop-more load orig len target_addr fuel st (omega arith) more ∙ e,
              w
                  ∙ ap₂ (λ ws p. ws ++ relocate_all load p is) v.words
                      (ap (λ p. target_addr + 2 * p) v.pos ∙ behind)
                  ∙ append_assoc st.words (relocated load (target_addr + 2 * st.orig_pos) i)
                      (relocate_all load (target_addr + 2 * st.orig_pos + size i) is),
              omega (arith, p, v.pos, size_i, length-append (code i) (codes is)),
            )
      ]
