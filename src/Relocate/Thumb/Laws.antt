-- ===== src/Relocate/Thumb/Laws.antt =====
-- The loop of `relocateInstructionInThumb` of relocate.c: its invariant and its end.
use unity_game_localization.Prelude.{
  ℕ, zero, suc, ◌+◌, ◌*◌, ◌/◌, ◌%◌, ◌≤◌, ◌<◌, ◌≡◌, refl, ap, ◌∙◌, Bool, true, false, List, [], ◌∷◌,
  ◌++◌, arith, length, length-append, Bool-cases, lt_of_ltb, le_of_ltb, inl, inr, ltb, leb, get_or,
}
use unity_game_localization.Prelude.Bits.{u32, bit_and-low}
use unity_game_localization.Run.{ok, ◌>>=◌}
use unity_game_localization.Relocate.Common.{Emitted, low_half, high_half}
use unity_game_localization.Relocate.Thumb16.Shape.{
  IsEmitted, relocate_instruction_in_thumb16-IsEmitted,
}
use unity_game_localization.Relocate.Thumb32.Shape.{relocate_instruction_in_thumb32-IsEmitted}
use unity_game_localization.Relocate.Boundaries.{Boundaries, marked, mark-marked}
use unity_game_localization.Relocate.Thumb.{
  State, is_wide, advance, round, loop, Relocated, jump_back, start, relocate_instruction_in_thumb,
}

-- The loop's invariant: the position is the number of words written, it is aligned to 32 bits,
-- the words are at most eight times as many as those read, and `pc` is that of the next
-- instruction.
pub record IsGood (target_addr : ℕ) (st : State) : Type 0 where
  pub counted : st.trampoline_pos ≡ length st.words
  pub aligned : st.trampoline_pos % 2 ≡ 0
  pub bounded : st.trampoline_pos ≤ 8 * st.orig_pos
  pub pc_at : st.pc ≡ u32 (target_addr + 4 + 2 * st.orig_pos)

advance-IsGood :
    (size most target_addr : ℕ) (e : Emitted) (st : State)
    → most ≤ 8 * size
    → IsEmitted most e
    → IsGood target_addr st
    → IsGood target_addr (advance size e st)
unfolding advance
advance-IsGood size most target_addr e st m h g = record {
  counted = omega (arith, length-append st.words e.words, h.counted, g.counted);
  aligned = omega (arith, h.aligned, g.aligned);
  bounded = omega (arith, h.bounded, g.bounded);
  pc_at = omega (arith, g.pc_at);
}

module _ (load : ℕ → ℕ) (orig : List ℕ) (len target_addr : ℕ) where
  -- What a round makes of a state in front of the end.
  pub record IsRound (st st' : State) (stop : Bool) : Type 0 where
    pub good : IsGood target_addr st'
    pub kept : st'.boundaries ≡ st.boundaries
    pub within : st'.orig_pos ≤ len / 2
    pub ended : stop ≡ true → len / 2 ≤ st'.orig_pos + 1
    pub moved : stop ≡ false → (st.orig_pos < st'.orig_pos) × (st'.orig_pos < len / 2)

  advance-IsRound :
      (size most : ℕ) (e : Emitted) (st : State)
      → most ≤ 8 * size
      → 0 < size
      → IsEmitted most e
      → IsGood target_addr st
      → st.orig_pos + size ≤ len / 2
      → IsRound st (advance size e st) (leb (len / 2) (advance size e st).orig_pos)
  unfolding advance
  advance-IsRound size most e st m pos h g l = record {
    good = advance-IsGood size most target_addr e st m h g;
    kept = refl;
    within = l;
    ended = ground arith;
    moved = λ x. (omega arith, ground arith);
  }

  abbrev first_half : State → ℕ
  first_half st = get_or orig st.orig_pos 0

  abbrev second_half : State → ℕ
  second_half st = get_or orig (st.orig_pos + 1) 0

  pub round-IsRound :
      (st : State)
      → IsGood target_addr st
      → st.orig_pos < len / 2
      → IsRound st (round load orig len st).0 (round load orig len st).1
  unfolding round
  round-IsRound st g l = elim (Bool-cases (is_wide (first_half st))) [
    | inl wide ↦ elim (Bool-cases (ltb (len / 2) (st.orig_pos + 2))) [
      | inl over ↦
          rw (wide, over)
            (record {
              good = g;
              kept = refl;
              within = omega arith;
              ended = λ x. omega (arith, lt_of_ltb _ _ over);
              moved = λ x. absurd (cc);
            })
      | inr room ↦
          rw (wide, room)
            (advance-IsRound 2 14 _ st (omega arith) (omega arith)
              (relocate_instruction_in_thumb32-IsEmitted load st.pc (first_half st)
                (second_half st))
              g (le_of_ltb _ _ room))
    ]
    | inr narrow ↦ rw narrow (
        advance-IsRound 1 8 _ st (omega arith) (omega arith)
          (relocate_instruction_in_thumb16-IsEmitted load st.pc (first_half st)) g (omega arith))
  ]

  -- Where the loop comes to.
  pub record IsDone (first : Boundaries) (st : State) : Type 0 where
    pub good : IsGood target_addr st
    pub within : st.orig_pos ≤ len / 2
    pub nearly_all : len / 2 ≤ st.orig_pos + 1
    pub marked : (first.count < st.boundaries.count) × (st.boundaries.count ≤ 20)

  -- A round's state behind the writes to the boundaries, with room for them.
  abbrev pub noted : State → State
  noted st = record st {
    boundaries = marked (st.orig_pos * 2) (st.trampoline_pos * 2) st.boundaries;
  }

  pub loop-stop :
      (fuel : ℕ) (st : State)
      → st.boundaries.count < 20
      → (round load orig len (noted st)).1 ≡ true
      → loop load orig len (suc fuel) st ≡ ok (round load orig len (noted st)).0
  unfolding loop
  loop-stop fuel st h stop =
      rw (mark-marked (st.orig_pos * 2) (st.trampoline_pos * 2) st.boundaries h, ◌>>=◌)
        (ap
          (λ (b : Bool). elim b [
            | true ↦ ok (round load orig len (noted st)).0
            | false ↦ loop load orig len fuel (round load orig len (noted st)).0
          ])
          stop)

  pub loop-more :
      (fuel : ℕ) (st : State)
      → st.boundaries.count < 20
      → (round load orig len (noted st)).1 ≡ false
      → loop load orig len (suc fuel) st
        ≡ loop load orig len fuel (round load orig len (noted st)).0
  unfolding loop
  loop-more fuel st h more =
      rw (mark-marked (st.orig_pos * 2) (st.trampoline_pos * 2) st.boundaries h, ◌>>=◌)
        (ap
          (λ (b : Bool). elim b [
            | true ↦ ok (round load orig len (noted st)).0
            | false ↦ loop load orig len fuel (round load orig len (noted st)).0
          ])
          more)

  pub loop-IsDone :
      (fuel : ℕ) (st : State)
      → len / 2 ≤ st.orig_pos + fuel
      → IsGood target_addr st
      → st.orig_pos < len / 2
      → st.boundaries.count + len / 2 ≤ 20 + st.orig_pos
      → (st' : State) × (loop load orig len fuel st ≡ ok st') × IsDone st.boundaries st'
  loop-IsDone zero st f g l c = absurd (omega arith)
  loop-IsDone (suc fuel) st f g l c =
      let st' = (round load orig len (noted st)).0 in
      let g₁ : IsGood target_addr (noted st) = record {
        counted = g.counted;
        aligned = g.aligned;
        bounded = g.bounded;
        pc_at = g.pc_at;
      } in
      let r = round-IsRound (noted st) g₁ l in
      let same : st'.boundaries.count ≡ st.boundaries.count + 1 =
        ap (λ (x : Boundaries). x.count) r.kept in
      elim (Bool-cases (round load orig len (noted st)).1) [
        | inl stop ↦ (
          st',
          loop-stop fuel st (omega arith) stop,
          record {
            good = r.good;
            within = r.within;
            nearly_all = r.ended stop;
            marked = omega arith;
          },
        )
        | inr more ↦
            let (st'', e, d) =
              loop-IsDone fuel st' (omega (arith, (r.moved more).0)) r.good (r.moved more).1
                (omega (arith, (r.moved more).0)) in
            (
              st'',
              loop-more fuel st (omega arith) more ∙ e,
              record {
                good = d.good;
                within = d.within;
                nearly_all = d.nearly_all;
                marked = omega (arith, d.marked);
              },
            )
      ]

-- What a relocation of `len` bytes at `target_addr` leaves in Thumb mode.
pub record IsCopied (target_addr len : ℕ) (first : Boundaries) (r : Relocated) : Type 0 where
  -- the number of halfwords that were copied, and what they became
  pub copied : ℕ
  pub body : List ℕ
  pub low : ℕ
  pub high : ℕ
  pub trampoline_eq : r.trampoline ≡ body ++ 0xF8DF ∷ 0xF000 ∷ low ∷ high ∷ []
  -- the literal of the jump back is the Thumb address of the first halfword that was not copied
  pub back : low + 65536 * high ≡ u32 (target_addr + 2 * copied + 1)
  pub nearly_all : (copied ≤ len / 2) × (len / 2 ≤ copied + 1)
  -- the jump stands at a 32-bit boundary, which its literal load needs
  pub aligned : length body % 2 ≡ 0
  pub bounded : length body ≤ 8 * copied
  pub marked : (first.count < r.bounds.count) × (r.bounds.count ≤ 20)

-- With at least a halfword to copy and room for a boundary each, the relocation in Thumb mode ends
-- without a fault: it copies all halfwords, or all but the last, into an even number of halfwords,
-- at most eight for each, records a boundary at least and at most 20 in all, and ends with a jump
-- whose literal is the address, with the Thumb bit, of the first halfword that was not copied.
pub relocate_instruction_in_thumb-IsCopied :
    (load : ℕ → ℕ) (target_addr : ℕ) (orig : List ℕ) (len : ℕ) (b : Boundaries)
    → 0 < len / 2
    → b.count + len / 2 ≤ 20
    → (r : Relocated) × (relocate_instruction_in_thumb load target_addr orig len b ≡ ok r)
      × IsCopied target_addr len b r
unfolding relocate_instruction_in_thumb
relocate_instruction_in_thumb-IsCopied load target_addr orig len b pos room =
    let (st, e, d) =
      loop-IsDone load orig len target_addr (len + 1) (start target_addr b) (omega arith)
        (record { counted = refl; aligned = refl; bounded = omega arith; pc_at = omega arith }) pos
        (omega arith) in
    (
      record { trampoline = st.words ++ jump_back target_addr st; bounds = st.boundaries },
      rw e,
      record {
        copied = st.orig_pos;
        body = st.words;
        low = low_half (u32 (target_addr + st.orig_pos * 2 + 1));
        high = high_half (u32 (target_addr + st.orig_pos * 2 + 1));
        trampoline_eq = refl;
        back = omega (arith, bit_and-low 16 (u32 (target_addr + st.orig_pos * 2 + 1)));
        nearly_all = (d.within, d.nearly_all);
        aligned = omega (arith, d.good.aligned, d.good.counted);
        bounded = omega (arith, d.good.bounded, d.good.counted);
        marked = d.marked;
      },
    )
