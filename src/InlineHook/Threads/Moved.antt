-- ===== src/InlineHook/Threads/Moved.antt =====
-- Where `doProcessThreadPC` of inlineHook.c moves a stopped thread.
use unity_game_localization.Prelude.{
  ℕ, zero, suc, ◌+◌, ◌-◌, ◌^◌, ◌<◌, ◌≡◌, ◌≢◌, refl, ap, ◌∙◌, none, some, arith, ==_of_eq, ==_of_ne,
}
use unity_game_localization.Prelude.Bits.{u32}
use unity_game_localization.Relocate.Boundaries.{orig_boundary, trampoline_boundary}
use unity_game_localization.InlineHook.World.{Item, clear_bit0}
use unity_game_localization.InlineHook.Threads.{
  enable, disable, find_boundary, do_process_thread_pc,
}

module _ (boundary : ℕ → ℕ) (offset : ℕ) where
  -- The first of the boundaries with the offset is found.
  find_boundary-some :
      (i left k : ℕ)
      → k < left
      → boundary (i + k) ≡ offset
      → ((j : ℕ) → j < k → boundary (i + j) ≢ offset)
      → find_boundary boundary offset i left ≡ some (i + k)
  unfolding find_boundary
  find_boundary-some i zero k l h first = absurd (omega arith)
  find_boundary-some i (suc left) zero l h first =
      let e : i + 0 ≡ i = omega arith in
      rw (e, ==_of_eq offset (boundary i) (omega (arith, h, ap boundary e))) refl
  find_boundary-some i (suc left) (suc k) l h first =
      let e : i + suc k ≡ i + 1 + k = omega arith in
      let ne : offset ≢ boundary i =
        let e₀ : i + 0 ≡ i = omega arith in
        let other = first 0 (omega arith) in λ q. other (ap boundary e₀ ∙ omega (arith, q)) in
      rw (==_of_ne offset (boundary i) ne, e)
        (find_boundary-some (i + 1) left k (omega arith) (ap boundary (omega arith) ∙ h)
          λ j m q. first (suc j) (omega arith) (ap boundary (omega arith) ∙ q))

  -- Without one with the offset none is found.
  find_boundary-none :
      (i left : ℕ)
      → ((j : ℕ) → j < left → boundary (i + j) ≢ offset)
      → find_boundary boundary offset i left ≡ none
  unfolding find_boundary
  find_boundary-none i zero other = refl
  find_boundary-none i (suc left) other =
      let e₀ : i + 0 ≡ i = omega arith in
      let first = other 0 (omega arith) in
      let ne : offset ≢ boundary i = λ q. first (ap boundary e₀ ∙ omega (arith, q)) in
      rw (==_of_ne offset (boundary i) ne) (
        find_boundary-none (i + 1) left
          λ j m q. other (suc j) (omega arith) (ap boundary (omega arith) ∙ q))

-- No boundary is twice among the first `n`.
abbrev pub AreDistinct : (boundary : ℕ → ℕ) (n : ℕ) → Type 0
AreDistinct boundary n = (i j : ℕ) → i < n → j < n → boundary i ≡ boundary j → i ≡ j

find_boundary-distinct :
    (boundary : ℕ → ℕ) (base n i : ℕ)
    → AreDistinct boundary n
    → i < n
    → base + boundary i < 2 ^ 32
    → find_boundary boundary (u32 (base + boundary i + 0x100000000 - base)) 0 n ≡ some i
find_boundary-distinct boundary base n i distinct l low =
    let at : u32 (base + boundary i + 0x100000000 - base) ≡ boundary i = omega arith in
    rw at (
      find_boundary-some boundary (boundary i) 0 n i l (ap boundary (omega arith)) (λ j m q.
        let e : 0 + j ≡ j = omega arith in
        let same = distinct j i (omega arith) l (ap boundary (omega arith) ∙ q) in omega arith)
      ∙ ap some (omega arith))

module _ (item : Item) where
  -- The addresses of the two boundaries.
  abbrev pub original_pc : (i : ℕ) → ℕ
  original_pc i = clear_bit0 item.target_addr + orig_boundary item.boundaries i

  abbrev pub moved_pc : (i : ℕ) → ℕ
  moved_pc i = item.trampoline_instructions + trampoline_boundary item.boundaries i

  pub do_process_thread_pc-boundaries :
      (i : ℕ)
      → i < item.boundaries.count
      → AreDistinct (orig_boundary item.boundaries) item.boundaries.count
      → AreDistinct (trampoline_boundary item.boundaries) item.boundaries.count
      → original_pc i < 2 ^ 32
      → moved_pc i < 2 ^ 32
      → (do_process_thread_pc item (original_pc i) enable ≡ some (moved_pc i))
        × (do_process_thread_pc item (moved_pc i) disable ≡ some (original_pc i))
  unfolding do_process_thread_pc
  do_process_thread_pc-boundaries i l distinct distinct' low low' =
      let there =
        find_boundary-distinct (orig_boundary item.boundaries) (clear_bit0 item.target_addr)
          item.boundaries.count i distinct l low in
      let back =
        find_boundary-distinct (trampoline_boundary item.boundaries) item.trampoline_instructions
          item.boundaries.count i distinct' l low' in
      (
        rw (there, do_process_thread_pc) (ap some (omega arith)),
        rw (back, do_process_thread_pc) (ap some (omega arith)),
      )

  -- A thread at none of the boundaries stays where it is.
  pub do_process_thread_pc-elsewhere :
      (pc : ℕ)
      → pc < 2 ^ 32
      → clear_bit0 item.target_addr < 2 ^ 32
      → ((i : ℕ) → i < item.boundaries.count → orig_boundary item.boundaries i < 2 ^ 31)
      → ((i : ℕ) → i < item.boundaries.count → u32 (original_pc i) ≢ pc)
      → do_process_thread_pc item pc enable ≡ none
  unfolding do_process_thread_pc
  do_process_thread_pc-elsewhere pc low target_low small other =
      let missed =
        find_boundary-none (orig_boundary item.boundaries)
          (u32 (pc + 0x100000000 - clear_bit0 item.target_addr)) 0 item.boundaries.count
          (λ i l q.
            let e : orig_boundary item.boundaries (0 + i) ≡ orig_boundary item.boundaries i =
              ap (orig_boundary item.boundaries) (let e₀ : 0 + i ≡ i = omega arith in e₀) in
            let s = small i l in other i l (omega (arith, q, e))) in
      rw (missed, do_process_thread_pc) refl
