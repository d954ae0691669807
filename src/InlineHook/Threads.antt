-- ===== src/InlineHook/Threads.antt =====
-- `doProcessThreadPC`, `processThreadPC` and `freeze` of inlineHook.c. The child process that
-- stops the threads is modelled by its effect on their program counters; that it can be forked is
-- a parameter.
pub mod Moved
pub mod Stopped
use unity_game_localization.Prelude.{
  ℕ, zero, suc, ◌+◌, ◌-◌, ◌==◌, if◌then◌else◌, Bool, List, [], ◌∷◌, Option, none, some, take, map,
}
use unity_game_localization.Prelude.Bits.{u32}
use unity_game_localization.Relocate.Boundaries.{orig_boundary, trampoline_boundary}
use unity_game_localization.InlineHook.World.{Item, Info, World, clear_bit0}

-- `ACTION_ENABLE` and `ACTION_DISABLE`.
pub data Action : Type 0 where
  enable disable : Action

-- The first of the boundaries `i`, `i + 1`, .. that is `offset`, with `left` of them to try.
unfoldable pub find_boundary : (boundary : ℕ → ℕ) (offset i left : ℕ) → Option ℕ
find_boundary boundary offset i zero = none
find_boundary boundary offset i (suc left) =
    let next = find_boundary boundary offset (i + 1) left in
    if offset == boundary i then some i else next

-- The new program counter; `none` where the function returns false.
unfoldable pub do_process_thread_pc : Item → (pc : ℕ) → Action → Option ℕ
unfolding find_boundary
do_process_thread_pc item pc enable =
    let offset = u32 (pc + 0x100000000 - clear_bit0 item.target_addr) in
    elim (find_boundary (orig_boundary item.boundaries) offset 0 item.boundaries.count) [
      | none ↦ none
      | some i ↦ some (u32 (item.trampoline_instructions + trampoline_boundary item.boundaries i))
    ]
do_process_thread_pc item pc disable =
    let offset = u32 (pc + 0x100000000 - item.trampoline_instructions) in
    elim (find_boundary (trampoline_boundary item.boundaries) offset 0 item.boundaries.count) [
      | none ↦ none
      | some i ↦ some (u32 (clear_bit0 item.target_addr + orig_boundary item.boundaries i))
    ]

-- The first item of the table that moves the program counter, or the one that is given.
unfoldable pub first_move : List Item → (pc : ℕ) → Action → ℕ
first_move [] pc action = pc
first_move (item ∷ items) pc action =
    let next = first_move items pc action in
    elim (do_process_thread_pc item pc action) [ none ↦ next | some pc' ↦ pc' ]

unfoldable pub process_thread_pc : Info → (item : Option Item) → Action → (pc : ℕ) → ℕ
unfolding first_move
process_thread_pc info none action pc = first_move (take info.size info.item) pc action
process_thread_pc info (some item) action pc = first_move (item ∷ []) pc action

-- With no other thread nothing is forked.
unfoldable pub freeze : (forks : Bool) → (item : Option Item) → Action → World → World
freeze forks item action w =
    if forks
    then record w {
      threads =
          map
            (λ t.
              if t.attaches then record t { pc = process_thread_pc w.info item action t.pc } else t)
            w.threads;
    }
    else w
