-- ===== src/InlineHook/Operations/Absent.antt =====
-- `registerInlineHook` and `inlineHook` of inlineHook.c, of a target that no item has yet.
use unity_game_localization.Prelude.{
  ℕ, suc, ◌+◌, ◌≤◌, ◌≡◌, ◌≢◌, refl, ap, ◌∙◌, true, Bool, List, Option, none, some, arith, get_elem?,
  set, leb, inl, inr, Option-cases, get_elem?-some,
}
use unity_game_localization.Run.{Run, ◌>>=◌}
use unity_game_localization.InlineHook.World.{Status, registered, Item, Memory, World}
use unity_game_localization.InlineHook.Threads.{freeze, enable}
use unity_game_localization.InlineHook.Items.{find_inline_hook_item, add_inline_hook_item}
use unity_game_localization.InlineHook.Items.Laws.{Used, IsTable, find-some, find-none}
use unity_game_localization.InlineHook.Operations.{
  Region, is_executable_addr, register_inline_hook, do_inline_hook, inline_hook,
}
use unity_game_localization.InlineHook.Operations.Fill.{Fills, fill_item-Fills}

-- No used item has the target.
abbrev pub IsAbsent : (target_addr : ℕ) → World → Type 0
IsAbsent target_addr w = (i : ℕ) (x : Item) → Used w.info i x → x.target_addr ≢ target_addr

-- A well-formed table with room for `n` more items, the unused slots of which have no more
-- boundaries than leave room for those of a new item.
pub record CanGrow (n : ℕ) (w : World) : Type 0 where
  pub table : IsTable w.info
  pub room : w.info.size + n ≤ 1024
  pub unmarked :
      (i : ℕ) (x : Item)
      → w.info.size ≤ i
      → get_elem? w.info.item i ≡ some x
      → x.boundaries.count ≤ 14

find-absent : (t : ℕ) (w : World) → IsAbsent t w → find_inline_hook_item w.info t ≡ none
find-absent t w absent = elim (Option-cases (find_inline_hook_item w.info t)) [
  | inl e ↦ e
  | inr (k, e) ↦ let (x, u, m) = find-some w.info t k e in absurd (absent k x u m)
]

find-Used :
    (k : ℕ) (x : Item) (w : World)
    → IsTable w.info
    → Used w.info k x
    → find_inline_hook_item w.info x.target_addr ≡ some k
find-Used k x w t u = elim (Option-cases (find_inline_hook_item w.info x.target_addr)) [
  | inl e ↦ absurd (find-none w.info x.target_addr e k x u refl)
  | inr (j, e) ↦
      let (y, v, m) = find-some w.info x.target_addr j e in e ∙ ap some (t.unique j k y x v u m)
]

-- A registered item in use is hooked.
pub inline_hook-Used :
    (forks : Bool) (k : ℕ) (x : Item) (w : World)
    → IsTable w.info
    → Used w.info k x
    → x.status ≡ registered
    → inline_hook forks x.target_addr w
      ≡ Run.ok (Status.ok, do_inline_hook k x (freeze forks (some x) enable w))
unfolding inline_hook
inline_hook-Used forks k x w t u r =
    rw (find-Used k x w t u, inline_hook) (rw (u.here, inline_hook) (rw r refl))

module _ (maps : List Region) (mmap_result target_addr new_addr : ℕ) (proto_addr : Option ℕ)
    (executable : (is_executable_addr maps target_addr ≡ true)
      × (is_executable_addr maps new_addr ≡ true)) where
  -- Registering it fills the first unused slot.
  pub register_inline_hook-absent :
      (n : ℕ) (w : World)
      → CanGrow (suc n) w
      → IsAbsent target_addr w
      → (slot x : Item) × (memory' : Memory) × Fills mmap_result target_addr new_addr proto_addr
          slot w.memory x memory'
        × (get_elem? w.info.item w.info.size ≡ some slot)
        × (register_inline_hook maps mmap_result target_addr new_addr proto_addr w
            ≡ Run.ok (
              Status.ok,
              record w {
                info = record { item = set w.info.item w.info.size x; size = w.info.size + 1 };
                memory = memory';
              },
            ))
  unfolding register_inline_hook add_inline_hook_item
  register_inline_hook-absent n w g absent =
      let (slot, at) =
        get_elem?-some w.info.item w.info.size (omega (arith, g.table.slots, g.room)) in
      let (x, memory', e, f) =
        fill_item-Fills mmap_result target_addr new_addr proto_addr slot w.memory
          (g.unmarked w.info.size slot (omega arith) at) in
      let open_table : leb 1024 w.info.size ≡ Bool.false = let r = g.room in ground arith in
      (
        slot,
        x,
        memory',
        f,
        at,
        rw (executable.0, executable.1, register_inline_hook)
            (rw (find-absent target_addr w absent, register_inline_hook)
              (rw (open_table, register_inline_hook)
                (rw (at, register_inline_hook) (rw (e, ◌>>=◌) refl)))),
      )
