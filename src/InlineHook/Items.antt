-- ===== src/InlineHook/Items.antt =====
-- The table of items: `findInlineHookItem`, `addInlineHookItem` and `deleteInlineHookItem`.
pub mod Laws
use unity_game_localization.Prelude.{
  ℕ, zero, suc, ◌+◌, ◌-◌, ◌==◌, leb, ltb, if◌then◌else◌, List, [], ◌∷◌, Option, none, some,
  get_elem?, set,
}
use unity_game_localization.Run.{Run, ok, fault, overflow}
use unity_game_localization.InlineHook.World.{Item, Info}

-- The first of the slots `i`, `i + 1`, .. with the target, `left` of which are in use.
unfoldable pub find_from : (target_addr i left : ℕ) → List Item → Option ℕ
find_from target_addr i zero items = none
find_from target_addr i (suc left) [] = none
find_from target_addr i (suc left) (x ∷ items) =
    let next = find_from target_addr (i + 1) left items in
    if x.target_addr == target_addr then some i else next

-- The position of the item, which the source returns as a pointer; `none` is NULL.
unfoldable pub find_inline_hook_item : Info → (target_addr : ℕ) → Option ℕ
unfolding find_from
find_inline_hook_item info target_addr = find_from target_addr 0 info.size info.item

-- The slot is handed out as an earlier item left it.
unfoldable pub add_inline_hook_item : Info → Option (ℕ × Info)
add_inline_hook_item info =
    if leb 1024 info.size then none else some (info.size, record info { size = info.size + 1 })

-- The last item takes the deleted one's slot, and stays in its own behind the end.
unfoldable pub delete_inline_hook_item : (pos : ℕ) → Info → Run Info
delete_inline_hook_item pos info = elim (get_elem? info.item (info.size - 1)) [
  | none ↦ fault overflow
  | some last ↦ ok (record { item = set info.item pos last; size = info.size - 1 })
]
