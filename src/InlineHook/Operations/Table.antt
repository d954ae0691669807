-- ===== src/InlineHook/Operations/Table.antt =====
-- Hooking in the table of inlineHook.c: the table stays well formed.
use unity_game_localization.Prelude.{ℕ, ◌≡◌, refl, Bool, true, false, Option, inr}
use unity_game_localization.InlineHook.World.{hooked, Item, World}
use unity_game_localization.InlineHook.Threads.{Action, freeze}
use unity_game_localization.InlineHook.Items.Laws.{Used, IsTable, update-IsTable}
use unity_game_localization.InlineHook.Operations.{do_inline_hook}

-- Stopping the threads does not touch the table or the memory.
pub freeze_keeps :
    (forks : Bool) (item : Option Item) (action : Action) (w : World)
    → ((freeze forks item action w).info ≡ w.info)
      × ((freeze forks item action w).memory ≡ w.memory)
unfolding freeze
freeze_keeps true item action w = (refl, refl)
freeze_keeps false item action w = (refl, refl)

-- Hooking a used item keeps the table.
pub do_inline_hook-IsTable :
    (pos : ℕ) (item : Item) (w : World)
    → IsTable w.info
    → Used w.info pos item
    → IsTable (do_inline_hook pos item w).info
unfolding do_inline_hook
do_inline_hook-IsTable pos item w t u =
    update-IsTable w.info pos item (record item { status = hooked }) t u refl (inr refl)
