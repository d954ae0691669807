-- ===== src/InlineHook/Operations/RoundTrip.antt =====
-- `doInlineHook` and `doInlineUnHook` of inlineHook.c, one after the other.
use unity_game_localization.Prelude.{
  ℕ, zero, suc, ◌+◌, ◌%◌, ◌≤◌, ◌<◌, ◌≡◌, ◌⊎◌, subst, ◌-◌, ◌∙◌, arith, length, inl, inr,
  get_elem?-set_self, ◌==◌, if◌then◌else◌, Bool-cases,
}
use native.Mathlib.Decide.{dec_lt}
use unity_game_localization.Run.{Run}
use unity_game_localization.InlineHook.World.{
  hooked, Item, Memory, World, read, clear_bit0, test_bit0,
}
use unity_game_localization.InlineHook.Items.Laws.{Used, IsTable}
use unity_game_localization.InlineHook.Operations.Patch.{write-outside}
use unity_game_localization.InlineHook.Operations.{
  bytes_of_halfwords, bytes_of_words, patch, store_proto, do_inline_hook, do_inline_un_hook,
}
use unity_game_localization.InlineHook.Operations.Table.{do_inline_hook-IsTable}
use unity_game_localization.InlineHook.Operations.UnHook.{IsUnhooked, do_inline_un_hook-IsUnhooked}

-- Two memories that are read alike hold the same bytes there.
pub read-injective :
    (m m' : Memory) (from n i : ℕ)
    → read m from n ≡ read m' from n
    → i < n
    → m (from + i) ≡ m' (from + i)
unfolding read
read-injective m m' from zero i h l = absurd (omega arith)
read-injective m m' from (suc n) zero h l = let e : from + 0 ≡ from = omega arith in rw e (cc h)
read-injective m m' from (suc n) (suc i) h l =
    let e : from + suc i ≡ from + 1 + i = omega arith in
    let h' : read m (from + 1) n ≡ read m' (from + 1) n = cc h in
    rw e (read-injective m m' (from + 1) n i h' (omega arith))

-- The jump is no longer than the bytes that are saved.
pub length-patch : (x : Item) → length (patch x) ≤ (if test_bit0 x.target_addr then 12 else 8)
unfolding patch bytes_of_halfwords bytes_of_words
length-patch x = elim (Bool-cases (test_bit0 x.target_addr)) [
  | inl thumb ↦ elim (Bool-cases (clear_bit0 x.target_addr % 4 == 0)) [
    | inl even ↦ rw (thumb, even) (omega arith)
    | inr odd ↦ rw (thumb, odd) (omega arith)
  ]
  | inr arm ↦ rw arm (omega arith)
]

module _ (pos : ℕ) (x : Item) (w : World) (t : IsTable w.info) (u : Used w.info pos x)
    (size : length x.orig_instructions ≡ (if test_bit0 x.target_addr then 12 else 8))
    (saved : x.orig_instructions
      ≡ read (store_proto x w.memory) (clear_bit0 x.target_addr) (length x.orig_instructions)) where
  abbrev hooked_world : World
  hooked_world = do_inline_hook pos x w

  abbrev hooked_item : Item
  hooked_item = record x { status = hooked }

  do_inline_hook-Used : Used hooked_world.info pos hooked_item
  unfolding do_inline_hook
  do_inline_hook-Used = record {
    below = u.below;
    here = get_elem?-set_self w.info.item pos hooked_item (omega (arith, t.slots, t.fits, u.below));
  }

  -- Outside the saved bytes hooking writes nothing but the address of the trampoline.
  do_inline_hook-outside :
      (a : ℕ)
      → (a < clear_bit0 x.target_addr) ⊎ (clear_bit0 x.target_addr + length x.orig_instructions ≤ a)
      → hooked_world.memory a ≡ store_proto x w.memory a
  unfolding do_inline_hook
  do_inline_hook-outside a h =
      write-outside (store_proto x w.memory) (clear_bit0 x.target_addr) (patch x) a (further h)
    where
      further :
          (a < clear_bit0 x.target_addr)
            ⊎ (clear_bit0 x.target_addr + length x.orig_instructions ≤ a)
          → (a < clear_bit0 x.target_addr) ⊎ (clear_bit0 x.target_addr + length (patch x) ≤ a)
      further (inl l) = inl l
      further (inr l) = inr (omega (arith, length-patch x))

  -- Let the table be well formed and an item in use that has saved as many bytes as
  -- `registerInlineHook` saves, 12 in Thumb mode and 8 in Arm mode, those at its target once the
  -- address of the trampoline is stored. Hooking the item and unhooking it then ends without a
  -- fault and leaves every byte of memory as it was but for that stored address.
  pub do_inline_un_hook-do_inline_hook :
      (w' : World) × (do_inline_un_hook pos hooked_item (do_inline_hook pos x w) ≡ Run.ok w')
      × ((a : ℕ) → w'.memory a ≡ store_proto x w.memory a)
  do_inline_un_hook-do_inline_hook =
      let (w', e, un) =
        do_inline_un_hook-IsUnhooked pos hooked_item hooked_world
          (do_inline_hook-IsTable pos x w t u) do_inline_hook-Used in
      (w', e, λ a. back w' un a)
    where
      back :
          (w' : World)
          → IsUnhooked pos hooked_item hooked_world w'
          → (a : ℕ) → w'.memory a ≡ store_proto x w.memory a
      back w' un a = elim (dec_lt a (clear_bit0 x.target_addr)) [
        | yes l ↦ un.outside a (inl l) ∙ do_inline_hook-outside a (inl l)
        | no m ↦ elim (dec_lt a (clear_bit0 x.target_addr + length x.orig_instructions)) [
          | no m' ↦ un.outside a (inr (omega arith)) ∙ do_inline_hook-outside a (inr (omega arith))
          | yes l ↦
              let i = a - clear_bit0 x.target_addr in
              let e : clear_bit0 x.target_addr + i ≡ a = omega arith in
              subst (λ b. w'.memory b ≡ store_proto x w.memory b) e
                (read-injective w'.memory (store_proto x w.memory) (clear_bit0 x.target_addr)
                  (length x.orig_instructions) i (un.restored ∙ saved) (omega arith))
        ]
      ]
