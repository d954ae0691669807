-- ===== src/Inject/Inline/Undo.antt =====
-- One hook of inject_inlinehook.cpp and the call of `inlineUnHook` that takes it away.
use unity_game_localization.Prelude.{
  ℕ, suc, ◌+◌, ◌-◌, ◌≤◌, ◌<◌, ◌≡◌, ◌⊎◌, sym, subst, ap, ap₂, refl, ◌∙◌, Bool, true, List, some,
  arith, length, inl, inr, get_elem?-some, if◌then◌else◌,
}
use native.Mathlib.Decide.{dec_lt}
use unity_game_localization.Run.{Run, ok}
use unity_game_localization.InlineHook.World.{
  Status, hooked, Item, Info, Thread, Memory, World, read, clear_bit0, test_bit0,
}
use unity_game_localization.InlineHook.Threads.{freeze, disable}
use unity_game_localization.InlineHook.Items.Laws.{Used, IsTable}
use unity_game_localization.InlineHook.Operations.{
  is_executable_addr, patch, do_inline_hook, inline_un_hook,
}
use unity_game_localization.InlineHook.Operations.Table.{freeze_keeps}
use unity_game_localization.InlineHook.Operations.Patch.{length-read}
use unity_game_localization.InlineHook.Operations.RoundTrip.{read-injective, length-patch}
use unity_game_localization.InlineHook.Operations.UnHook.{
  IsUnhooked, UnHooks, not_hooked, un_hooked, inline_un_hook-UnHooks,
}
use unity_game_localization.InlineHook.Operations.Fill.{Fills}
use unity_game_localization.InlineHook.Operations.Absent.{IsAbsent, CanGrow}
use unity_game_localization.Inject.Startup.{Replacement}
use unity_game_localization.Inject.Inline.{Engine, hook_at}
use unity_game_localization.Inject.Inline.Install.{hook_at-world₂}
use unity_game_localization.Inject.Inline.Outcome.{
  world₂, world₂-unpatched, world₂-Used, world₂-CanGrow, func-IsInstalled,
}

-- The table holds the same items as before, and memory the same bytes outside the page and the
-- variable that the address of the trampoline is stored in.
pub record IsUndone (page old_func : ℕ) (w w' : World) : Type 0 where
  pub table : IsTable w'.info
  pub size : w'.info.size ≡ w.info.size
  pub only : (i : ℕ) (x : Item) → Used w'.info i x → Used w.info i x
  pub kept : (i : ℕ) (x : Item) → Used w.info i x → Used w'.info i x
  pub memory :
      (a : ℕ)
      → (a < page) ⊎ (page + 104 ≤ a)
      → (a < old_func) ⊎ (old_func + 4 ≤ a)
      → w'.memory a ≡ w.memory a

-- Two used items of one slot are the same.
Used-same : (w : World) (i : ℕ) (x y : Item) → Used w.info i x → Used w.info i y → x ≡ y
Used-same w i x y u v = cc (sym u.here ∙ v.here)

module _ (forks : Bool) (func new_addr page old_func : ℕ) (slot x : Item) (w : World)
    (memory' : Memory) (threads : List Thread)
    (f : Fills page func new_addr (some old_func) slot w.memory x memory')
    (absent : IsAbsent func w) (n : ℕ) (g : CanGrow (suc n) w) where
  abbrev after : World
  after = world₂ func new_addr page old_func slot x w memory' threads f absent

  abbrev hooked_item : Item
  hooked_item = record x { status = hooked }

  abbrev un_hooking : World
  un_hooking = freeze forks (some hooked_item) disable after

  -- The used item with the target is the one that was hooked.
  the_item :
      (pos : ℕ) (y : Item)
      → Used after.info pos y
      → y.target_addr ≡ func
      → (pos ≡ w.info.size) × (y ≡ hooked_item)
  the_item pos y u m =
      let t =
        (world₂-CanGrow func new_addr page old_func slot x w memory' threads f absent n g).table in
      let v = world₂-Used func new_addr page old_func slot x w memory' threads f absent n g in
      let at : pos ≡ w.info.size = t.unique pos w.info.size y hooked_item u v (m ∙ sym f.target) in
      (at, Used-same after w.info.size y hooked_item (subst (λ i. Used after.info i y) at u) v)

  module _ (w'' : World) (un : IsUnhooked w.info.size hooked_item un_hooking w'') where
    same_size : w''.info.size ≡ w.info.size
    unfolding do_inline_hook
    same_size = omega (
      arith,
      un.smaller,
      ap (λ (i : Info). i.size) (freeze_keeps forks (some hooked_item) disable after).0,
    )

    only : (i : ℕ) (y : Item) → Used w''.info i y → Used w.info i y
    only i y u =
        let below = u.below in
        let v = un.kept i y (omega (arith, same_size)) u in
        let v' : Used after.info i y =
          subst (λ (t : Info). Used t i y) (freeze_keeps forks (some hooked_item) disable after).0
            v in
        elim ((func-IsInstalled func new_addr page old_func slot x w memory' threads f absent n
            g).only
          i y v') [ inl m ↦ absurd (un.gone i y u (m ∙ sym f.target)) | inr old ↦ old ]

    kept : (i : ℕ) (y : Item) → Used w.info i y → Used w''.info i y
    kept i y u =
        let (z, at) =
          get_elem?-some w''.info.item i (omega (arith, un.table.slots, u.below, g.table.fits)) in
        let v : Used w''.info i z = record {
          below = omega (arith, same_size, u.below);
          here = at;
        } in
        subst (λ (t : Item). Used w''.info i t) (Used-same w i z y (only i z v) u) v

    abbrev saved_length : ℕ
    saved_length = if test_bit0 func then 12 else 8

    length_eq : length x.orig_instructions ≡ saved_length
    length_eq =
        ap (λ (bs : List ℕ). length bs) f.keeps
        ∙ length-read w.memory (clear_bit0 func) saved_length

    restored :
        read w''.memory (clear_bit0 func) saved_length
        ≡ read w.memory (clear_bit0 func) saved_length
    restored =
        ap₂ (λ t m. read w''.memory (clear_bit0 t) m) (sym f.target) (sym length_eq)
        ∙ (un.restored ∙ f.keeps)

    unwritten :
        (a : ℕ)
        → (a < page) ⊎ (page + 104 ≤ a)
        → (a < old_func) ⊎ (old_func + 4 ≤ a)
        → (a < clear_bit0 func) ⊎ (clear_bit0 func + saved_length ≤ a)
        → w''.memory a ≡ w.memory a
    unwritten a outside_page outside_old out =
        un.outside a (at_target (length x.orig_instructions) (omega (arith, length_eq)) out)
        ∙ (ap (λ (m : Memory). m a) (freeze_keeps forks (some hooked_item) disable after).1
            ∙ world₂-unpatched func new_addr page old_func slot x w memory' threads f absent a
                outside_page outside_old (at_target (length (patch x)) jump_fits out))
      where
        at_target :
            (m : ℕ)
            → m ≤ saved_length
            → (a < clear_bit0 func) ⊎ (clear_bit0 func + saved_length ≤ a)
            → (a < clear_bit0 x.target_addr) ⊎ (clear_bit0 x.target_addr + m ≤ a)
        at_target m h (inl b) = inl (omega (arith, ap clear_bit0 f.target))
        at_target m h (inr b) = inr (omega (arith, ap clear_bit0 f.target))

        jump_fits : length (patch x) ≤ saved_length
        jump_fits =
            subst (λ t. length (patch x) ≤ (if test_bit0 t then 12 else 8)) f.target
              (length-patch x)

    memory :
        (a : ℕ)
        → (a < page) ⊎ (page + 104 ≤ a)
        → (a < old_func) ⊎ (old_func + 4 ≤ a)
        → w''.memory a ≡ w.memory a
    memory a outside_page outside_old = elim (dec_lt a (clear_bit0 func)) [
      | yes l ↦ unwritten a outside_page outside_old (inl l)
      | no m ↦ elim (dec_lt a (clear_bit0 func + saved_length)) [
        | no m' ↦ unwritten a outside_page outside_old (inr (omega arith))
        | yes l ↦
            let e : clear_bit0 func + (a - clear_bit0 func) ≡ a = omega arith in
            subst (λ b. w''.memory b ≡ w.memory b) e
              (read-injective w''.memory w.memory (clear_bit0 func) saved_length
                (a - clear_bit0 func) restored (omega arith))
      ]
    ]

    undone : IsUndone page old_func w w''
    undone = record {
      table = un.table;
      size = same_size;
      only = only;
      kept = kept;
      memory = memory;
    }

  call-IsUndone :
      (r : Run (Status × World))
      → UnHooks forks func after r
      → (w'' : World) × (r ≡ ok (Status.ok, w'')) × IsUndone page old_func w w''
  call-IsUndone _ (not_hooked none_hooked) = absurd (
      none_hooked w.info.size hooked_item
        (world₂-Used func new_addr page old_func slot x w memory' threads f absent n g) f.target
        refl)
  call-IsUndone _ (un_hooked pos y w'' u m s un) =
      let (at, is) = the_item pos y u m in
      (
        w'',
        refl,
        undone w'' (
            subst (λ (z : Item). IsUnhooked w.info.size z (freeze forks (some z) disable after) w'')
              is (subst (λ i. IsUnhooked i y (freeze forks (some y) disable after) w'') at un)),
      )

module _ (env : Engine) (func : ℕ) (to : Replacement) (w : World) where
  -- Under the hypotheses of `hook_at-IsInstalled`, registering and hooking a target and then
  -- unhooking it with `inlineUnHook` ends without a fault and with the status ok: the table is well
  -- formed and holds in its used slots what it held before, no more and no less, and every byte of
  -- memory is what it was, but for the first 104 of the trampoline's page and the four where its
  -- address is stored.
  pub inline_un_hook-hook_at :
      (n : ℕ)
      → is_executable_addr env.regions func ≡ true
      → is_executable_addr env.regions (env.new_func to) ≡ true
      → CanGrow (suc n) w
      → IsAbsent func w
      → (w' w'' : World) × (hook_at env func to w ≡ ok w')
        × (inline_un_hook env.forks func w' ≡ ok (Status.ok, w''))
        × IsUndone (env.page func) (env.old_func to) w w''
  inline_un_hook-hook_at n x x' g absent =
      let (slot, item, memory', threads, f, _, _, e) =
        hook_at-world₂ env func to w n x x' g absent in
      let w' =
        world₂ func (env.new_func to) (env.page func) (env.old_func to) slot item w memory' threads
          f absent in
      let table =
        (world₂-CanGrow func (env.new_func to) (env.page func) (env.old_func to) slot item w memory'
          threads f absent n g).table in
      let (w'', r, un) =
        call-IsUndone env.forks func (env.new_func to) (env.page func) (env.old_func to) slot item w
          memory' threads f absent n g _ (inline_un_hook-UnHooks env.forks func w' table) in
      (w', w'', e, r, un)
