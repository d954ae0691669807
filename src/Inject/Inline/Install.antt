-- ===== src/Inject/Inline/Install.antt =====
-- One hook of inject_inlinehook.cpp: `registerInlineHook` and `inlineHook`, one after the other.
use unity_game_localization.Prelude.{
  ℕ, suc, ◌+◌, ◌≡◌, refl, subst, ap, true, List, some, set, get_elem?,
}
use unity_game_localization.Run.{ok, ◌>>=◌}
use unity_game_localization.InlineHook.World.{Status, Item, Thread, Memory, World}
use unity_game_localization.InlineHook.Threads.{freeze, enable}
use unity_game_localization.InlineHook.Operations.{is_executable_addr, do_inline_hook, inline_hook}
use unity_game_localization.InlineHook.Operations.Fill.{Fills}
use unity_game_localization.InlineHook.Operations.Absent.{
  IsAbsent, CanGrow, register_inline_hook-absent, inline_hook-Used,
}
use unity_game_localization.Inject.Startup.{Replacement}
use unity_game_localization.Inject.Inline.{Engine, hook_at}
use unity_game_localization.Inject.Inline.Outcome.{
  IsInstalled, extended_info, world₂, freeze-threads, extended-IsTable, extended-Used,
  world₂-CanGrow, func-IsInstalled,
}

module _ (env : Engine) (func : ℕ) (to : Replacement) (w : World) where
  -- The world that `hook_at` leaves.
  pub hook_at-world₂ :
      (n : ℕ)
      → is_executable_addr env.regions func ≡ true
      → is_executable_addr env.regions (env.new_func to) ≡ true
      → CanGrow (suc n) w
      → (absent : IsAbsent func w)
      → (slot x : Item) × (memory' : Memory) × (threads : List Thread) × (f : Fills
          (env.page func)
          func
          (env.new_func to)
          (some (env.old_func to))
          slot
          w.memory
          x
          memory')
        × (get_elem? w.info.item w.info.size ≡ some slot)
        × (threads
            ≡ (freeze env.forks (some x) enable (record w {
              info =
                  extended_info func
                    (env.new_func to)
                    (env.page func)
                    (env.old_func to)
                    slot
                    x
                    w
                    memory'
                    w.threads
                    f
                    absent;
              memory = memory';
            })).threads)
        × (hook_at env func to w
            ≡ ok (
                world₂ func
                  (env.new_func to)
                  (env.page func)
                  (env.old_func to)
                  slot
                  x
                  w
                  memory'
                  threads
                  f
                  absent))
  unfolding hook_at
  hook_at-world₂ n x x' g absent =
      let (slot, item, memory', f, at, e) =
        register_inline_hook-absent env.regions (env.page func) func (env.new_func to)
          (some (env.old_func to)) (x, x') n w g absent in
      let w₁ : World = record w {
        info = record { item = set w.info.item w.info.size item; size = w.info.size + 1 };
        memory = memory';
      } in
      let frozen = freeze env.forks (some item) enable w₁ in
      let hooks =
        inline_hook-Used env.forks w.info.size item w₁
          (extended-IsTable func (env.new_func to) (env.page func) (env.old_func to) slot item w
            memory' frozen.threads f absent n g)
          (extended-Used func (env.new_func to) (env.page func) (env.old_func to) slot item w
            memory' frozen.threads f absent n g)
          f.waiting in
      let at_func =
        subst
          (λ (t : ℕ).
            inline_hook env.forks t w₁ ≡ ok (Status.ok, do_inline_hook w.info.size item frozen))
          f.target hooks in
      (
        slot,
        item,
        memory',
        frozen.threads,
        f,
        at,
        refl,
        rw (e, ◌>>=◌)
            (rw (at_func, ◌>>=◌)
              (ap (λ (v : World). ok (do_inline_hook w.info.size item v))
                (freeze-threads env.forks (some item) enable w₁))),
      )

  -- Let the table be well formed with room for another item, the boundaries that its unused slots
  -- still count leave room for six more of the 20, no used item have the target, and the target and
  -- the new function be executable. Registering and hooking the target then ends without a fault:
  -- the target is a hooked item of the table that leads to the new function, the bytes at the
  -- target are the jump, every earlier item stays and no other one is new, and no byte is written
  -- outside the first 104 of the trampoline's page, the four where its address is stored, and the
  -- 12 at the target; the table stays well formed, with room for as many items less one.
  pub hook_at-IsInstalled :
      (n : ℕ)
      → is_executable_addr env.regions func ≡ true
      → is_executable_addr env.regions (env.new_func to) ≡ true
      → CanGrow (suc n) w
      → IsAbsent func w
      → (w' : World) × (hook_at env func to w ≡ ok w')
        × CanGrow n w'
        × IsInstalled func (env.new_func to) (env.page func) (env.old_func to) w w'
  hook_at-IsInstalled n x x' g absent =
      let (slot, item, memory', threads, f, _, _, e) = hook_at-world₂ n x x' g absent in
      (
        world₂ func (env.new_func to) (env.page func) (env.old_func to) slot item w memory' threads
            f absent,
        e,
        world₂-CanGrow func (env.new_func to) (env.page func) (env.old_func to) slot item w memory'
            threads f absent n g,
        func-IsInstalled func (env.new_func to) (env.page func) (env.old_func to) slot item w
            memory' threads f absent n g,
      )
