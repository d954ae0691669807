-- ===== src/Inject/Inline/Kept.antt =====
-- Two functions that are hooked one after the other: the first one's patch, stored address and
-- trampoline stay, so that both are detoured.
use unity_game_localization.InlineHook.Operations.Bytes.{IsPlaced-agree, write-bounded_words}
use unity_game_localization.Inject.Inline.Calls.{hook_at-IsDetoured}
use unity_game_localization.Inject.Inline.Layout.{after}
use unity_game_localization.Prelude.{
  ℕ, suc, ◌+◌, ◌*◌, ◌<◌, ◌≤◌, ◌≡◌, ◌≢◌, inl, inr, length, refl, sym, ap, ◌∙◌, true, List, [], ◌∷◌,
  map, some, arith,
}
use unity_game_localization.Run.{ok}
use unity_game_localization.Relocate.Arm.Machine.{Instr, encode}
use unity_game_localization.Relocate.Arm.Words.{jumped}
use unity_game_localization.Relocate.Arm.Refine.{IsPlaced, run-jumped}
use unity_game_localization.Relocate.Arm.Whole.{AllMove}
use unity_game_localization.Relocate.Arm.Trampoline.{
  trampoline_of, relocate_instruction_in_arm-Steps,
}
use unity_game_localization.InlineHook.World.{Item, Thread, Memory, World, read32}
use unity_game_localization.InlineHook.Operations.{is_executable_addr}
use unity_game_localization.InlineHook.Operations.Fill.{Fills}
use unity_game_localization.InlineHook.Operations.Absent.{IsAbsent, CanGrow}
use unity_game_localization.Inject.Startup.{Replacement}
use unity_game_localization.Inject.Inline.{Engine, hook_at}
use unity_game_localization.Inject.Inline.Install.{hook_at-world₂}
use unity_game_localization.Inject.Inline.Layout.{
  IsLaidOut, in_arm, memory₃, relocates, memory_eq, placed_proto, IsPlaced-jump, emitted_words,
  shape,
}
use unity_game_localization.Inject.Inline.Calls.{IsDetoured, trampoline_of-IsPlaced, reaches_end}
use unity_game_localization.Inject.Inline.Outcome.{
  IsOutside, world₂, world₂-CanGrow, func-IsInstalled,
}
use unity_game_localization.Inject.Inline.Install.{hook_at-IsInstalled}

-- The bytes that belong to a hook in Arm mode.
pub data IsOwn (func page old_func a : ℕ) : Type 0 where
  in_page : page ≤ a → a < page + 104 → IsOwn func page old_func a
  in_old : old_func ≤ a → a < old_func + 4 → IsOwn func page old_func a
  in_func : func ≤ a → a < func + 8 → IsOwn func page old_func a

module _ (func page old_func new_addr : ℕ) (l : IsLaidOut func page old_func new_addr) (i j : Instr)
    (moves : AllMove (i ∷ j ∷ [])) (slot x : Item) (w : World) (memory' : Memory)
    (threads : List Thread) (f : Fills page func new_addr (some old_func) slot w.memory x memory')
    (absent : IsAbsent func w) (bounded : (a : ℕ) → w.memory a < 256)
    (here : IsPlaced (read32 w.memory) func (map encode (i ∷ j ∷ []))) where
  abbrev is : List Instr
  is = i ∷ j ∷ []

  abbrev hooked_memory : Memory
  hooked_memory =
      memory₃ func page old_func new_addr l i j moves slot x w memory' threads f absent bounded here

  hooked-bounded :
      (a : ℕ)
      → (after func page old_func new_addr l i j moves slot x w memory' threads f absent bounded
            here).memory
          a
        < 256
  hooked-bounded a =
      rw
        (memory_eq func page old_func new_addr l i j moves slot x w memory' threads f absent bounded
          here)
        (write-bounded_words _ _ _ (write-bounded_words _ _ _ (write-bounded_words _ _ _ bounded))
          a)

  module _ (v : World)
      (same : (a : ℕ) → IsOwn func page old_func a → v.memory a ≡ hooked_memory a) where
    jump-kept : IsPlaced (read32 v.memory) func (jumped new_addr)
    jump-kept =
        IsPlaced-agree hooked_memory v.memory func 8 (jumped new_addr) (omega arith)
          (λ a m n. same a (in_func m n))
          (IsPlaced-jump func page old_func new_addr l i j moves slot x w memory' threads f absent
            bounded here)

    proto-kept : read32 v.memory old_func ≡ page
    proto-kept =
        let e =
          placed_proto func page old_func new_addr l i j moves slot x w memory' threads f absent
            bounded here in
        omega (
          arith,
          e,
          same old_func (in_old (omega arith) (omega arith)),
          same (old_func + 1) (in_old (omega arith) (omega arith)),
          same (old_func + 2) (in_old (omega arith) (omega arith)),
          same (old_func + 3) (in_old (omega arith) (omega arith)),
        )

    trampoline-kept : IsPlaced (read32 v.memory) page (
        trampoline_of (
          in_arm func page old_func new_addr l i j moves slot x w memory' threads f absent bounded
            here))
    unfolding trampoline_of
    trampoline-kept =
        let few : 4
              * length (
                  trampoline_of (
                    in_arm func page old_func new_addr l i j moves slot x w memory' threads f absent
                      bounded here))
            ≤ 104 =
          let e : trampoline_of (
                in_arm func page old_func new_addr l i j moves slot x w memory' threads f absent
                  bounded here)
              ≡ emitted_words func page old_func new_addr l i j moves slot x w memory' threads f
                  absent bounded here =
            ap trampoline_of (
              relocates func page old_func new_addr l i j moves slot x w memory' threads f absent
                bounded here) in
          omega (
            arith,
            ap (λ (ws : List ℕ). length ws) e,
            (shape func page old_func new_addr l i j moves slot x w memory' threads f absent bounded
                here).1,
          ) in
        IsPlaced-agree hooked_memory v.memory page 104
          (trampoline_of (
            in_arm func page old_func new_addr l i j moves slot x w memory' threads f absent bounded
              here))
          few (λ a m n. same a (in_page m n))
          (trampoline_of-IsPlaced func page old_func new_addr l i j moves slot x w memory' threads f
            absent bounded here)

    kept-IsDetoured : IsDetoured func old_func new_addr is w v
    kept-IsDetoured = record {
      replaced = λ c t.
          run-jumped (read32 v.memory) func (l.func_aligned, l.func_low) new_addr 0 func c
            (omega (arith, l.func_low)) t
            (ap (read32 v.memory) (let e : func ≡ func + 4 * 0 = omega arith in e)
              ∙ jump-kept 0 _ refl)
            (jump-kept 1 new_addr refl);
      unhooked = λ c t.
          (reaches_end func page old_func new_addr l i j moves slot x w memory' threads f absent
            bounded here c t).0;
      original = λ c t.
          let (r, e, first, second) =
            relocate_instruction_in_arm-Steps (read32 w.memory) (read32 v.memory) is func page
              slot.boundaries c moves t (l.func_aligned, l.page_aligned)
              (omega (arith, l.func_low), omega (arith, l.page_low)) (omega (arith, f.spare)) here
              trampoline-kept in
          rw proto-kept second;
    }

module _ (env : Engine) (func func' : ℕ) (to to' : Replacement) (w : World) where
  -- Take two different functions as in `hook_at-IsDetoured`, the table with room for both, neither
  -- of them the target of a used item. Let the bytes that the first hook uses (104 of its page,
  -- four of its variable, eight at the function) be outside of those that the second one may write
  -- (104 of its page, four of its variable, 12 at its target), and the second function's two
  -- instructions outside of those that the first one may write. Hooking one function and then the
  -- other ends without a fault, and in the final memory both are detoured: a call of either goes to
  -- its new function, and a call through its stored address reaches the state that the function
  -- reaches behind its first two instructions, run on the memory before its own hook.
  pub hook_at-hook_at :
      (n : ℕ)
      → is_executable_addr env.regions func ≡ true
      → is_executable_addr env.regions (env.new_func to) ≡ true
      → is_executable_addr env.regions func' ≡ true
      → is_executable_addr env.regions (env.new_func to') ≡ true
      → CanGrow (suc (suc n)) w
      → IsAbsent func w
      → IsAbsent func' w
      → func ≢ func'
      → IsLaidOut func (env.page func) (env.old_func to) (env.new_func to)
      → IsLaidOut func' (env.page func') (env.old_func to') (env.new_func to')
      → ((a : ℕ)
          → IsOwn func (env.page func) (env.old_func to) a
          → IsOutside (env.page func') (env.old_func to') func' a)
      → ((a : ℕ) → func' ≤ a → a < func' + 8 → IsOutside (env.page func) (env.old_func to) func a)
      → ((a : ℕ) → w.memory a < 256)
      → (i j i' j' : Instr) → AllMove (i ∷ j ∷ [])
      → AllMove (i' ∷ j' ∷ [])
      → IsPlaced (read32 w.memory) func (map encode (i ∷ j ∷ []))
      → IsPlaced (read32 w.memory) func' (map encode (i' ∷ j' ∷ []))
      → (w' w'' : World) × (hook_at env func to w ≡ ok w')
        × (hook_at env func' to' w' ≡ ok w'')
        × IsDetoured func (env.old_func to) (env.new_func to) (i ∷ j ∷ []) w w''
        × IsDetoured func' (env.old_func to') (env.new_func to') (i' ∷ j' ∷ []) w' w''
  hook_at-hook_at n x x' y y' g absent absent' apart l l' far far' bounded i j i' j' moves moves'
        here here' =
      let (slot, item, memory', threads, f, _, _, e) =
        hook_at-world₂ env func to w (suc n) x x' g absent in
      let page = env.page func in
      let old_func = env.old_func to in
      let new_addr = env.new_func to in
      let w' : World = world₂ func new_addr page old_func slot item w memory' threads f absent in
      let stays =
        memory_eq func page old_func new_addr l i j moves slot item w memory' threads f absent
          bounded here in
      let grown =
        world₂-CanGrow func new_addr page old_func slot item w memory' threads f absent (suc n) g in
      let installed =
        func-IsInstalled func new_addr page old_func slot item w memory' threads f absent (suc n)
          g in
      let still_absent : IsAbsent func' w' = λ k z u m. elim (installed.only k z u) [
        | inl t ↦ apart (sym t ∙ m)
        | inr old ↦ absent' k z old m
      ] in
      let still_here =
        IsPlaced-agree w.memory w'.memory func' 8 (map encode (i' ∷ j' ∷ [])) (omega arith)
          (λ a m k. installed.untouched a (far' a m k)) here' in
      let still_bounded : (a : ℕ) → w'.memory a < 256 =
        hooked-bounded func page old_func new_addr l i j moves slot item w memory' threads f absent
          bounded here in
      let (w'', e', detoured) =
        hook_at-IsDetoured env func' to' w' n y y' grown still_absent l' still_bounded i' j' moves'
          still_here in
      let (v, e'', _, second) = hook_at-IsInstalled env func' to' w' n y y' grown still_absent in
      let same : v ≡ w'' = cc (sym e'' ∙ e') in
      (
        w',
        w'',
        e,
        e',
        kept-IsDetoured func page old_func new_addr l i j moves slot item w memory' threads f absent
            bounded here w''
            (λ a own.
              ap (λ (u : World). u.memory a) (sym same)
              ∙ second.untouched a (far a own)
              ∙ ap (λ (m : Memory). m a) stays),
        detoured,
      )
