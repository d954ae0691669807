-- ===== src/Inject/Inline/Both.antt =====
-- Calls of the two text functions once the hook of `dlopen` of inject_inlinehook.cpp has hooked
-- them.
use unity_game_localization.Prelude.{
  ℕ, ◌+◌, ◌≤◌, ◌<◌, ◌≡◌, ◌≢◌, sym, subst, ◌∙◌, true, List, [], ◌∷◌, map,
}
use unity_game_localization.Run.{ok}
use unity_game_localization.Relocate.Arm.Machine.{Instr, encode}
use unity_game_localization.Relocate.Arm.Refine.{IsPlaced}
use unity_game_localization.Relocate.Arm.Whole.{AllMove}
use unity_game_localization.InlineHook.World.{World, read32}
use unity_game_localization.Tools.Hex.{contains, find_module_by_name}
use unity_game_localization.Inject.Startup.{System, App, at_get, at_set, libil2cpp, lib_name}
use unity_game_localization.Inject.Inline.{Engine, hook_at, new_func_dlopen}
use unity_game_localization.Inject.Inline.Layout.{IsLaidOut}
use unity_game_localization.Inject.Inline.Calls.{IsDetoured}
use unity_game_localization.Inject.Inline.Kept.{IsOwn, hook_at-hook_at}
use unity_game_localization.Inject.Inline.Outcome.{IsOutside}
use unity_game_localization.Inject.Inline.Hooks.{AreHookable, AreHooked, new_func_dlopen-AreHooked}

-- Two functions in Arm mode, each with two instructions that can be moved, whose hooks do not
-- write to one another's bytes.
pub record AreDetourable (env : Engine) (get set : ℕ) (i j i' j' : Instr) (w : World) : Type 0 where
  pub get_laid : IsLaidOut get (env.page get) (env.old_func at_get) (env.new_func at_get)
  pub set_laid : IsLaidOut set (env.page set) (env.old_func at_set) (env.new_func at_set)
  pub get_stays :
      (a : ℕ)
      → IsOwn get (env.page get) (env.old_func at_get) a
      → IsOutside (env.page set) (env.old_func at_set) set a
  pub set_stays :
      (a : ℕ) → set ≤ a → a < set + 8 → IsOutside (env.page get) (env.old_func at_get) get a
  pub bounded : (a : ℕ) → w.memory a < 256
  pub get_moves : AllMove (i ∷ j ∷ [])
  pub set_moves : AllMove (i' ∷ j' ∷ [])
  pub get_here : IsPlaced (read32 w.memory) get (map encode (i ∷ j ∷ []))
  pub set_here : IsPlaced (read32 w.memory) set (map encode (i' ∷ j' ∷ []))

-- The globals and the table as in `AreHooked`, and both functions detoured in the memory that is
-- left: the get function with regard to the memory before, the set function with regard to the
-- memory with the hook on the get function.
pub record AreDetoured (n get set : ℕ) (env : Engine) (i j i' j' : Instr) (app app' : App World)
    : Type 0 where
  pub hooked : AreHooked n get set env app app'
  pub between : World
  pub get_hook : hook_at env get at_get app.code ≡ ok between
  pub get_detoured :
      IsDetoured get (env.old_func at_get) (env.new_func at_get) (i ∷ j ∷ []) app.code app'.code
  pub set_detoured :
      IsDetoured set (env.old_func at_set) (env.new_func at_set) (i' ∷ j' ∷ []) between app'.code

module _ (sys : System) (env : Engine) (n get set base caller_addr ret : ℕ) (filename : List ℕ)
    (app : App World) (wanted : contains libil2cpp filename ≡ true) (called : caller_addr ≢ 0)
    (there : find_module_by_name sys.maps lib_name ≡ ok base) (based : base ≢ 0)
    (i j i' j' : Instr) where
  -- Let `dlopen` be called for a file name with `libil2cpp` in it and by a caller other than NULL,
  -- and the library be found at a base other than 0. Let both offsets be known and lead to two
  -- different functions that no used item has, executable as are the two replacements, and let the
  -- table be well formed with room for both, as for `hook_at-IsInstalled`; let both functions and
  -- the places of their hooks be as in `hook_at-hook_at`. The hook of `dlopen` in
  -- inject_inlinehook.cpp then comes back without a fault. Both functions are hooked items that
  -- lead to their replacements, the globals note both addresses, every earlier item stays, and the
  -- table stays well formed with room for as many items less two. In the memory that is left both
  -- functions are detoured: a call of either goes to its replacement, and a call through its stored
  -- address reaches the state that the function reaches behind its first two instructions, run on
  -- the memory before its own hook.
  pub new_func_dlopen-AreDetoured :
      AreHookable n get set env (record app { libil2cpp_handle = ret; libil2cpp_base = base })
      → AreDetourable env get set i j i' j' app.code
      → (app' : App World) × (new_func_dlopen sys env filename caller_addr ret app ≡ ok app')
        × AreDetoured n get set env i j i' j' app app'
  new_func_dlopen-AreDetoured h d =
      let (app', e, hooked) =
        new_func_dlopen-AreHooked sys env n get set base caller_addr ret filename app wanted called
          there based h in
      let (w₁, first, second) = hooked.steps in
      let (w', w'', first', second', get_detoured, set_detoured) =
        hook_at-hook_at env get set at_get at_set app.code n h.get_hookable.reachable
          h.get_hookable.replaceable h.set_hookable.reachable h.set_hookable.replaceable h.growing
          h.get_hookable.absent h.set_hookable.absent h.apart d.get_laid d.set_laid d.get_stays
          d.set_stays d.bounded i j i' j' d.get_moves d.set_moves d.get_here d.set_here in
      let same₁ : w₁ ≡ w' = cc (sym first ∙ first') in
      let same : w'' ≡ app'.code = cc (sym second' ∙ (rw same₁ at second)) in
      (
        app',
        e,
        record {
          hooked = hooked;
          between = w';
          get_hook = first';
          get_detoured =
              subst
                (λ (w : World).
                  IsDetoured get (env.old_func at_get) (env.new_func at_get) (i ∷ j ∷ []) app.code
                    w)
                same get_detoured;
          set_detoured =
              subst
                (λ (w : World).
                  IsDetoured set (env.old_func at_set) (env.new_func at_set) (i' ∷ j' ∷ []) w' w)
                same set_detoured;
        },
      )
