-- ===== src/Inject/Inline/Hooks.antt =====
-- The hooks that inject_inlinehook.cpp sets once libil2cpp.so is loaded.
use unity_game_localization.Prelude.{
  ℕ, suc, ◌+◌, ◌≡◌, ◌≢◌, refl, sym, inl, inr, true, List, ==_of_ne, ◌∙◌, ◌==◌, ◌&&◌, if◌then◌else◌,
  ap,
}
use unity_game_localization.Prelude.Bits.{u32}
use unity_game_localization.Run.{ok, ◌>>=◌}
use unity_game_localization.InlineHook.World.{Item, World}
use unity_game_localization.InlineHook.Items.Laws.{Used}
use unity_game_localization.InlineHook.Operations.{is_executable_addr}
use unity_game_localization.InlineHook.Operations.Absent.{IsAbsent, CanGrow}
use unity_game_localization.Tools.Hex.{contains, find_module_by_name}
use unity_game_localization.Inject.Startup.{
  System, App, Replacement, at_get, at_set, libil2cpp, lib_name,
}
use unity_game_localization.Inject.Inline.{
  Engine, hook_at, hook_get, hook_set, hook_get_set, hook_get_methods, hook_library,
  new_func_dlopen,
}
use unity_game_localization.Inject.Inline.Install.{hook_at-IsInstalled}
use unity_game_localization.Inject.Inline.Outcome.{IsHooked, IsInstalled}

-- What `hook_at` needs of a function and of the one that the hook leads to.
pub record IsHookable (env : Engine) (func : ℕ) (to : Replacement) (w : World) : Type 0 where
  pub reachable : is_executable_addr env.regions func ≡ true
  pub replaceable : is_executable_addr env.regions (env.new_func to) ≡ true
  pub absent : IsAbsent func w

-- A hooked function stays hooked when another hook is set.
kept-IsHooked :
    (func new_addr : ℕ) (w w' : World)
    → ((i : ℕ) (x : Item) → Used w.info i x → Used w'.info i x)
    → IsHooked func new_addr w
    → IsHooked func new_addr w'
kept-IsHooked func new_addr w w' kept h = record {
  pos = h.pos;
  item = h.item;
  used = kept h.pos h.item h.used;
  target = h.target;
  leads = h.leads;
  done = h.done;
}

module _ (env : Engine) (get set : ℕ) (w : World) where
  -- Two functions that are not hooked yet, hooked one after the other.
  hook_both :
      (n : ℕ)
      → get ≢ set
      → CanGrow (suc (suc n)) w
      → IsHookable env get at_get w
      → IsHookable env set at_set w
      → (w₁ w₂ : World) × (hook_at env get at_get w ≡ ok w₁)
        × (hook_at env set at_set w₁ ≡ ok w₂)
        × CanGrow n w₂
        × IsHooked get (env.new_func at_get) w₂
        × IsHooked set (env.new_func at_set) w₂
        × ((i : ℕ) (x : Item) → Used w.info i x → Used w₂.info i x)
  hook_both n ne g a b =
      let (w₁, e, g₁, d) =
        hook_at-IsInstalled env get at_get w (suc n) a.reachable a.replaceable g a.absent in
      let (w₂, e', g₂, d') =
        hook_at-IsInstalled env set at_set w₁ n b.reachable b.replaceable g₁ (still_absent w₁ d) in
      (
        w₁,
        w₂,
        e,
        e',
        g₂,
        kept-IsHooked get (env.new_func at_get) w₁ w₂ d'.kept d.hooks,
        d'.hooks,
        λ i x u. d'.kept i x (d.kept i x u),
      )
    where
      still_absent :
          (w₁ : World)
          → IsInstalled get (env.new_func at_get) (env.page get) (env.old_func at_get) w w₁
          → IsAbsent set w₁
      still_absent w₁ d i x u = elim (d.only i x u) [
        | inl at ↦ λ e. ne (sym at ∙ e)
        | inr old ↦ b.absent i x old
      ]

-- The hooks on both functions, at offsets from the library's base.
pub record AreHooked (n get set : ℕ) (env : Engine) (app app' : App World) : Type 0 where
  pub get_hooked : IsHooked get (env.new_func at_get) app'.code
  pub set_hooked : IsHooked set (env.new_func at_set) app'.code
  -- where the replacements find the hooked functions
  pub noted : (app'.func_get ≡ get) × (app'.func_set ≡ set)
  pub growing : CanGrow n app'.code
  -- the hooks, one after the other
  pub steps :
      (w : World) × (hook_at env get at_get app.code ≡ ok w)
      × (hook_at env set at_set w ≡ ok app'.code)
  pub kept : (i : ℕ) (x : Item) → Used app.code.info i x → Used app'.code.info i x

-- What the hooks need: both offsets and the base are known, and both functions are hookable.
pub record AreHookable (n get set : ℕ) (env : Engine) (app : App World) : Type 0 where
  pub get_known : app.address_get ≢ 0
  pub set_known : app.address_set ≢ 0
  pub get_at : u32 (app.libil2cpp_base + app.address_get) ≡ get
  pub set_at : u32 (app.libil2cpp_base + app.address_set) ≡ set
  pub apart : get ≢ set
  pub growing : CanGrow (suc (suc n)) app.code
  pub get_hookable : IsHookable env get at_get app.code
  pub set_hookable : IsHookable env set at_set app.code

module _ (sys : System) (env : Engine) (n get set : ℕ) (app : App World)
    (loaded : app.libil2cpp_base ≢ 0) (h : AreHookable n get set env app) where
  pub hook_get_set-AreHooked :
      (app' : App World) × (hook_get_set sys env app ≡ ok app') × AreHooked n get set env app app'
  unfolding hook_get_set hook_get hook_set
  hook_get_set-AreHooked =
      let (w₁, w₂, e, e', g, a, b, k) =
        hook_both env get set app.code n h.apart h.growing h.get_hookable h.set_hookable in
      (
        record app { func_get = get; func_set = set; code = w₂ },
        rw (==_of_ne _ _ loaded, ==_of_ne _ _ h.get_known, h.get_at)
            (rw (e, ◌>>=◌) (rw (==_of_ne _ _ h.set_known, h.set_at) (rw (e', ◌>>=◌) refl))),
        record {
          get_hooked = a;
          set_hooked = b;
          noted = (refl, refl);
          growing = g;
          steps = (w₁, e, e');
          kept = k;
        },
      )

-- With the offset of the get function the library's own functions are hooked.
hook_library_known :
    (sys : System) (env : Engine) (app : App World)
    → app.address_get ≢ 0
    → hook_library sys env app ≡ hook_get_set sys env app
unfolding hook_library
hook_library_known sys env app known =
    ap
      (λ b.
        if b && (app.address_set == 0)
        then hook_get_methods sys env app
        else hook_get_set sys env app)
      (==_of_ne app.address_get 0 known)

-- A call of `dlopen` for the game's library, when both offsets are known.
module _ (sys : System) (env : Engine) (n get set base caller_addr ret : ℕ) (filename : List ℕ)
    (app : App World) (wanted : contains libil2cpp filename ≡ true) (called : caller_addr ≢ 0)
    (there : find_module_by_name sys.maps lib_name ≡ ok base) (based : base ≢ 0) where
  -- the globals when the hooks are set
  abbrev pub based_app : App World
  based_app = record app { libil2cpp_handle = ret; libil2cpp_base = base }

  -- What the hook of `dlopen` leaves in the table and the globals.
  pub new_func_dlopen-AreHooked :
      AreHookable n get set env (record app { libil2cpp_handle = ret; libil2cpp_base = base })
      → (app' : App World) × (new_func_dlopen sys env filename caller_addr ret app ≡ ok app')
        × AreHooked n get set env app app'
  unfolding new_func_dlopen
  new_func_dlopen-AreHooked h =
      let (app', e, d) = hook_get_set-AreHooked sys env n get set based_app based h in
      (
        app',
        rw (wanted, ==_of_ne caller_addr 0 called)
            (rw (there, ◌>>=◌) (hook_library_known sys env based_app h.get_known ∙ e)),
        record {
          get_hooked = d.get_hooked;
          set_hooked = d.set_hooked;
          noted = d.noted;
          growing = d.growing;
          steps = d.steps;
          kept = d.kept;
        },
      )
