-- ===== src/Inject/Inline.antt =====
-- inject_inlinehook.cpp: the same start as in inject_dobby.cpp (`Startup`), with the hooks of
-- inlineHook.c in place of Dobby's. `readFile` and `init_address_from_file` have the same text in
-- both files, and are modelled once. `Engine` holds what the linker and the system answer.
pub mod Outcome
pub mod Install
pub mod Layout
pub mod Calls
pub mod ThumbLayout
pub mod ThumbCalls
pub mod Resume
pub mod Undo
pub mod Both
pub mod Kept
pub mod Hooks
pub mod Load
mod Samples
mod Examples
mod CallExamples
mod ThumbExamples
use unity_game_localization.Prelude.{
  ℕ, ◌+◌, ◌-◌, ◌^◌, ◌==◌, ◌&&◌, not, if◌then◌else◌, Bool, true, false, List, Option, none, some,
}
use unity_game_localization.Prelude.Bits.{u32}
use unity_game_localization.Run.{Run, ok, fault, null_pointer, ◌>>=◌}
use unity_game_localization.Tools.Hex.{contains, find_module_by_name}
use unity_game_localization.InlineHook.World.{World}
use unity_game_localization.InlineHook.Operations.{Region, register_inline_hook, inline_hook}
use unity_game_localization.Inject.Startup.{
  System, Replacement, at_dlopen, at_get, at_set, at_get_methods, App, Method, lib_name, unity_ui,
  get_text, set_text, strcmp_equal, branch_target, read_file, init_address_from_file, libil2cpp,
  note_address,
}

pub record Engine : Type 0 where
  -- the regions of `/proc/self/maps`, and whether they are executable
  pub regions : List Region
  -- the page that `mmap` returns for the trampoline of a target
  pub page : (target_addr : ℕ) → ℕ
  -- the addresses of the functions that hooks lead to, and of the variables `old_func_..`
  pub new_func : Replacement → ℕ
  pub old_func : Replacement → ℕ
  -- whether the child process that stops the threads can be forked
  pub forks : Bool

-- `registerInlineHook` and `inlineHook`. The statuses are not looked at but for debug output.
unfoldable pub hook_at : Engine → (func : ℕ) → Replacement → World → Run World
hook_at env func to w = do
  (registered, w) ←
      register_inline_hook env.regions (env.page func) func (env.new_func to)
        (some (env.old_func to)) w
  (hooked, w) ← inline_hook env.forks func w
  ok w

module _ (sys : System) (env : Engine) where
  unfoldable pub hook_dlopen : App World → Run (App World)
  hook_dlopen app = do
    w ← hook_at env sys.dlopen at_dlopen app.code
    ok (record app { func_dlopen = sys.dlopen; func_dlsym = sys.dlsym; code = w })

  hook_get : App World → Run (App World)
  hook_get app =
      let func = u32 (app.libil2cpp_base + app.address_get) in
      let hooked =
        hook_at env func at_get app.code >>= (λ w. ok (record app { func_get = func; code = w })) in
      if app.address_get == 0 then ok app else hooked

  hook_set : App World → Run (App World)
  hook_set app =
      let func = u32 (app.libil2cpp_base + app.address_set) in
      let hooked =
        hook_at env func at_set app.code >>= (λ w. ok (record app { func_set = func; code = w })) in
      if app.address_set == 0 then ok app else hooked

  unfoldable pub hook_get_set : App World → Run (App World)
  unfolding hook_get hook_set
  hook_get_set app =
      let hooked = hook_get app >>= hook_set in if app.libil2cpp_base == 0 then ok app else hooked

  unfoldable pub hook_get_methods : App World → Run (App World)
  hook_get_methods app = elim (sys.class_get_methods app.libil2cpp_handle) [
    | none ↦ fault null_pointer
    | some func ↦ do
      w ← hook_at env (branch_target func (sys.load func)) at_get_methods app.code
      ok (record app { code = w })
  ]

  unfoldable pub hook_library : App World → Run (App World)
  unfolding hook_get_methods hook_get_set
  hook_library app =
      if (app.address_get == 0) && (app.address_set == 0)
      then hook_get_methods app
      else hook_get_set app

  -- Here `dlopen` is hooked in any case.
  unfoldable pub jni_on_load : App World → Run (App World)
  unfolding read_file init_address_from_file hook_dlopen
  jni_on_load app = do
    (app, found) ← read_file sys app
    elim found [ false ↦ ok app | true ↦ do app ← init_address_from_file app; hook_dlopen app ]

  unfoldable pub new_func_dlopen :
      (filename : List ℕ) (caller_addr ret : ℕ) → App World → Run (App World)
  unfolding hook_library
  new_func_dlopen filename caller_addr ret app =
      let found =
        find_module_by_name sys.maps lib_name
        >>= (λ base. hook_library (record app { libil2cpp_handle = ret; libil2cpp_base = base })) in
      if contains libil2cpp filename && not (caller_addr == 0) then found else ok app

  unfoldable pub new_func_get_methods : (ret : Option Method) → App World → Run (App World)
  unfolding hook_get_set
  new_func_get_methods none app = ok app
  new_func_get_methods (some ret) app =
      let noted = note_address ret app in
      let offsets = record noted {
        address_get = u32 (noted.address_get + 2 ^ 32 - noted.libil2cpp_base);
        address_set = u32 (noted.address_set + 2 ^ 32 - noted.libil2cpp_base);
      } in
      let hooked =
        hook_get_set offsets
        >>= (λ (app : App World). ok (record app { is_got_get_and_set = true })) in
      if strcmp_equal ret.namespace unity_ui
      then (if not (noted.address_get == 0)
            && not (noted.address_set == 0)
            && not noted.is_got_get_and_set
          then hooked
          else ok noted)
      else ok app
