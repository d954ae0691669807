-- ===== src/Inject/Experiment/Dobby.antt =====
-- inject_test_dobby.cpp, where `DobbyHook` is a parameter that works on the process's code.
use unity_game_localization.Prelude.{ℕ, ◌+◌, ◌==◌, ◌&&◌, not, if◌then◌else◌, List}
use unity_game_localization.Prelude.Bits.{u32}
use unity_game_localization.Run.{Run, ok, ◌>>=◌}
use unity_game_localization.Tools.Hex.{contains, find_module_by_name}
use unity_game_localization.Tools.Rate.{Times, Rates, show_sa}
use unity_game_localization.Inject.Startup.{lib_name, libil2cpp}
use unity_game_localization.Inject.Experiment.{
  Entry, at_dlopen, at_y_6, at_y_5, at_y_4, at_y_3, at_y_2, at_y_1, Bench, Host, lib_kjihgf,
  note_dlopen, Answer, call_old,
}

module _ {Code : Type 0} (host : Host) (dobby_hook : (addr : ℕ) → Entry → Code → Code) where
  unfoldable pub hook_y : (func : ℕ) → Entry → Bench Code → Bench Code
  hook_y func to b = if func == b.base then b else record b { code = dobby_hook func to b.code }

  -- The functions 3 and 2 have the same offset.
  unfoldable pub hook : Bench Code → Bench Code
  unfolding hook_y
  hook b =
      let b = record b {
        func_y_6 = u32 (b.base + 0x0);
        func_y_5 = u32 (b.base + 0x676800);
        func_y_4 = u32 (b.base + 0x678654);
        func_y_3 = u32 (b.base + 0x500784);
        func_y_2 = u32 (b.base + 0x500784);
        func_y_1 = u32 (b.base + 0x86D9F8);
      } in
      let b = hook_y b.func_y_6 at_y_6 b in
      let b = hook_y b.func_y_5 at_y_5 b in
      let b = hook_y b.func_y_4 at_y_4 b in
      let b = hook_y b.func_y_3 at_y_3 b in
      let b = hook_y b.func_y_2 at_y_2 b in hook_y b.func_y_1 at_y_1 b

  unfoldable pub jni_on_load : Bench Code → Run (Bench Code)
  unfolding hook note_dlopen
  jni_on_load b = do
    base ← find_module_by_name host.maps lib_kjihgf
    let b = record (note_dlopen host b) { base = base }
    let waiting = record b { code = dobby_hook b.func_dlopen at_dlopen b.code }
    ok (if base == 0 then waiting else hook b)

  unfoldable pub new_func_dlopen :
      (filename : List ℕ) (caller_addr : ℕ) → Bench Code → Run (Bench Code)
  unfolding hook
  new_func_dlopen filename caller_addr b =
      let found =
        find_module_by_name host.maps lib_name >>= (λ base. ok (hook (record b { base = base }))) in
      if contains libil2cpp filename && not (caller_addr == 0) then found else ok b

-- The replacements in inject_test_dobby.cpp. The sixth calls the old function before it shows
-- something, the others behind it.
unfoldable pub new_func_y : Entry → Times → Rates → Rates × Answer
unfolding show_sa
new_func_y at_dlopen t s = (s, call_old)
new_func_y _ t s = ((show_sa t s).0, call_old)
