-- ===== src/Inject/Experiment/Tests.antt =====
-- Runs of inject_test_dobby.cpp, where `DobbyHook` puts the address and the new function in front
-- of a list.
use unity_game_localization.Prelude.{ℕ, ◌≡◌, refl, false, List, [], ◌∷◌}
use unity_game_localization.Run.{Run, ok}
use unity_game_localization.Tools.Hex.{find_module_by_name}
use unity_game_localization.Inject.Experiment.{
  Entry, at_dlopen, at_y_5, at_y_4, at_y_3, at_y_2, at_y_1, Bench, Host, lib_kjihgf, note_dlopen,
}
use unity_game_localization.Inject.Experiment.Dobby.{hook_y, hook, jni_on_load}

abbrev Code : Type 0
Code = List (ℕ × Entry)

abbrev record_hook : ℕ → Entry → Code → Code
record_hook addr to code = (addr, to) ∷ code

abbrev host : List (List ℕ) → Host
host maps = record {
  maps = maps;
  dlopen = 0x3000;
  dlsym = 0x4000;
  regions = [];
  page = λ t. 0;
  new_func = λ e. 0;
  old_func = λ e. 0;
  forks = false;
}

abbrev bench : Bench Code
bench = record {
  func_dlopen = 0;
  func_dlsym = 0;
  func_y_6 = 0;
  func_y_5 = 0;
  func_y_4 = 0;
  func_y_3 = 0;
  func_y_2 = 0;
  func_y_1 = 0;
  base = 0;
  code = [];
}

abbrev code_of : Run (Bench Code) → Code
code_of (ok b) = b.code
code_of _ = []

-- `1000-2 r-xp libKJIHGF`
abbrev map_line : List ℕ
map_line = 49 ∷ 48 ∷ 48 ∷ 48 ∷ 45 ∷ 50 ∷ 32 ∷ 114 ∷ 45 ∷ 120 ∷ 112 ∷ 32 ∷ lib_kjihgf

jni_on_load-waiting : code_of (jni_on_load (host []) record_hook bench) ≡ (0x3000, at_dlopen) ∷ []
unfolding jni_on_load find_module_by_name note_dlopen
jni_on_load-waiting = refl

jni_on_load-loaded :
    code_of (jni_on_load (host (map_line ∷ [])) record_hook bench)
    ≡ (0x86E9F8, at_y_1)
      ∷ (0x501784, at_y_2)
      ∷ (0x501784, at_y_3)
      ∷ (0x679654, at_y_4)
      ∷ (0x677800, at_y_5)
      ∷ []
unfolding jni_on_load find_module_by_name note_dlopen hook hook_y
jni_on_load-loaded = refl
