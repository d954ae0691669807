-- ===== src/Inject/Examples.antt =====
-- The theorems on the start of the library at a small system. `DobbyHook` is taken to put the
-- address and the new function in front of a list.
use unity_game_localization.Prelude.{
  ℕ, ◌≡◌, ◌≤◌, refl, false, List, [], ◌∷◌, none, some, arith, length,
}
use unity_game_localization.Run.{ok}
use unity_game_localization.Tools.Hex.{find_module_by_name}
use unity_game_localization.Tools.Hex.Laws.{digits, digit}
use unity_game_localization.Localize.Dictionary.{lines}
use unity_game_localization.Localize.Dictionary.Format.{joined}
use unity_game_localization.Inject.Startup.{
  System, Replacement, at_get, at_set, App, Method, lib_name, unity_ui, get_text, set_text,
  strcmp_equal, branch_target, jni_on_load,
}
use unity_game_localization.Inject.Startup.Load.{address_line, jni_on_load-hooks}
use unity_game_localization.Inject.Startup.Methods.{
  branch_to, branch_target-branch_to, visit, Foreign, visit-hooks,
}

abbrev Code : Type 0
Code = List (ℕ × Replacement)

abbrev record_hook : ℕ → Replacement → Code → Code
record_hook addr to code = (addr, to) ∷ code

-- `100-2 r-xp libil2cpp.so`
abbrev map_line : List ℕ
map_line = 49 ∷ 48 ∷ 48 ∷ 45 ∷ 50 ∷ 32 ∷ 114 ∷ 45 ∷ 120 ∷ 112 ∷ 32 ∷ lib_name

abbrev system : System
system = record {
  package_name = some (97 ∷ 46 ∷ 98 ∷ []);
  readable = 4096;
  maps = (49 ∷ 45 ∷ 50 ∷ []) ∷ map_line ∷ [];
  dlopen = 0x1000;
  dlsym = 0x2000;
  class_get_methods = λ handle. none;
  load = λ a. 0;
}

-- The addresses `12` and `34`, and one entry `a|b`.
abbrev file_lines : List (List ℕ)
file_lines = (49 ∷ 50 ∷ 124 ∷ 51 ∷ 52 ∷ []) ∷ (97 ∷ 124 ∷ 98 ∷ []) ∷ []

abbrev app : App Code
app = record {
  func_dlopen = 0;
  func_dlsym = 0;
  func_set = 0;
  func_get = 0;
  address_get = 0;
  address_set = 0;
  buffer = [];
  file_size = 0;
  libil2cpp_base = 0;
  libil2cpp_handle = 0;
  is_got_get_and_set = false;
  file = some (joined file_lines);
  code = [];
}

file_fits : length (joined file_lines) ≤ 4096
unfolding joined
file_fits = ground arith

address_line-here : file_lines ≡ address_line 2 0x12 0x34 ∷ (97 ∷ 124 ∷ 98 ∷ []) ∷ []
unfolding digits digit
address_line-here = refl

find_module_by_name-here : find_module_by_name system.maps lib_name ≡ ok 0x100
unfolding find_module_by_name
find_module_by_name-here = refl

jni_on_load-hooks_example :
    (app' : App Code) × (jni_on_load system record_hook app ≡ ok app')
    × (app'.code ≡ (0x134, at_set) ∷ (0x112, at_get) ∷ [])
    × (app'.file ≡ none)
    × (lines app'.buffer ≡ file_lines)
jni_on_load-hooks_example =
    jni_on_load-hooks system record_hook app (97 ∷ 46 ∷ 98 ∷ []) file_lines (refl, omega arith) refl
      file_fits 2 0x12 0x34 0x100 ((97 ∷ 124 ∷ 98 ∷ []) ∷ []) address_line-here (ground arith)
      (omega arith) (ground arith) find_module_by_name-here (ground arith) (omega arith)

branch_target-branch_to_example : branch_target 0x8000 (branch_to 0x8000 0x4000) ≡ 0x4000
branch_target-branch_to_example =
    branch_target-branch_to 0x8000 0x4000 refl refl (ground arith) (ground arith)

abbrev loaded : App Code
loaded = record app { libil2cpp_base = 0x100 }

abbrev other : Method
other = record { pointer = 0x500; name = get_text; namespace = 65 ∷ [] }

other-Foreign : Foreign (other ∷ [])
unfolding strcmp_equal
other-Foreign = (refl, tt)

visit-hooks_example :
    (visit system record_hook
      (record { pointer = 0x700; name = get_text; namespace = unity_ui }
        ∷ other
        ∷ record { pointer = 0x800; name = set_text; namespace = unity_ui }
        ∷ record { pointer = 0x900; name = set_text; namespace = unity_ui }
        ∷ [])
      loaded).code
    ≡ (0x800, at_set) ∷ (0x700, at_get) ∷ []
visit-hooks_example =
    visit-hooks system record_hook loaded 0x700 0x800 (refl, refl) (omega arith) (ground arith)
      (ground arith) [] (other ∷ [])
      (record { pointer = 0x900; name = set_text; namespace = unity_ui } ∷ []) tt other-Foreign
