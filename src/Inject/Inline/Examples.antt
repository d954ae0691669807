-- ===== src/Inject/Inline/Examples.antt =====
-- The theorems on inject_inlinehook.cpp at an empty table, a small system and a small map.
use unity_game_localization.Prelude.{inl, inr, ◌%◌}
use unity_game_localization.Relocate.Arm.Machine.{plain, load_up}
use unity_game_localization.Inject.Inline.Outcome.{IsOutside}
use unity_game_localization.Inject.Inline.Layout.{IsLaidOut}
use unity_game_localization.Inject.Inline.Kept.{IsOwn, in_page, in_old, in_func}
use unity_game_localization.Inject.Inline.Both.{AreDetoured, new_func_dlopen-AreDetoured}
use unity_game_localization.Inject.Inline.CallExamples.{
  prologues_world, prologues_world-CanGrow, first-IsPlaced, second-IsPlaced,
  prologues_memory-bounded, prologue-AllMove,
}
use unity_game_localization.Prelude.{
  ℕ, ◌<◌, ◌≡◌, refl, true, false, List, [], ◌∷◌, none, some, arith,
}
use unity_game_localization.Run.{ok}
use unity_game_localization.Tools.Hex.{contains, find_module_by_name}
use unity_game_localization.Localize.Dictionary.Format.{joined}
use unity_game_localization.InlineHook.World.{World}
use unity_game_localization.InlineHook.Operations.{is_executable_addr}
use unity_game_localization.InlineHook.Operations.Absent.{CanGrow}
use unity_game_localization.Inject.Startup.{
  System, Replacement, at_dlopen, at_get, at_set, App, lib_name, libil2cpp,
}
use unity_game_localization.Inject.Inline.{hook_at, jni_on_load, new_func_dlopen}
use unity_game_localization.Inject.Inline.Install.{hook_at-IsInstalled}
use unity_game_localization.Inject.Inline.Outcome.{IsInstalled}
use unity_game_localization.Inject.Inline.Hooks.{IsHookable}
use unity_game_localization.Inject.Inline.Load.{Starts, jni_on_load-Starts}
use unity_game_localization.Inject.Inline.Samples.{
  world, world-CanGrow, world-IsAbsent, new_func, engine, reachable,
}

-- `1000-2 r-xp libil2cpp.so`
abbrev map_line : List ℕ
map_line = 49 ∷ 48 ∷ 48 ∷ 48 ∷ 45 ∷ 50 ∷ 32 ∷ 114 ∷ 45 ∷ 120 ∷ 112 ∷ 32 ∷ lib_name

abbrev system : System
system = record {
  package_name = some (97 ∷ 46 ∷ 98 ∷ []);
  readable = 4096;
  maps = map_line ∷ [];
  dlopen = 0x3000;
  dlsym = 0x4000;
  class_get_methods = λ handle. none;
  load = λ a. 0;
}

-- The addresses `12` and `34`.
abbrev app : App World
app = record {
  func_dlopen = 0;
  func_dlsym = 0;
  func_set = 0;
  func_get = 0;
  address_get = 0x120;
  address_set = 0x340;
  buffer = [];
  file_size = 0;
  libil2cpp_base = 0;
  libil2cpp_handle = 0;
  is_got_get_and_set = false;
  file = some (joined ((49 ∷ 50 ∷ 124 ∷ 51 ∷ 52 ∷ []) ∷ []));
  code = world;
}

hook_at-IsInstalled_example :
    (w' : World) × (hook_at engine 0x3001 at_dlopen world ≡ ok w')
    × CanGrow 0 w'
    × IsInstalled 0x3001 0x5000 0x13001 0x8000 world w'
hook_at-IsInstalled_example =
    hook_at-IsInstalled engine 0x3001 at_dlopen world 0
      (reachable 0x3001 (omega arith) (omega arith)) (reachable 0x5000 (omega arith) (omega arith))
      (world-CanGrow 1 (omega arith)) (world-IsAbsent 0x3001)

hookable :
    (func : ℕ) (to : Replacement)
    → 0x1000 < func
    → func < 0x6000
    → is_executable_addr engine.regions (new_func to) ≡ true
    → IsHookable engine func to world
hookable func to l h r = record {
  reachable = reachable func l h;
  replaceable = r;
  absent = world-IsAbsent func;
}

find_module_by_name-here : find_module_by_name system.maps lib_name ≡ ok 0x1000
unfolding find_module_by_name
find_module_by_name-here = refl

contains-libil2cpp : contains libil2cpp lib_name ≡ true
unfolding contains
contains-libil2cpp = refl

-- The two functions of `prologues_world`, at 0x3000 and 0x3100.
abbrev game : App World
game = record app { address_get = 0x2000; address_set = 0x2100; code = prologues_world }

game-IsHookable :
    (func : ℕ) (to : Replacement)
    → 0x1000 < func
    → func < 0x6000
    → is_executable_addr engine.regions (new_func to) ≡ true
    → IsHookable engine func to prologues_world
game-IsHookable func to l h r = record {
  reachable = reachable func l h;
  replaceable = r;
  absent = world-IsAbsent func;
}

laid :
    (func page old new : ℕ)
    → func % 4 ≡ 0
    → page % 4 ≡ 0
    → func < 0x6000
    → new < 0x6000
    → 0x10000 < page
    → page < 0x20000
    → 0x7000 < old
    → old < 0x9000
    → IsLaidOut func page old new
laid func page old new a b c d e f g h = record {
  func_aligned = a;
  page_aligned = b;
  func_low = omega arith;
  page_low = omega arith;
  new_low = omega arith;
  page_func = inr (omega arith);
  page_old = inr (omega arith);
  old_apart = inr (omega arith);
}

get-IsOutside : (a : ℕ) → IsOwn 0x3000 0x13000 0x8004 a → IsOutside 0x13100 0x8008 0x3100 a
get-IsOutside a (in_page m n) = record {
  page_apart = inl (omega arith);
  old_apart = inr (omega arith);
  func_apart = inr (omega arith);
}
get-IsOutside a (in_old m n) = record {
  page_apart = inl (omega arith);
  old_apart = inl (omega arith);
  func_apart = inr (omega arith);
}
get-IsOutside a (in_func m n) = record {
  page_apart = inl (omega arith);
  old_apart = inl (omega arith);
  func_apart = inl (omega arith);
}

new_func_dlopen-AreDetoured_example :
    (app' : App World) × (new_func_dlopen system engine lib_name 1 7 game ≡ ok app')
    × AreDetoured 0 0x3000 0x3100 engine
        (plain 0x92 0xD 0x4010)
        (load_up 2 8)
        (plain 0x92 0xD 0x4010)
        (load_up 2 8)
        game
        app'
new_func_dlopen-AreDetoured_example =
    new_func_dlopen-AreDetoured system engine 0 0x3000 0x3100 0x1000 1 7 lib_name game
      contains-libil2cpp (omega arith) find_module_by_name-here (omega arith)
      (plain 0x92 0xD 0x4010) (load_up 2 8) (plain 0x92 0xD 0x4010) (load_up 2 8)
      (record {
        get_known = omega arith;
        set_known = omega arith;
        get_at = refl;
        set_at = refl;
        apart = omega arith;
        growing = prologues_world-CanGrow;
        get_hookable =
            game-IsHookable 0x3000 at_get (omega arith) (omega arith)
              (reachable 0x5100 (omega arith) (omega arith));
        set_hookable =
            game-IsHookable 0x3100 at_set (omega arith) (omega arith)
              (reachable 0x5200 (omega arith) (omega arith));
      })
      (record {
        get_laid =
            laid 0x3000 0x13000 0x8004 0x5100 refl refl (omega arith) (omega arith) (omega arith)
              (omega arith) (omega arith) (omega arith);
        set_laid =
            laid 0x3100 0x13100 0x8008 0x5200 refl refl (omega arith) (omega arith) (omega arith)
              (omega arith) (omega arith) (omega arith);
        get_stays = get-IsOutside;
        set_stays = λ a m n. record {
          page_apart = inl (omega arith);
          old_apart = inl (omega arith);
          func_apart = inr (omega arith);
        };
        bounded = prologues_memory-bounded;
        get_moves = prologue-AllMove;
        set_moves = prologue-AllMove;
        get_here = first-IsPlaced;
        set_here = second-IsPlaced;
      })

jni_on_load-Starts_example : Starts system engine app (jni_on_load system engine app)
jni_on_load-Starts_example = jni_on_load-Starts system engine app (world-CanGrow 1 (omega arith)) (
    hookable 0x3000 at_dlopen (omega arith) (omega arith)
      (reachable 0x5000 (omega arith) (omega arith)))
