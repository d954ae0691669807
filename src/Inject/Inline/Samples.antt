-- ===== src/Inject/Inline/Samples.antt =====
-- An empty table and a small system for the theorems on inject_inlinehook.cpp.
use unity_game_localization.Prelude.{
  ℕ, ◌+◌, ◌<◌, ◌≤◌, ◌≡◌, subst, true, false, [], ◌∷◌, none, arith, replicate, length-replicate,
  get_elem?-replicate,
}
use unity_game_localization.InlineHook.World.{Item, World}
use unity_game_localization.InlineHook.Operations.{is_executable_addr}
use unity_game_localization.InlineHook.Operations.Absent.{IsAbsent, CanGrow}
use unity_game_localization.Inject.Startup.{Replacement, at_dlopen, at_get, at_set, at_get_methods}
use unity_game_localization.Inject.Inline.{Engine}

abbrev pub blank : Item
blank = record {
  target_addr = 0;
  new_addr = 0;
  proto_addr = none;
  orig_instructions = [];
  boundaries = record { cells = replicate 24 0; count = 0 };
  trampoline_instructions = 0;
  length = 0;
  status = 0;
}

abbrev pub world : World
world = record {
  info = record { item = replicate 1024 blank; size = 0 };
  memory = λ a. 0;
  threads = [];
  flushed = [];
}

pub world-CanGrow : (n : ℕ) → n < 1025 → CanGrow n world
world-CanGrow n h = record {
  table = record {
    slots = length-replicate 1024 blank;
    fits = omega arith;
    unique = λ i j x y u v e. absurd (omega (arith, u.below));
    known = λ i x u. absurd (omega (arith, u.below));
  };
  room = omega arith;
  unmarked = λ i x l at.
      let e = get_elem?-replicate 1024 i blank x at in
      subst (λ (y : Item). y.boundaries.count ≤ 14) e (omega arith);
}

pub world-IsAbsent : (t : ℕ) → IsAbsent t world
world-IsAbsent t i x u = absurd (omega (arith, u.below))

abbrev pub new_func : Replacement → ℕ
new_func at_dlopen = 0x5000
new_func at_get = 0x5100
new_func at_set = 0x5200
new_func at_get_methods = 0x5300

abbrev pub old_func : Replacement → ℕ
old_func at_dlopen = 0x8000
old_func at_get = 0x8004
old_func at_set = 0x8008
old_func at_get_methods = 0x800C

abbrev pub engine : Engine
engine = record {
  regions = record { start = 0x1000; end_addr = 0x6000; executable = true } ∷ [];
  page = λ t. 0x10000 + t;
  new_func = new_func;
  old_func = old_func;
  forks = false;
}

pub reachable :
    (func : ℕ) → 0x1000 < func → func < 0x6000 → is_executable_addr engine.regions func ≡ true
unfolding is_executable_addr
reachable func l h = ground arith
