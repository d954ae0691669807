-- ===== src/Inject/Inline/CallExamples.antt =====
-- The theorems on one hook of inject_inlinehook.cpp, at a function that begins with PUSH and LDR.
use unity_game_localization.Prelude.{◌+◌, ◌<◌, ◌≤◌, ltb, if◌then◌else◌}
use unity_game_localization.Prelude.{
  ◌≡◌, refl, subst, true, false, List, [], ◌∷◌, some, arith, length, get_elem?, inl, inr,
  get_elem?-replicate, get_or, map, ℕ, zero, suc, ◌-◌, ◌%◌,
}
use unity_game_localization.Run.{ok}
use unity_game_localization.InlineHook.World.{Item, Memory, World, read32}
use unity_game_localization.Relocate.Arm.Machine.{Instr, load_up, plain, IsEncodable, encode}
use unity_game_localization.Relocate.Arm.Refine.{IsPlaced}
use unity_game_localization.Relocate.Arm.Whole.{AllMove, moves_on}
use unity_game_localization.InlineHook.Operations.Absent.{CanGrow}
use unity_game_localization.Inject.Startup.{at_dlopen, at_get}
use unity_game_localization.Inject.Inline.{Engine, hook_at}
use unity_game_localization.Inject.Inline.Calls.{IsDetoured, hook_at-IsDetoured}
use unity_game_localization.InlineHook.World.{Status, Thread}
use unity_game_localization.InlineHook.Operations.{inline_un_hook}
use unity_game_localization.Inject.Inline.Layout.{IsLaidOut}
use unity_game_localization.Inject.Inline.Resume.{IsFresh, IsFollowed, hook_at-IsFollowed}
use unity_game_localization.Inject.Inline.Undo.{IsUndone, inline_un_hook-hook_at}
use unity_game_localization.Inject.Inline.Outcome.{IsOutside}
use unity_game_localization.Inject.Inline.Kept.{IsOwn, in_page, in_old, in_func, hook_at-hook_at}
use unity_game_localization.Inject.Inline.Samples.{
  blank, world, world-CanGrow, world-IsAbsent, engine, reachable,
}

-- PUSH {R4, LR} and LDR R2, [PC, #8], byte by byte at 0x3000.
abbrev pub prologue : List Instr
prologue = plain 0x92 0xD 0x4010 ∷ load_up 2 8 ∷ []

abbrev prologue_memory : Memory
prologue_memory a =
    get_or (0x10 ∷ 0x40 ∷ 0x2D ∷ 0xE9 ∷ 0x08 ∷ 0x20 ∷ 0x9F ∷ 0xE5 ∷ []) (a - 0x3000) 0 % 256

abbrev prologue_world : World
prologue_world = record world { memory = prologue_memory }

pub prologue-AllMove : AllMove prologue
unfolding AllMove IsEncodable moves_on
prologue-AllMove = (
  (omega arith, omega arith, omega arith, omega arith, inl (omega arith)),
  refl,
  (omega arith, refl, refl),
)

prologue-IsPlaced : IsPlaced (read32 prologue_memory) 0x3000 (map encode prologue)
unfolding encode
prologue-IsPlaced zero w h = cc h
prologue-IsPlaced (suc zero) w h = cc h
prologue-IsPlaced (suc (suc k)) w h = absurd (cc h)

prologue_world-CanGrow : CanGrow 1 prologue_world
prologue_world-CanGrow =
    let g = world-CanGrow 1 (omega arith) in
    record { table = g.table; room = g.room; unmarked = g.unmarked }

prologue-IsLaidOut : IsLaidOut 0x3000 0x13000 0x8000 0x5000
prologue-IsLaidOut = record {
  func_aligned = refl;
  page_aligned = refl;
  func_low = omega arith;
  page_low = omega arith;
  new_low = omega arith;
  page_func = inr (omega arith);
  page_old = inr (omega arith);
  old_apart = inr (omega arith);
}

hook_at-IsDetoured_example :
    (w' : World) × (hook_at engine 0x3000 at_dlopen prologue_world ≡ ok w')
    × IsDetoured 0x3000 0x8000 0x5000 prologue prologue_world w'
hook_at-IsDetoured_example =
    hook_at-IsDetoured engine 0x3000 at_dlopen prologue_world 0
      (reachable 0x3000 (omega arith) (omega arith)) (reachable 0x5000 (omega arith) (omega arith))
      prologue_world-CanGrow (world-IsAbsent 0x3000) prologue-IsLaidOut (λ a. omega arith)
      (plain 0x92 0xD 0x4010) (load_up 2 8) prologue-AllMove prologue-IsPlaced

inline_un_hook-hook_at_example :
    (w' w'' : World) × (hook_at engine 0x3001 at_dlopen world ≡ ok w')
    × (inline_un_hook false 0x3001 w' ≡ ok (Status.ok, w''))
    × IsUndone 0x13001 0x8000 world w''
inline_un_hook-hook_at_example =
    inline_un_hook-hook_at engine 0x3001 at_dlopen world 0
      (reachable 0x3001 (omega arith) (omega arith)) (reachable 0x5000 (omega arith) (omega arith))
      (world-CanGrow 1 (omega arith)) (world-IsAbsent 0x3001)

-- The system with a child process, and a thread behind the PUSH.
abbrev forking : Engine
forking = record engine { forks = true }

abbrev stopped : Thread
stopped = record { pc = 0x3004; attaches = true }

abbrev stopped_world : World
stopped_world = record prologue_world { threads = stopped ∷ [] }

stopped_world-CanGrow : CanGrow 1 stopped_world
stopped_world-CanGrow =
    let g = world-CanGrow 1 (omega arith) in
    record { table = g.table; room = g.room; unmarked = g.unmarked }

stopped_world-IsFresh : IsFresh stopped_world
stopped_world-IsFresh slot at =
    let e = get_elem?-replicate 1024 0 blank slot at in
    subst (λ (x : Item). (x.boundaries.count ≡ 0) × (length x.boundaries.cells ≡ 24)) e (refl, refl)

hook_at-IsFollowed_example :
    (w' : World) × (hook_at forking 0x3000 at_dlopen stopped_world ≡ ok w')
    × (t' : Thread) × (get_elem? w'.threads 0 ≡ some t')
    × IsFollowed 0x3000 (plain 0x92 0xD 0x4010) (load_up 2 8) stopped_world w' stopped t'
hook_at-IsFollowed_example =
    hook_at-IsFollowed forking 0x3000 at_dlopen stopped_world 0
      (reachable 0x3000 (omega arith) (omega arith)) (reachable 0x5000 (omega arith) (omega arith))
      stopped_world-CanGrow (world-IsAbsent 0x3000) prologue-IsLaidOut (λ a. omega arith)
      (plain 0x92 0xD 0x4010) (load_up 2 8) prologue-AllMove prologue-IsPlaced refl
      stopped_world-IsFresh 0 stopped refl refl

-- The same two instructions at 0x3100 as well.
abbrev prologues_memory : Memory
prologues_memory a = if ltb a 0x3100 then prologue_memory a else prologue_memory (a - 0x100)

abbrev pub prologues_world : World
prologues_world = record world { memory = prologues_memory }

pub prologues_memory-bounded : (a : ℕ) → prologues_memory a < 256
prologues_memory-bounded a =
    let l : prologue_memory a < 256 = omega arith in
    let r : prologue_memory (a - 0x100) < 256 = omega arith in ground arith

pub first-IsPlaced : IsPlaced (read32 prologues_memory) 0x3000 (map encode prologue)
unfolding encode
first-IsPlaced zero w h = cc h
first-IsPlaced (suc zero) w h = cc h
first-IsPlaced (suc (suc k)) w h = absurd (cc h)

pub second-IsPlaced : IsPlaced (read32 prologues_memory) 0x3100 (map encode prologue)
unfolding encode
second-IsPlaced zero w h = cc h
second-IsPlaced (suc zero) w h = cc h
second-IsPlaced (suc (suc k)) w h = absurd (cc h)

pub prologues_world-CanGrow : CanGrow 2 prologues_world
prologues_world-CanGrow =
    let g = world-CanGrow 2 (omega arith) in
    record { table = g.table; room = g.room; unmarked = g.unmarked }

second-IsLaidOut : IsLaidOut 0x3100 0x13100 0x8004 0x5100
second-IsLaidOut = record {
  func_aligned = refl;
  page_aligned = refl;
  func_low = omega arith;
  page_low = omega arith;
  new_low = omega arith;
  page_func = inr (omega arith);
  page_old = inr (omega arith);
  old_apart = inr (omega arith);
}

own-IsOutside : (a : ℕ) → IsOwn 0x3000 0x13000 0x8000 a → IsOutside 0x13100 0x8004 0x3100 a
own-IsOutside a (in_page m n) = record {
  page_apart = inl (omega arith);
  old_apart = inr (omega arith);
  func_apart = inr (omega arith);
}
own-IsOutside a (in_old m n) = record {
  page_apart = inl (omega arith);
  old_apart = inl (omega arith);
  func_apart = inr (omega arith);
}
own-IsOutside a (in_func m n) = record {
  page_apart = inl (omega arith);
  old_apart = inl (omega arith);
  func_apart = inl (omega arith);
}

second-IsOutside : (a : ℕ) → 0x3100 ≤ a → a < 0x3100 + 8 → IsOutside 0x13000 0x8000 0x3000 a
second-IsOutside a m n = record {
  page_apart = inl (omega arith);
  old_apart = inl (omega arith);
  func_apart = inr (omega arith);
}

hook_at-hook_at_example :
    (w' w'' : World) × (hook_at engine 0x3000 at_dlopen prologues_world ≡ ok w')
    × (hook_at engine 0x3100 at_get w' ≡ ok w'')
    × IsDetoured 0x3000 0x8000 0x5000 prologue prologues_world w''
    × IsDetoured 0x3100 0x8004 0x5100 prologue w' w''
hook_at-hook_at_example =
    hook_at-hook_at engine 0x3000 0x3100 at_dlopen at_get prologues_world 0
      (reachable 0x3000 (omega arith) (omega arith)) (reachable 0x5000 (omega arith) (omega arith))
      (reachable 0x3100 (omega arith) (omega arith)) (reachable 0x5100 (omega arith) (omega arith))
      prologues_world-CanGrow (world-IsAbsent 0x3000) (world-IsAbsent 0x3100) (omega arith)
      prologue-IsLaidOut second-IsLaidOut own-IsOutside second-IsOutside prologues_memory-bounded
      (plain 0x92 0xD 0x4010) (load_up 2 8) (plain 0x92 0xD 0x4010) (load_up 2 8) prologue-AllMove
      prologue-AllMove first-IsPlaced second-IsPlaced
