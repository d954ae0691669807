-- ===== src/Inject/Inline/ThumbExamples.antt =====
-- The theorem on calls of a hooked function in Thumb mode, at a function that begins with PUSH, LDR
-- and STMDB.
use unity_game_localization.Prelude.{
  ℕ, zero, suc, ◌-◌, ◌%◌, ◌≡◌, refl, List, [], ◌∷◌, ◌++◌, arith, get_or, inl, inr, length,
}
use unity_game_localization.Run.{ok}
use unity_game_localization.Relocate.Thumb16.Machine.{
  Instr, load_up, plain, plain_wide, no_op, IsEncodable, code, IsPlaced,
}
use unity_game_localization.Relocate.Thumb.Whole.{moves_on, AllMove, codes, IsRest}
use unity_game_localization.InlineHook.World.{Memory, World, read16}
use unity_game_localization.InlineHook.Operations.Absent.{CanGrow}
use unity_game_localization.Inject.Startup.{at_dlopen}
use unity_game_localization.Inject.Inline.{Engine, hook_at}
use unity_game_localization.Inject.Inline.ThumbCalls.{IsThumbDetoured, hook_at-IsThumbDetoured}
use unity_game_localization.Inject.Inline.Samples.{
  world, world-CanGrow, world-IsAbsent, engine, reachable,
}

-- PUSH {R4, LR}, LDR R0, [PC, #4], STMDB SP!, {R4-R11} and NOP, and the first half of a BL.
abbrev prologue : List Instr
prologue = plain 0xB5 0x10 ∷ load_up 0 1 ∷ plain_wide 0xE92D 0x0FF0 ∷ no_op ∷ []

abbrev rest : List ℕ
rest = 0xF000 ∷ []

abbrev prologue_memory : Memory
prologue_memory a =
    get_or (0x10 ∷ 0xB5 ∷ 0x01 ∷ 0x48 ∷ 0x2D ∷ 0xE9 ∷ 0xF0 ∷ 0x0F ∷ 0x00 ∷ 0xBF ∷ 0x00 ∷ 0xF0 ∷ [])
      (a - 0x3000) 0
    % 256

abbrev prologue_world : World
prologue_world = record world { memory = prologue_memory }

prologue-AllMove : AllMove prologue
unfolding AllMove IsEncodable moves_on
prologue-AllMove = (
  (omega arith, omega arith, omega arith, refl),
  refl,
  (
    omega arith,
    refl,
    (
      (omega arith, omega arith, omega arith, omega arith, inl (omega arith)),
      refl,
      (omega arith, refl, refl),
    ),
  ),
)

rest-IsRest : IsRest rest
unfolding IsRest
rest-IsRest = refl

length-prologue : length (codes prologue ++ rest) ≡ 6
unfolding codes code
length-prologue = refl

prologue-IsPlaced : IsPlaced (read16 prologue_memory) 0x3000 (codes prologue ++ rest)
unfolding codes code
prologue-IsPlaced zero w h = cc h
prologue-IsPlaced (suc zero) w h = cc h
prologue-IsPlaced (suc (suc zero)) w h = cc h
prologue-IsPlaced (suc (suc (suc zero))) w h = cc h
prologue-IsPlaced (suc (suc (suc (suc zero)))) w h = cc h
prologue-IsPlaced (suc (suc (suc (suc (suc zero))))) w h = cc h
prologue-IsPlaced (suc (suc (suc (suc (suc (suc k)))))) w h = absurd (cc h)

prologue_world-CanGrow : CanGrow 1 prologue_world
prologue_world-CanGrow =
    let g = world-CanGrow 1 (omega arith) in
    record { table = g.table; room = g.room; unmarked = g.unmarked }

abbrev aligned : Engine
aligned = record engine { page = λ target_addr. 0x13000 }

hook_at-IsThumbDetoured_example :
    (w' : World) × (hook_at aligned 0x3001 at_dlopen prologue_world ≡ ok w')
    × IsThumbDetoured 0x3001 0x8000 0x5000 prologue prologue_world w'
hook_at-IsThumbDetoured_example =
    hook_at-IsThumbDetoured aligned 0x3001 at_dlopen prologue_world 0
      (reachable 0x3001 (omega arith) (omega arith)) (reachable 0x5000 (omega arith) (omega arith))
      prologue_world-CanGrow (world-IsAbsent 0x3001)
      (record {
        func_odd = refl;
        page_aligned = refl;
        func_low = omega arith;
        page_low = omega arith;
        new_low = omega arith;
        page_func = inr (omega arith);
        page_old = inr (omega arith);
        old_apart = inr (omega arith);
      })
      (λ a. omega arith) prologue rest prologue-AllMove rest-IsRest length-prologue
      prologue-IsPlaced
