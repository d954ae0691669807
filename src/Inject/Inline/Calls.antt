-- ===== src/Inject/Inline/Calls.antt =====
-- Calls of a hooked function and of the original behind its trampoline: the registry's patch, the
-- stored address and the relocated instructions together, run on the Arm machine.
use unity_game_localization.Prelude.{
  ℕ, suc, ◌+◌, ◌*◌, ◌<◌, ◌≡◌, refl, sym, subst, ap, ◌∙◌, true, false, List, [], ◌∷◌, map, some,
  arith,
}
use unity_game_localization.Run.{ok}
use unity_game_localization.Relocate.Arm.Machine.{Cpu, Instr, encode, put, Steps}
use unity_game_localization.Relocate.Arm.Refine.{IsPlaced, at, run-jumped}
use unity_game_localization.Relocate.Arm.Whole.{AllMove, in_order}
use unity_game_localization.Relocate.Arm.Trampoline.{
  trampoline_of, relocate_instruction_in_arm-Steps,
}
use unity_game_localization.InlineHook.World.{Item, Thread, Memory, World, read32}
use unity_game_localization.InlineHook.Operations.{is_executable_addr}
use unity_game_localization.InlineHook.Operations.Fill.{Fills}
use unity_game_localization.InlineHook.Operations.Absent.{IsAbsent, CanGrow}
use unity_game_localization.Inject.Startup.{Replacement}
use unity_game_localization.Inject.Inline.{Engine, hook_at}
use unity_game_localization.Inject.Inline.Install.{hook_at-world₂}
use unity_game_localization.Inject.Inline.Layout.{
  IsLaidOut, in_arm, memory₃, after, relocates, memory_eq, IsPlaced-trampoline, placed_proto,
  IsPlaced-jump,
}

-- What a call of the function does before and behind the hook. In the hooked world it goes to the
-- replacement, and a call through the stored address reaches the state that a call of the
-- unhooked function reaches behind its first two instructions.
pub record IsDetoured (func old_func new_addr : ℕ) (is : List Instr) (w w' : World) : Type 0 where
  pub replaced :
      (c : Cpu) → c.thumb ≡ false → Steps (read32 w'.memory) (at func c) (put 15 new_addr 0 c)
  pub unhooked :
      (c : Cpu)
      → c.thumb ≡ false
      → Steps (read32 w.memory) (at func c) (in_order (read32 w.memory) func is c)
  pub original :
      (c : Cpu)
      → c.thumb ≡ false
      → Steps
          (read32 w'.memory)
          (at (read32 w'.memory old_func) c)
          (in_order (read32 w.memory) func is c)

module _ (func page old_func new_addr : ℕ) (l : IsLaidOut func page old_func new_addr) (i j : Instr)
    (moves : AllMove (i ∷ j ∷ [])) (slot x : Item) (w : World) (memory' : Memory)
    (threads : List Thread) (f : Fills page func new_addr (some old_func) slot w.memory x memory')
    (absent : IsAbsent func w) (bounded : (a : ℕ) → w.memory a < 256)
    (here : IsPlaced (read32 w.memory) func (map encode (i ∷ j ∷ []))) where
  abbrev is : List Instr
  is = i ∷ j ∷ []

  abbrev hooked_memory : Memory
  hooked_memory =
      memory₃ func page old_func new_addr l i j moves slot x w memory' threads f absent bounded here

  pub trampoline_of-IsPlaced : IsPlaced (read32 hooked_memory) page (
      trampoline_of (
        in_arm func page old_func new_addr l i j moves slot x w memory' threads f absent bounded
          here))
  unfolding trampoline_of
  trampoline_of-IsPlaced =
      subst (IsPlaced (read32 hooked_memory) page)
        (sym (
          ap trampoline_of (
            relocates func page old_func new_addr l i j moves slot x w memory' threads f absent
              bounded here)))
        (IsPlaced-trampoline func page old_func new_addr l i j moves slot x w memory' threads f
          absent bounded here)

  reaches_new :
      (c : Cpu) → c.thumb ≡ false → Steps (read32 hooked_memory) (at func c) (put 15 new_addr 0 c)
  reaches_new c t =
      run-jumped (read32 hooked_memory) func (l.func_aligned, l.func_low) new_addr 0 func c
        (omega (arith, l.func_low)) t
        (ap (read32 hooked_memory) (let e : func ≡ func + 4 * 0 = omega arith in e)
          ∙ IsPlaced-jump func page old_func new_addr l i j moves slot x w memory' threads f absent
              bounded here 0 _ refl)
        (IsPlaced-jump func page old_func new_addr l i j moves slot x w memory' threads f absent
          bounded here 1 new_addr refl)

  pub reaches_end :
      (c : Cpu)
      → c.thumb ≡ false
      → Steps (read32 w.memory) (at func c) (in_order (read32 w.memory) func is c)
        × Steps (read32 hooked_memory) (at page c) (in_order (read32 w.memory) func is c)
  reaches_end c t =
      let (r, e, first, second) =
        relocate_instruction_in_arm-Steps (read32 w.memory) (read32 hooked_memory) is func page
          slot.boundaries c moves t (l.func_aligned, l.page_aligned)
          (omega (arith, l.func_low), omega (arith, l.page_low)) (omega (arith, f.spare)) here
          trampoline_of-IsPlaced in
      (first, second)

  after-IsDetoured :
      IsDetoured func old_func new_addr is w (
        after func page old_func new_addr l i j moves slot x w memory' threads f absent bounded
          here)
  after-IsDetoured = record {
    replaced = λ c t.
        subst (λ (m : Memory). Steps (read32 m) (at func c) (put 15 new_addr 0 c))
          (sym (
            memory_eq func page old_func new_addr l i j moves slot x w memory' threads f absent
              bounded here))
          (reaches_new c t);
    unhooked = λ c t. (reaches_end c t).0;
    original = λ c t.
        subst
          (λ (m : Memory).
            Steps (read32 m) (at (read32 m old_func) c) (in_order (read32 w.memory) func is c))
          (sym (
            memory_eq func page old_func new_addr l i j moves slot x w memory' threads f absent
              bounded here))
          (rw
            (placed_proto func page old_func new_addr l i j moves slot x w memory' threads f absent
              bounded here)
            (reaches_end c t).1);
  }

module _ (env : Engine) (func : ℕ) (to : Replacement) (w : World) where
  -- Take a function in Arm mode that begins with two instructions with the condition `always` that
  -- do not write the PC: LDR with an offset from the PC, ADD and SUB of the PC and a constant below
  -- 256, MOV from the PC, or an instruction that does not involve the PC. Let its address, the
  -- trampoline's page and the variable for its address be aligned, apart and below 2 ^ 32, memory
  -- hold bytes, and table, target and new function be as for `hook_at-IsInstalled`. Registering and
  -- hooking the function then ends without a fault, and on the machine of `Machine`, run on the
  -- memory that this leaves, a call of the function goes to the new function, and a call through
  -- the stored address reaches the state that the unhooked function reaches behind the two
  -- instructions: the registers, the mode and the address to go on at are the same.
  pub hook_at-IsDetoured :
      (n : ℕ)
      → is_executable_addr env.regions func ≡ true
      → is_executable_addr env.regions (env.new_func to) ≡ true
      → CanGrow (suc n) w
      → IsAbsent func w
      → IsLaidOut func (env.page func) (env.old_func to) (env.new_func to)
      → ((a : ℕ) → w.memory a < 256)
      → (i j : Instr) → AllMove (i ∷ j ∷ [])
      → IsPlaced (read32 w.memory) func (map encode (i ∷ j ∷ []))
      → (w' : World) × (hook_at env func to w ≡ ok w')
        × IsDetoured func (env.old_func to) (env.new_func to) (i ∷ j ∷ []) w w'
  hook_at-IsDetoured n x x' g absent l bounded i j moves here =
      let (slot, item, memory', threads, f, _, _, e) =
        hook_at-world₂ env func to w n x x' g absent in
      (
        _,
        e,
        after-IsDetoured func (env.page func) (env.old_func to) (env.new_func to) l i j moves slot
            item w memory' threads f absent bounded here,
      )
