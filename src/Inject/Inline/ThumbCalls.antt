-- ===== src/Inject/Inline/ThumbCalls.antt =====
-- Calls of a function in Thumb mode that is hooked, and of the original behind its trampoline, run
-- on the machine for Thumb.
use unity_game_localization.Prelude.{
  ℕ, suc, ◌+◌, ◌-◌, ◌*◌, ◌%◌, ◌^◌, ◌<◌, ◌≡◌, refl, sym, subst, ap, ◌∙◌, ◌==◌, true, List, [], ◌∷◌,
  ◌++◌, some, arith, length, length-append, Bool-cases, inl, inr, ==_of_eq, if◌then◌else◌,
}
use unity_game_localization.Run.{ok}
use unity_game_localization.Relocate.Thumb16.Machine.{
  Cpu, Instr, word_at, jump_to, IsPlaced, encode, Steps,
}
use unity_game_localization.Relocate.Thumb16.Words.{jumped}
use unity_game_localization.Relocate.Thumb16.Runs.{at, same_cpu, Steps-append, run-jump, run-no_op}
use unity_game_localization.Relocate.Thumb.Whole.{AllMove, codes, IsRest}
use unity_game_localization.Relocate.Thumb.Trampoline.{in_order, IsPlaced-append}
use unity_game_localization.Relocate.Thumb.Refine.{relocate_instruction_in_thumb-Steps}
use unity_game_localization.Relocate.Arm.Trampoline.{trampoline_of}
use unity_game_localization.InlineHook.World.{Item, Thread, Memory, World, read16, read32}
use unity_game_localization.InlineHook.Operations.{is_executable_addr}
use unity_game_localization.InlineHook.Operations.Fill.{Fills}
use unity_game_localization.InlineHook.Operations.Absent.{IsAbsent, CanGrow}
use unity_game_localization.Inject.Startup.{Replacement}
use unity_game_localization.Inject.Inline.{Engine, hook_at}
use unity_game_localization.Inject.Inline.Install.{hook_at-world₂}
use unity_game_localization.Inject.Inline.ThumbLayout.{
  IsThumbLaidOut, in_thumb, memory₃, after, relocates, memory_eq, emitted-IsPlaced, stored_proto,
  jump-IsPlaced,
}

-- What a call of the function does before and behind the hook; an address with bit 0 is called in
-- Thumb mode. In the hooked world the call goes to the replacement, and a call through the stored
-- address reaches the state that a call of the unhooked function reaches behind the instructions.
pub record IsThumbDetoured (func old_func new_addr : ℕ) (is : List Instr) (w w' : World)
    : Type 0 where
  pub replaced : (c : Cpu) → Steps (read16 w'.memory) (jump_to func c) (jump_to new_addr c)
  pub unhooked :
      (c : Cpu)
      → Steps
          (read16 w.memory)
          (jump_to func c)
          (in_order (word_at (read16 w.memory)) (func - 1) is (jump_to func c))
  pub original :
      (c : Cpu)
      → Steps
          (read16 w'.memory)
          (jump_to (read32 w'.memory old_func) c)
          (in_order (word_at (read16 w.memory)) (func - 1) is (jump_to func c))

-- The jump runs at every even address.
run-patch :
    (half : ℕ → ℕ) (a value : ℕ) (c : Cpu)
    → a % 2 ≡ 0
    → a + 16 < 2 ^ 32
    → c.thumb ≡ true
    → IsPlaced half a (if a % 4 == 0 then jumped value else 0xBF00 ∷ jumped value)
    → Steps half (at a c) (jump_to value c)
unfolding encode
run-patch half a value c even l t p = elim (Bool-cases (a % 4 == 0)) [
  | inl y ↦ run-jump half a value c (ground arith) (omega arith) t (rw y at p)
  | inr n ↦
      let nop : List ℕ = 0xBF00 ∷ [] in
      let q : IsPlaced half a (nop ++ jumped value) = rw n at p in
      let parts = IsPlaced-append half a nop (jumped value) q in
      let no_op_here : half a ≡ 0xBF00 =
        ap half (let e : a ≡ a + 2 * 0 = omega arith in e) ∙ parts.0 0 0xBF00 refl in
      let next : a + 2 * length nop ≡ a + 2 = omega arith in
      Steps-append half (at a c) (at (a + 2) c) (jump_to value c)
        (run-no_op half a c (omega arith) t no_op_here)
        (run-jump half (a + 2) value c (ground arith) (omega arith) t
          (subst (λ b. IsPlaced half b (jumped value)) next parts.1))
]

module _ (func page old_func new_addr : ℕ) (l : IsThumbLaidOut func page old_func new_addr)
    (is : List Instr) (rest : List ℕ) (moves : AllMove is) (cut : IsRest rest)
    (six : length (codes is ++ rest) ≡ 6) (slot x : Item) (w : World) (memory' : Memory)
    (threads : List Thread) (f : Fills page func new_addr (some old_func) slot w.memory x memory')
    (absent : IsAbsent func w) (bounded : (a : ℕ) → w.memory a < 256)
    (here : IsPlaced (read16 w.memory) (func - 1) (codes is ++ rest)) where
  abbrev hooked_memory : Memory
  hooked_memory =
      memory₃ func page old_func new_addr l is rest moves cut six slot x w memory' threads f absent
        bounded here

  in_thumb-IsPlaced : IsPlaced (read16 hooked_memory) page (
      trampoline_of (
        in_thumb func page old_func new_addr l is rest moves cut six slot x w memory' threads f
          absent bounded here))
  unfolding trampoline_of
  in_thumb-IsPlaced =
      subst (IsPlaced (read16 hooked_memory) page)
        (sym (
          ap trampoline_of (
            relocates func page old_func new_addr l is rest moves cut six slot x w memory' threads f
              absent bounded here)))
        (emitted-IsPlaced func page old_func new_addr l is rest moves cut six slot x w memory'
          threads f absent bounded here)

  -- The state of a call of the function, and of the same call of the trampoline.
  called : (c : Cpu) → jump_to func c ≡ at (func - 1) (jump_to func c)
  called c =
      same_cpu c _ _ _ _ (let e : func - func % 2 ≡ func - 1 = omega (arith, l.func_odd) in e) refl

  called_page : (c : Cpu) → jump_to (page + 1) c ≡ at page (jump_to func c)
  called_page c =
      same_cpu c _ _ _ _
        (let e : page + 1 - (page + 1) % 2 ≡ page = omega (arith, l.page_aligned) in e)
        (==_of_eq ((page + 1) % 2) 1 (omega (arith, l.page_aligned))
          ∙ sym (==_of_eq (func % 2) 1 l.func_odd))

  called-thumb : (c : Cpu) → (jump_to func c).thumb ≡ true
  called-thumb c = ==_of_eq (func % 2) 1 l.func_odd

  reaches_new : (c : Cpu) → Steps (read16 hooked_memory) (jump_to func c) (jump_to new_addr c)
  reaches_new c =
      subst (λ d. Steps (read16 hooked_memory) d (jump_to new_addr c)) (sym (called c))
        (run-patch (read16 hooked_memory) (func - 1) new_addr (jump_to func c)
          (omega (arith, l.func_odd)) (omega (arith, l.func_low)) (called-thumb c)
          (jump-IsPlaced func page old_func new_addr l is rest moves cut six slot x w memory'
            threads f absent bounded here))

  abbrev end_of : Cpu → Cpu
  end_of c = in_order (word_at (read16 w.memory)) (func - 1) is (jump_to func c)

  reaches_end :
      (c : Cpu)
      → Steps (read16 w.memory) (jump_to func c) (end_of c)
        × Steps (read16 hooked_memory) (jump_to (page + 1) c) (end_of c)
  reaches_end c =
      let size = length-append (codes is) rest in
      let (q, e, first, second) =
        relocate_instruction_in_thumb-Steps (read16 w.memory) (read16 hooked_memory) is rest
          (func - 1) page slot.boundaries (jump_to func c) moves cut (called-thumb c)
          (omega (arith, l.func_odd), l.page_aligned) (omega (arith, six))
          (omega (arith, l.func_low, size, six), omega (arith, l.page_low, size, six))
          (omega (arith, six, f.spare))
          (IsPlaced-append (read16 w.memory) (func - 1) (codes is) rest here).0 in_thumb-IsPlaced in
      (
        subst (λ d. Steps (read16 w.memory) d (end_of c)) (sym (called c)) first,
        subst (λ d. Steps (read16 hooked_memory) d (end_of c)) (sym (called_page c)) second,
      )

  after-IsThumbDetoured : IsThumbDetoured func old_func new_addr is w (
      after func page old_func new_addr l is rest moves cut six slot x w memory' threads f absent
        bounded here)
  after-IsThumbDetoured = record {
    replaced = λ c.
        subst (λ (m : Memory). Steps (read16 m) (jump_to func c) (jump_to new_addr c))
          (sym (
            memory_eq func page old_func new_addr l is rest moves cut six slot x w memory' threads f
              absent bounded here))
          (reaches_new c);
    unhooked = λ c. (reaches_end c).0;
    original = λ c.
        subst (λ (m : Memory). Steps (read16 m) (jump_to (read32 m old_func) c) (end_of c))
          (sym (
            memory_eq func page old_func new_addr l is rest moves cut six slot x w memory' threads f
              absent bounded here))
          (rw
            (stored_proto func page old_func new_addr l is rest moves cut six slot x w memory'
              threads f absent bounded here)
            (reaches_end c).1);
  }

module _ (env : Engine) (func : ℕ) (to : Replacement) (w : World) where
  -- Take a function in Thumb mode whose first six halfwords are instructions as in
  -- `relocate_instruction_in_thumb-Steps`, the last halfword perhaps the first half of a 32-bit
  -- instruction. Let its address have the Thumb bit, the trampoline's page be aligned, these and
  -- the variable for the page's address be apart and below 2 ^ 32, memory hold bytes, and table,
  -- target and new function be as for `hook_at-IsInstalled`. Registering and hooking the function
  -- then ends without a fault, and on the machine of `Thumb16.Machine`, run on the memory that this
  -- leaves, a call of the function is a call of the new function, and a call through the stored
  -- address reaches the state that a call of the unhooked function reaches behind those
  -- instructions.
  pub hook_at-IsThumbDetoured :
      (n : ℕ)
      → is_executable_addr env.regions func ≡ true
      → is_executable_addr env.regions (env.new_func to) ≡ true
      → CanGrow (suc n) w
      → IsAbsent func w
      → IsThumbLaidOut func (env.page func) (env.old_func to) (env.new_func to)
      → ((a : ℕ) → w.memory a < 256)
      → (is : List Instr) (rest : List ℕ) → AllMove is
      → IsRest rest
      → length (codes is ++ rest) ≡ 6
      → IsPlaced (read16 w.memory) (func - 1) (codes is ++ rest)
      → (w' : World) × (hook_at env func to w ≡ ok w')
        × IsThumbDetoured func (env.old_func to) (env.new_func to) is w w'
  hook_at-IsThumbDetoured n x x' g absent l bounded is rest moves cut six here =
      let (slot, item, memory', threads, f, _, _, e) =
        hook_at-world₂ env func to w n x x' g absent in
      (
        _,
        e,
        after-IsThumbDetoured func (env.page func) (env.old_func to) (env.new_func to) l is rest
            moves cut six slot item w memory' threads f absent bounded here,
      )
