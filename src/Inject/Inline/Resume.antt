-- ===== src/Inject/Inline/Resume.antt =====
-- The threads that one hook of inject_inlinehook.cpp stops in the two instructions at a target in
-- Arm mode, and where they go on.
use unity_game_localization.Prelude.{
  ℕ, suc, ◌+◌, ◌*◌, ◌^◌, ◌≤◌, ◌<◌, ◌≡◌, ◌≢◌, sym, subst, ap, ◌∙◌, true, false, List, [], ◌∷◌, ◌++◌,
  map, some, arith, length, get_elem?, append_assoc,
}
use unity_game_localization.Prelude.Bits.{u32}
use unity_game_localization.Run.{ok}
use unity_game_localization.Relocate.Arm.Laws.{relocate_all, by_type_arm-length}
use unity_game_localization.Relocate.Classify.{get_type_in_arm}
use unity_game_localization.Relocate.Arm.Machine.{Cpu, Instr, encode, Steps}
use unity_game_localization.Relocate.Arm.Words.{jumped}
use unity_game_localization.Relocate.Arm.Refine.{IsPlaced, at}
use unity_game_localization.Relocate.Arm.Whole.{AllMove, in_order, IsPlaced-append}
use unity_game_localization.Relocate.Arm.Trampoline.{relocate_all-Steps}
use unity_game_localization.Relocate.Arm.Marks.{first_words, IsMarked, relocated-IsMarked}
use unity_game_localization.InlineHook.World.{Item, Info, Thread, Memory, World, read32, clear_bit0}
use unity_game_localization.InlineHook.Threads.{enable, process_thread_pc}
use unity_game_localization.InlineHook.Threads.Stopped.{
  freeze-thread, moves_first, moves_second, stays, moved_pc-some, moved_pc-none,
}
use unity_game_localization.InlineHook.Operations.{is_executable_addr, do_inline_hook}
use unity_game_localization.InlineHook.Operations.Placed.{clear_bit0-aligned}
use unity_game_localization.InlineHook.Operations.Fill.{Fills}
use unity_game_localization.InlineHook.Operations.Absent.{IsAbsent, CanGrow}
use unity_game_localization.Inject.Startup.{Replacement}
use unity_game_localization.Inject.Inline.{Engine, hook_at}
use unity_game_localization.Inject.Inline.Install.{hook_at-world₂}
use unity_game_localization.Inject.Inline.Outcome.{extended_info}
use unity_game_localization.Inject.Inline.Calls.{reaches_end}
use unity_game_localization.Inject.Inline.Layout.{
  IsLaidOut, emitted_words, memory₃, after, relocates, shape, memory_eq, IsPlaced-trampoline,
}

-- A thread before and behind the hook. One that was stopped at either of the two instructions goes
-- on in the trampoline, and does there what it would have done in the unhooked function.
pub record IsFollowed (func : ℕ) (i j : Instr) (w w' : World) (t t' : Thread) : Type 0 where
  pub at_first :
      t.pc ≡ func
      → (c : Cpu) → c.thumb ≡ false
      → Steps (read32 w'.memory) (at t'.pc c) (in_order (read32 w.memory) func (i ∷ j ∷ []) c)
  pub at_second :
      t.pc ≡ func + 4
      → (c : Cpu) → c.thumb ≡ false
      → Steps (read32 w'.memory) (at t'.pc c) (in_order (read32 w.memory) (func + 4) (j ∷ []) c)
  pub elsewhere : t.pc < 2 ^ 32 → t.pc ≢ func → t.pc ≢ func + 4 → t' ≡ t

-- The first unused slot has no boundaries yet.
abbrev pub IsFresh : World → Type 0
IsFresh w =
    (slot : Item)
    → get_elem? w.info.item w.info.size ≡ some slot
    → (slot.boundaries.count ≡ 0) × (length slot.boundaries.cells ≡ 24)

module _ (func page old_func new_addr : ℕ) (l : IsLaidOut func page old_func new_addr) (i j : Instr)
    (moves_on : AllMove (i ∷ j ∷ [])) (slot x : Item) (w : World) (memory' : Memory)
    (threads : List Thread) (f : Fills page func new_addr (some old_func) slot w.memory x memory')
    (absent : IsAbsent func w) (bounded : (a : ℕ) → w.memory a < 256)
    (here : IsPlaced (read32 w.memory) func (map encode (i ∷ j ∷ [])))
    (fresh : (slot.boundaries.count ≡ 0) × (length slot.boundaries.cells ≡ 24)) where
  abbrev first : List ℕ
  first = first_words (read32 w.memory) func (encode i)

  abbrev second : List ℕ
  second = relocate_all (read32 w.memory) (u32 (func + 4 + 8)) (map encode (j ∷ []))

  abbrev hooked_memory : Memory
  hooked_memory =
      memory₃ func page old_func new_addr l i j moves_on slot x w memory' threads f absent bounded
        here

  marks : IsMarked (length first * 4) x.boundaries
  unfolding encode
  marks = subst (IsMarked (length first * 4)) (sym f.marks) (
      relocated-IsMarked (read32 w.memory) func (encode i) (encode j) slot.boundaries f.relocated
        fresh.0 fresh.1
        (relocates func page old_func new_addr l i j moves_on slot x w memory' threads f absent
          bounded here))

  first_some : 1 ≤ length first
  first_some =
      (by_type_arm-length (read32 w.memory) (get_type_in_arm (encode i)) (u32 (func + 8))
        (encode i)).0

  -- The words of the second instruction and the jump stand behind those of the first one.
  second-IsPlaced :
      IsPlaced (read32 hooked_memory) (page + 4 * length first) (second ++ jumped (u32 (func + 8)))
  unfolding relocate_all encode
  second-IsPlaced =
      let next : u32 (u32 (func + 8) + 4) ≡ u32 (func + 4 + 8) = omega arith in
      let split : emitted_words func page old_func new_addr l i j moves_on slot x w memory' threads
            f absent bounded here
          ≡ first ++ (second ++ jumped (u32 (func + 8))) =
        (shape func page old_func new_addr l i j moves_on slot x w memory' threads f absent bounded
          here).0
        ∙ ap
            (λ pc.
              (first ++ relocate_all (read32 w.memory) pc (map encode (j ∷ [])))
              ++ jumped (u32 (func + 8)))
            next
        ∙ append_assoc first second (jumped (u32 (func + 8))) in
      (IsPlaced-append (read32 hooked_memory) page first (second ++ jumped (u32 (func + 8))) (
        subst (IsPlaced (read32 hooked_memory) page) split (
          IsPlaced-trampoline func page old_func new_addr l i j moves_on slot x w memory' threads f
            absent bounded here))).1

  second_steps :
      (c : Cpu)
      → c.thumb ≡ false
      → Steps
          (read32 hooked_memory)
          (at (page + length first * 4) c)
          (in_order (read32 w.memory) (func + 4) (j ∷ []) c)
  unfolding AllMove
  second_steps c t =
      let e : page + 4 * length first ≡ page + length first * 4 = omega arith in
      let behind : u32 (func + 8) ≡ u32 (func + 4 + 4 * length (j ∷ [])) = omega arith in
      let room =
        (shape func page old_func new_addr l i j moves_on slot x w memory' threads f absent bounded
          here).1 in
      let at_most =
        (by_type_arm-length (read32 w.memory) (get_type_in_arm (encode i)) (u32 (func + 8))
          (encode i)).1 in
      subst
        (λ a.
          Steps (read32 hooked_memory) (at a c) (in_order (read32 w.memory) (func + 4) (j ∷ []) c))
        e
        (relocate_all-Steps (read32 w.memory) (read32 hooked_memory) (j ∷ []) (func + 4)
          (page + 4 * length first) c moves_on.2 t
          (omega (arith, l.func_aligned), omega (arith, l.page_aligned))
          (omega (arith, l.func_low), omega (arith, l.page_low, at_most))
          (subst
            (λ pc. IsPlaced (read32 hooked_memory) (page + 4 * length first) (second ++ jumped pc))
            behind second-IsPlaced))

  -- A stopped thread, and where it is afterwards.
  thread-IsFollowed :
      (t : Thread) (info : Info)
      → IsFollowed func i j w
          (after func page old_func new_addr l i j moves_on slot x w memory' threads f absent
            bounded here)
          t
          (record t { pc = process_thread_pc info (some x) enable t.pc })
  thread-IsFollowed t info =
      let target : clear_bit0 x.target_addr ≡ func =
        ap clear_bit0 f.target
        ∙ clear_bit0-aligned func l.func_aligned (omega (arith, l.func_low)) in
      let at_most =
        (by_type_arm-length (read32 w.memory) (get_type_in_arm (encode i)) (u32 (func + 8))
          (encode i)).1 in
      let low : (func + 16 < 2 ^ 32) × (page + length first * 4 < 2 ^ 32) =
        (l.func_low, omega (arith, l.page_low, at_most)) in
      let size : 0 < length first * 4 = omega (arith, first_some) in
      let to_first =
        moved_pc-some info x func page
          (moves_first func page (length first * 4) x target f.starts marks low size) in
      let to_second =
        moved_pc-some info x (func + 4) (page + length first * 4)
          (moves_second func page (length first * 4) x target f.starts marks low size) in
      record {
        at_first = λ e c m.
            subst
              (λ (mem : Memory).
                Steps (read32 mem) (at (process_thread_pc info (some x) enable t.pc) c)
                  (in_order (read32 w.memory) func (i ∷ j ∷ []) c))
              (sym (
                memory_eq func page old_func new_addr l i j moves_on slot x w memory' threads f
                  absent bounded here))
              (rw (e, to_first)
                (reaches_end func page old_func new_addr l i j moves_on slot x w memory' threads f
                  absent bounded here c m).1);
        at_second = λ e c m.
            subst
              (λ (mem : Memory).
                Steps (read32 mem) (at (process_thread_pc info (some x) enable t.pc) c)
                  (in_order (read32 w.memory) (func + 4) (j ∷ []) c))
              (sym (
                memory_eq func page old_func new_addr l i j moves_on slot x w memory' threads f
                  absent bounded here))
              (rw (e, to_second) (second_steps c m));
        elsewhere = λ low_pc n n'.
            ap (λ pc. record t { pc = pc })
              (moved_pc-none info x t.pc (
                stays func page (length first * 4) x target f.starts marks low size t.pc low_pc n
                  n'));
      }

module _ (env : Engine) (func : ℕ) (to : Replacement) (w : World) where
  -- Under the hypotheses of `hook_at-IsDetoured`, where the child process can be forked and the
  -- first unused slot of the table has no boundaries yet, take a thread that can be stopped.
  -- Hooking the function ends without a fault, and if the thread stood at the first or the second
  -- of the two instructions, it is moved to an address from which it reaches, in the memory that
  -- hooking leaves, the state that it would have reached behind them in the unhooked function; a
  -- thread that stood at any other 32-bit address stays.
  pub hook_at-IsFollowed :
      (n : ℕ)
      → is_executable_addr env.regions func ≡ true
      → is_executable_addr env.regions (env.new_func to) ≡ true
      → CanGrow (suc n) w
      → IsAbsent func w
      → IsLaidOut func (env.page func) (env.old_func to) (env.new_func to)
      → ((a : ℕ) → w.memory a < 256)
      → (i j : Instr) → AllMove (i ∷ j ∷ [])
      → IsPlaced (read32 w.memory) func (map encode (i ∷ j ∷ []))
      → env.forks ≡ true
      → IsFresh w
      → (k : ℕ) (t : Thread) → get_elem? w.threads k ≡ some t
      → t.attaches ≡ true
      → (w' : World) × (hook_at env func to w ≡ ok w')
        × (t' : Thread) × (get_elem? w'.threads k ≡ some t')
        × IsFollowed func i j w w' t t'
  unfolding do_inline_hook
  hook_at-IsFollowed n x x' g absent l bounded i j moves_on here forks fresh k t at_k attaches =
      let (slot, item, memory', threads, f, at, froze, e) =
        hook_at-world₂ env func to w n x x' g absent in
      let info =
        extended_info func (env.new_func to) (env.page func) (env.old_func to) slot item w memory'
          w.threads f absent in
      let there : get_elem? threads k
          ≡ some (record t { pc = process_thread_pc info (some item) enable t.pc }) =
        subst
          (λ ts.
            get_elem? ts k
            ≡ some (record t { pc = process_thread_pc info (some item) enable t.pc }))
          (sym froze)
          (freeze-thread env.forks item (record w { info = info; memory = memory' }) k t forks
            attaches at_k) in
      (
        _,
        e,
        record t { pc = process_thread_pc info (some item) enable t.pc },
        there,
        thread-IsFollowed func (env.page func) (env.old_func to) (env.new_func to) l i j moves_on
            slot item w memory' threads f absent bounded here (fresh slot at) t info,
      )
