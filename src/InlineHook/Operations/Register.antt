-- ===== src/InlineHook/Operations/Register.antt =====
-- The outcomes of `registerInlineHook` of inlineHook.c.
use unity_game_localization.Prelude.{
  ℕ, ◌+◌, ◌<◌, ◌≡◌, ◌≢◌, ◌⊎◌, refl, sym, subst, true, false, List, Option, none, some, arith,
  get_elem?, set, leb, if◌then◌else◌, Bool-cases, Option-cases, get_elem?-some, inl, inr, ==_of_eq,
}
use unity_game_localization.Run.{Run, Fault, fault, Run-cases, null_pointer, ◌>>=◌}
use unity_game_localization.Relocate.Thumb.{Relocated}
use unity_game_localization.Relocate.Entry.{relocate_instruction}
use unity_game_localization.InlineHook.World.{
  Status, error_not_executable, error_already_registered, error_already_hooked, registered, hooked,
  Item, Memory, World, read, write, clear_bit0, test_bit0, read32,
}
use unity_game_localization.InlineHook.Items.{find_inline_hook_item, add_inline_hook_item}
use unity_game_localization.InlineHook.Items.Laws.{
  Used, IsTable, find-some, find-none, extend-IsTable,
}
use unity_game_localization.InlineHook.Operations.{
  Region, is_executable_addr, fill_item, already, halfwords, words, bytes_of_halfwords,
  bytes_of_words, register_inline_hook,
}

module _ (maps : List Region) (mmap_result target_addr new_addr : ℕ) (proto_addr : Option ℕ) where
  abbrev IsExecutable : Type 0
  IsExecutable =
      (is_executable_addr maps target_addr ≡ true) × (is_executable_addr maps new_addr ≡ true)

  abbrev old_bytes : Memory → List ℕ
  old_bytes memory = read memory (clear_bit0 target_addr) (if test_bit0 target_addr then 12 else 8)

  -- The relocation of the target's first instructions, behind the boundaries of the slot.
  abbrev relocation : Item → Memory → Run Relocated
  relocation slot memory =
      relocate_instruction (read32 memory) target_addr
        (if test_bit0 target_addr then halfwords (old_bytes memory) else words (old_bytes memory))
        (if test_bit0 target_addr then 12 else 8) slot.boundaries

  -- A registered item with the target, its old bytes and the trampoline, and the memory in which
  -- the relocated instructions are the trampoline.
  pub record IsFilled (slot : Item) (memory : Memory) (x : Item) (memory' : Memory) : Type 0 where
    pub relocated : Relocated
    pub relocates : relocation slot memory ≡ Run.ok relocated
    pub target : x.target_addr ≡ target_addr
    pub leads : x.new_addr ≡ new_addr
    pub stores : x.proto_addr ≡ proto_addr
    pub saved : x.orig_instructions ≡ old_bytes memory
    pub saves : x.length ≡ (if test_bit0 target_addr then 12 else 8)
    pub marks : x.boundaries ≡ relocated.bounds
    pub starts : x.trampoline_instructions ≡ mmap_result
    pub waiting : x.status ≡ registered
    pub written :
        memory'
        ≡ write memory mmap_result (
            if test_bit0 target_addr
            then bytes_of_halfwords relocated.trampoline
            else bytes_of_words relocated.trampoline)

  fill_item-cases :
      (slot : Item) (memory : Memory)
      → ((e : Fault) × (relocation slot memory ≡ fault e)
          × (fill_item mmap_result target_addr new_addr proto_addr slot memory ≡ fault e))
        ⊎ ((x : Item) × (memory' : Memory) × (fill_item mmap_result target_addr new_addr proto_addr
                slot memory
              ≡ Run.ok (x, memory'))
            × IsFilled slot memory x memory')
  unfolding fill_item
  fill_item-cases slot memory = elim (Run-cases (relocation slot memory)) [
    | inr (e, broken) ↦ inl (e, broken, rw (broken, ◌>>=◌) refl)
    | inl (r, done) ↦ inr (
      _,
      _,
      rw (done, ◌>>=◌) refl,
      record {
        relocated = r;
        relocates = done;
        target = refl;
        leads = refl;
        stores = refl;
        saved = refl;
        saves = refl;
        marks = refl;
        starts = refl;
        waiting = refl;
        written = refl;
      },
    )
  ]

  -- The outcomes of a call, each with what the table holds of the target.
  pub data Registers (w : World) : Run (Status × World) → Type 0 where
    unexecutable :
        (is_executable_addr maps target_addr ≡ false) ⊎ (is_executable_addr maps new_addr ≡ false)
        → Registers w (Run.ok (error_not_executable, w))
    waiting_already :
        (pos : ℕ) (x : Item)
        → IsExecutable
        → Used w.info pos x
        → x.target_addr ≡ target_addr
        → x.status ≡ registered
        → Registers w (Run.ok (error_already_registered, w))
    hooked_already :
        (pos : ℕ) (x : Item)
        → IsExecutable
        → Used w.info pos x
        → x.target_addr ≡ target_addr
        → x.status ≡ hooked
        → Registers w (Run.ok (error_already_hooked, w))
    full :
        IsExecutable
        → ((i : ℕ) (y : Item) → Used w.info i y → y.target_addr ≢ target_addr)
        → w.info.size ≡ 1024
        → Registers w (fault null_pointer)
    overrun :
        (slot : Item) (e : Fault)
        → IsExecutable
        → ((i : ℕ) (y : Item) → Used w.info i y → y.target_addr ≢ target_addr)
        → get_elem? w.info.item w.info.size ≡ some slot
        → relocation slot w.memory ≡ fault e
        → Registers w (fault e)
    done :
        (slot x : Item) (w' : World)
        → IsExecutable
        → ((i : ℕ) (y : Item) → Used w.info i y → y.target_addr ≢ target_addr)
        → get_elem? w.info.item w.info.size ≡ some slot
        → IsFilled slot w.memory x w'.memory
        → w'.info ≡ record { item = set w.info.item w.info.size x; size = w.info.size + 1 }
        → IsTable w'.info
        → (w'.threads ≡ w.threads) × (w'.flushed ≡ w.flushed)
        → Registers w (Run.ok (Status.ok, w'))

  module _ (w : World) (t : IsTable w.info) where
    abbrev call : Run (Status × World)
    call = register_inline_hook maps mmap_result target_addr new_addr proto_addr w

    executable :
        IsExecutable
        → find_inline_hook_item w.info target_addr ≡ none
        → w.info.size < 1024
        → Registers w call
    unfolding register_inline_hook add_inline_hook_item
    executable x absent room =
        let (slot, at) = get_elem?-some w.info.item w.info.size (omega (arith, t.slots)) in
        let open_table : leb 1024 w.info.size ≡ false = ground arith in
        let none_has = find-none w.info target_addr absent in
        elim (fill_item-cases slot w.memory) [
          | inl (e, broken, faults) ↦
              rw (x.0, x.1, register_inline_hook)
                (rw (absent, register_inline_hook)
                  (rw (open_table, register_inline_hook)
                    (rw (at, register_inline_hook)
                      (rw (faults, ◌>>=◌) (overrun slot e x none_has at broken)))))
          | inr (item, memory, filled, f) ↦
              rw (x.0, x.1, register_inline_hook)
                (rw (absent, register_inline_hook)
                  (rw (open_table, register_inline_hook)
                    (rw (at, register_inline_hook)
                      (rw (filled, ◌>>=◌)
                        (done slot item _ x none_has at f refl
                          (extend-IsTable w.info item t room
                            (λ i y u.
                              subst (λ (a : ℕ). y.target_addr ≢ a) (sym f.target) (none_has i y u))
                            f.waiting)
                          (refl, refl))))))
        ]

    found :
        IsExecutable
        → (pos : ℕ) (x : Item) → find_inline_hook_item w.info target_addr ≡ some pos
        → Used w.info pos x
        → x.target_addr ≡ target_addr
        → Registers w call
    unfolding register_inline_hook already
    found y pos x at u m = elim (t.known pos x u) [
      | inl r ↦
          rw (y.0, y.1, register_inline_hook)
            (rw (at, register_inline_hook)
              (rw (u.here, register_inline_hook)
                (rw (==_of_eq x.status registered r) (waiting_already pos x y u m r))))
      | inr h ↦
          rw (y.0, y.1, register_inline_hook)
            (rw (at, register_inline_hook)
              (rw (u.here, register_inline_hook) (rw h (hooked_already pos x y u m h))))
    ]

    packed :
        IsExecutable
        → find_inline_hook_item w.info target_addr ≡ none
        → w.info.size ≡ 1024
        → Registers w call
    unfolding register_inline_hook add_inline_hook_item
    packed y absent size =
        let closed : leb 1024 w.info.size ≡ true = ground arith in
        rw (y.0, y.1, register_inline_hook)
          (rw (absent, register_inline_hook)
            (rw (closed, register_inline_hook) (full y (find-none w.info target_addr absent) size)))

    -- On a well-formed table a call of `registerInlineHook` ends in one of these ways. The target
    -- or the new function is not executable, the status that says so is returned, and nothing
    -- changes. Otherwise both are executable. A used item has the target and is registered or
    -- hooked, the status that says so is returned, and nothing changes. Otherwise no used item has
    -- the target. All 1024 slots are in use, and NULL is written through; or relocating the
    -- target's first instructions with the boundaries of the first unused slot faults, and so does
    -- the call; or it returns ok, and that slot holds a registered item with the target, the new
    -- function, the caller's variable, the target's old bytes and their number, the boundaries of
    -- the relocation, and the trampoline's page, to which the relocated instructions and nothing
    -- else are written; the other slots, the threads and the flushed ranges stay as they are, and
    -- the table stays well formed.
    pub register_inline_hook-Registers :
        Registers w (register_inline_hook maps mmap_result target_addr new_addr proto_addr w)
    unfolding register_inline_hook
    register_inline_hook-Registers = elim (Bool-cases (is_executable_addr maps target_addr)) [
      | inr n ↦ rw (n, register_inline_hook) (unexecutable (inl n))
      | inl y ↦ elim (Bool-cases (is_executable_addr maps new_addr)) [
        | inr n ↦ rw (y, n, register_inline_hook) (unexecutable (inr n))
        | inl y' ↦ elim (Option-cases (find_inline_hook_item w.info target_addr)) [
          | inr (pos, e) ↦
              let (x, u, m) = find-some w.info target_addr pos e in found (y, y') pos x e u m
          | inl absent ↦ elim (Bool-cases (leb 1024 w.info.size)) [
            | inl over ↦ packed (y, y') absent (let f = t.fits in ground arith)
            | inr room ↦ executable (y, y') absent (ground arith)
          ]
        ]
      ]
    ]
