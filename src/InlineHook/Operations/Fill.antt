-- ===== src/InlineHook/Operations/Fill.antt =====
-- What `registerInlineHook` of inlineHook.c fills into a slot, and how many bytes of a trampoline
-- it writes.
use unity_game_localization.Prelude.{
  ℕ, ◌-◌, ◌*◌, ◌≤◌, ◌≡◌, refl, ap, Bool, List, [], ◌∷◌, Option, arith, length, length-append,
  if◌then◌else◌, Bool-cases, inl, inr,
}
use unity_game_localization.Run.{Run, ◌>>=◌}
use unity_game_localization.Relocate.Boundaries.{Boundaries}
use unity_game_localization.Relocate.Thumb.{Relocated}
use unity_game_localization.Relocate.Thumb.Laws.{IsCopied, relocate_instruction_in_thumb-IsCopied}
use unity_game_localization.Relocate.Arm.Laws.{relocate_instruction_in_arm-relocate_all}
use unity_game_localization.Relocate.Entry.{relocate_instruction}
use unity_game_localization.InlineHook.World.{
  registered, Item, Memory, read, write, read32, clear_bit0, test_bit0,
}
use unity_game_localization.InlineHook.Operations.{
  fill_item, halfwords, words, bytes_of_halfwords, bytes_of_words,
}

pub length-bytes_of_halfwords : (ws : List ℕ) → length (bytes_of_halfwords ws) ≡ 2 * length ws
unfolding bytes_of_halfwords
length-bytes_of_halfwords [] = refl
length-bytes_of_halfwords (w ∷ ws) = omega (arith, length-bytes_of_halfwords ws)

pub length-bytes_of_words : (ws : List ℕ) → length (bytes_of_words ws) ≡ 4 * length ws
unfolding bytes_of_words
length-bytes_of_words [] = refl
length-bytes_of_words (w ∷ ws) = omega (arith, length-bytes_of_words ws)

-- The eight bytes that are saved in Arm mode are two words.
length-words-read : (memory : Memory) (from : ℕ) → length (words (read memory from 8)) ≡ 2
unfolding words read
length-words-read memory from = refl

module _ (mmap_result target_addr new_addr : ℕ) (proto_addr : Option ℕ) (slot : Item)
    (memory : Memory) where
  abbrev thumb : Bool
  thumb = test_bit0 target_addr

  abbrev saved : List ℕ
  saved = read memory (clear_bit0 target_addr) (if thumb then 12 else 8)

  -- What the slot's item becomes relocated.
  abbrev pub relocation : Run Relocated
  relocation =
      relocate_instruction (read32 memory) target_addr
        (if thumb then halfwords saved else words saved) (if thumb then 12 else 8) slot.boundaries

  abbrev pub bytes : Relocated → List ℕ
  bytes r = if thumb then bytes_of_halfwords r.trampoline else bytes_of_words r.trampoline

  -- The item that the slot gets, with the boundaries of the relocation, and the memory.
  pub record Fills (x : Item) (memory' : Memory) : Type 0 where
    pub relocated : Relocated
    pub relocates : relocation ≡ Run.ok relocated
    pub spare : slot.boundaries.count ≤ 14
    pub marks : x.boundaries ≡ relocated.bounds
    pub keeps : x.orig_instructions ≡ saved
    pub trampoline : List ℕ
    pub holds : trampoline ≡ bytes relocated
    pub short : length trampoline ≤ 104
    pub written : memory' ≡ write memory mmap_result trampoline
    pub target : x.target_addr ≡ target_addr
    pub leads : x.new_addr ≡ new_addr
    pub stores : x.proto_addr ≡ proto_addr
    pub starts : x.trampoline_instructions ≡ mmap_result
    pub waiting : x.status ≡ registered

  thumb_short :
      (first : Boundaries) (r : Relocated)
      → IsCopied (target_addr - 1) 12 first r
      → length (bytes_of_halfwords r.trampoline) ≤ 104
  thumb_short first r d = omega (
    arith,
    length-bytes_of_halfwords r.trampoline,
    ap (λ (ws : List ℕ). length ws) d.trampoline_eq,
    length-append d.body (0xF8DF ∷ 0xF000 ∷ d.low ∷ d.high ∷ []),
    d.bounded,
    d.nearly_all,
  )

  arm_short :
      (r : Relocated) → length r.trampoline ≤ 14 → length (bytes_of_words r.trampoline) ≤ 104
  arm_short r l = omega (arith, length-bytes_of_words r.trampoline)

  -- Both relocations end, with no more bytes than these.
  ends :
      slot.boundaries.count ≤ 14
      → (r : Relocated) × (relocation ≡ Run.ok r) × (length (bytes r) ≤ 104)
  unfolding relocate_instruction
  ends room = elim (Bool-cases thumb) [
    | inl y ↦
        let (r, e, d) =
          relocate_instruction_in_thumb-IsCopied (read32 memory) (target_addr - 1)
            (halfwords (read memory (clear_bit0 target_addr) 12)) 12 slot.boundaries (omega arith)
            (omega arith) in
        (r, rw y e, rw y (thumb_short slot.boundaries r d))
    | inr n ↦
        let (r, e, t, _, m, c) =
          relocate_instruction_in_arm-relocate_all (read32 memory) target_addr
            (words (read memory (clear_bit0 target_addr) 8)) 8 slot.boundaries
            (omega (arith, length-words-read memory (clear_bit0 target_addr))) (omega arith) in
        (r, rw n e, rw n (arm_short r (omega (arith, m))))
  ]

  -- With room for a boundary for each halfword of Thumb mode, the slot is filled without a fault.
  pub fill_item-Fills :
      slot.boundaries.count ≤ 14
      → (x : Item) × (memory' : Memory) × (fill_item mmap_result target_addr new_addr proto_addr
            slot memory
          ≡ Run.ok (x, memory'))
        × Fills x memory'
  unfolding fill_item
  fill_item-Fills room =
      let (r, e, l) = ends room in
      (
        record {
          target_addr = target_addr;
          new_addr = new_addr;
          proto_addr = proto_addr;
          orig_instructions = saved;
          boundaries = r.bounds;
          trampoline_instructions = mmap_result;
          length = if thumb then 12 else 8;
          status = registered;
        },
        _,
        rw (e, ◌>>=◌) refl,
        record {
          relocated = r;
          relocates = e;
          spare = room;
          marks = refl;
          keeps = refl;
          trampoline = bytes r;
          holds = refl;
          short = l;
          written = refl;
          target = refl;
          leads = refl;
          stores = refl;
          starts = refl;
          waiting = refl;
        },
      )
