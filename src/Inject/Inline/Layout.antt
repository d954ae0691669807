-- ===== src/Inject/Inline/Layout.antt =====
-- What one hook of inject_inlinehook.cpp writes for a target in Arm mode, word by word: the
-- trampoline, the stored address and the jump.
use unity_game_localization.Prelude.{
  ℕ, ◌+◌, ◌*◌, ◌%◌, ◌^◌, ◌≤◌, ◌<◌, ◌≡◌, ◌⊎◌, refl, sym, subst, ap, ap₂, ◌∙◌, List, [], ◌∷◌, ◌++◌,
  map, some, arith, length, inl, inr,
}
use unity_game_localization.Prelude.Bits.{u32}
use unity_game_localization.Run.{Run, ok}
use unity_game_localization.Relocate.Thumb.{Relocated}
use unity_game_localization.Relocate.Entry.{relocate_instruction}
use unity_game_localization.Relocate.Arm.{relocate_instruction_in_arm}
use unity_game_localization.Relocate.Arm.Laws.{
  relocate_all, relocate_instruction_in_arm-relocate_all,
}
use unity_game_localization.Relocate.Arm.Machine.{Instr, encode}
use unity_game_localization.Relocate.Arm.Words.{jumped}
use unity_game_localization.Relocate.Arm.Refine.{IsPlaced}
use unity_game_localization.Relocate.Arm.Whole.{AllMove}
use unity_game_localization.Relocate.Arm.Bounds.{
  AreWords, AreWords-append, AreWords-jumped, relocate_all-AreWords,
}
use unity_game_localization.InlineHook.World.{
  Item, Thread, Memory, World, read, write, read32, bytes32, clear_bit0,
}
use unity_game_localization.InlineHook.Operations.{
  words, bytes_of_words, proto_value, patch, store_proto, do_inline_hook,
}
use unity_game_localization.InlineHook.Operations.Placed.{
  clear_bit0-aligned, test_bit0-aligned, write-IsPlaced, write-IsPlaced_apart, words-read,
}
use unity_game_localization.InlineHook.Operations.Fill.{Fills}
use unity_game_localization.InlineHook.Operations.Absent.{IsAbsent}
use unity_game_localization.Inject.Inline.Outcome.{world₂, stores_proto}

-- The target in Arm mode, the page of the trampoline and the variable that its address is stored
-- in: aligned addresses below 2 ^ 32, and apart from one another.
pub record IsLaidOut (func page old_func new_addr : ℕ) : Type 0 where
  pub func_aligned : func % 4 ≡ 0
  pub page_aligned : page % 4 ≡ 0
  pub func_low : func + 16 < 2 ^ 32
  pub page_low : page + 104 < 2 ^ 32
  pub new_low : new_addr < 2 ^ 32
  pub page_func : (page + 104 ≤ func) ⊎ (func + 8 ≤ page)
  pub page_old : (page + 104 ≤ old_func) ⊎ (old_func + 4 ≤ page)
  pub old_apart : (old_func + 4 ≤ func) ⊎ (func + 8 ≤ old_func)

-- Words of bytes have 32 bits.
pub read32-bounded : (m : Memory) → ((a : ℕ) → m a < 256) → (a : ℕ) → read32 m a < 2 ^ 32
read32-bounded m b a = omega (arith, b a, b (a + 1), b (a + 2), b (a + 3))

-- What is apart from a range is apart from a shorter one, on either side.
pub apart_shorter :
    (start n n' to m : ℕ)
    → n' ≤ n
    → (start + n ≤ to) ⊎ (to + m ≤ start)
    → (start + n' ≤ to) ⊎ (to + m ≤ start)
apart_shorter start n n' to m h (inl b) = inl (omega arith)
apart_shorter start n n' to m h (inr b) = inr b

module _ (func page old_func new_addr : ℕ) (l : IsLaidOut func page old_func new_addr) (i j : Instr)
    (moves : AllMove (i ∷ j ∷ [])) (slot x : Item) (w : World) (memory' : Memory)
    (threads : List Thread) (f : Fills page func new_addr (some old_func) slot w.memory x memory')
    (absent : IsAbsent func w) (bounded : (a : ℕ) → w.memory a < 256)
    (here : IsPlaced (read32 w.memory) func (map encode (i ∷ j ∷ []))) where
  abbrev pub is : List Instr
  is = i ∷ j ∷ []

  abbrev pub in_arm : Run Relocated
  in_arm = relocate_instruction_in_arm (read32 w.memory) func (map encode is) 8 slot.boundaries

  copied : words (read w.memory (clear_bit0 func) 8) ≡ map encode is
  unfolding encode
  copied = rw (clear_bit0-aligned func l.func_aligned (omega (arith, l.func_low))) (
      words-read w.memory func
      ∙ ap₂ (λ a b. a ∷ b ∷ [])
          (ap (read32 w.memory) (let e : func ≡ func + 4 * 0 = omega arith in e)
            ∙ here 0 (encode i) refl)
          (here 1 (encode j) refl))

  pub relocates : in_arm ≡ ok f.relocated
  unfolding relocate_instruction
  relocates =
      ap (λ os. relocate_instruction_in_arm (read32 w.memory) func os 8 slot.boundaries)
        (sym copied)
      ∙ rw (test_bit0-aligned func l.func_aligned) at f.relocates

  abbrev pub emitted_words : List ℕ
  emitted_words = f.relocated.trampoline

  pub shape :
      (emitted_words
        ≡ relocate_all (read32 w.memory) (u32 (func + 8)) (map encode is)
          ++ jumped (u32 (func + 8)))
      × (length emitted_words ≤ 14)
  unfolding encode
  shape =
      let (r, e, t, _, short, _) =
        relocate_instruction_in_arm-relocate_all (read32 w.memory) func (map encode is) 8
          slot.boundaries (omega arith) (omega (arith, f.spare)) in
      let same : r ≡ f.relocated = cc (sym e ∙ relocates) in
      subst
        (λ (q : Relocated).
          (q.trampoline
            ≡ relocate_all (read32 w.memory) (u32 (func + 8)) (map encode is)
              ++ jumped (u32 (func + 8)))
          × (length q.trampoline ≤ 14))
        same (t, short)

  AreWords-emitted : AreWords emitted_words
  AreWords-emitted = subst AreWords (sym shape.0) (
      AreWords-append _ _
        (relocate_all-AreWords (read32 w.memory) (read32-bounded w.memory bounded) is func moves)
        (AreWords-jumped (u32 (func + 8)) (omega arith)))

  abbrev pub jump : List ℕ
  jump = jumped new_addr

  -- The memory behind the three writes.
  abbrev memory₁ : Memory
  memory₁ = write w.memory page (bytes_of_words emitted_words)

  abbrev memory₂ : Memory
  memory₂ = write memory₁ old_func (bytes_of_words (page ∷ []))

  abbrev pub memory₃ : Memory
  memory₃ = write memory₂ func (bytes_of_words jump)

  abbrev pub after : World
  after = world₂ func new_addr page old_func slot x w memory' threads f absent

  memory'-memory₁ : memory' ≡ memory₁
  memory'-memory₁ =
      f.written
      ∙ ap (write w.memory page) (f.holds ∙ rw (test_bit0-aligned func l.func_aligned) refl)

  proto : proto_value x ≡ page
  proto = rw (f.target, test_bit0-aligned func l.func_aligned) f.starts

  patched : patch x ≡ bytes_of_words jump
  unfolding patch encode
  patched = rw (f.target, test_bit0-aligned func l.func_aligned, f.leads) refl

  place : clear_bit0 x.target_addr ≡ func
  place =
      ap clear_bit0 f.target ∙ clear_bit0-aligned func l.func_aligned (omega (arith, l.func_low))

  pub memory_eq : after.memory ≡ memory₃
  unfolding do_inline_hook bytes_of_words
  memory_eq =
      let stored : store_proto x memory' ≡ memory₂ =
        stores_proto func new_addr page old_func slot x w memory' threads f absent
        ∙ ap₂ (λ (m : Memory) v. write m old_func (bytes32 v)) memory'-memory₁ proto in
      ap (λ (m : Memory). write m (clear_bit0 x.target_addr) (patch x)) stored
      ∙ ap₂ (λ a bs. write memory₂ a bs) place patched

  short : 4 * length emitted_words ≤ 56
  short = omega (arith, shape.1)

  pub IsPlaced-trampoline : IsPlaced (read32 memory₃) page emitted_words
  unfolding bytes_of_words
  IsPlaced-trampoline =
      write-IsPlaced_apart memory₂ page emitted_words func (bytes_of_words jump)
        (apart_shorter page 104 (4 * length emitted_words) func 8 (omega (arith, short))
          l.page_func)
        (write-IsPlaced_apart memory₁ page emitted_words old_func (bytes_of_words (page ∷ []))
          (apart_shorter page 104 (4 * length emitted_words) old_func 4 (omega (arith, short))
            l.page_old)
          (write-IsPlaced w.memory page emitted_words AreWords-emitted))

  pub placed_proto : read32 memory₃ old_func ≡ page
  unfolding bytes_of_words AreWords
  placed_proto =
      let page_word : AreWords (page ∷ []) = omega (arith, l.page_low) in
      ap (read32 memory₃) (let e : old_func ≡ old_func + 4 * 0 = omega arith in e)
      ∙ write-IsPlaced_apart memory₂ old_func (page ∷ []) func (bytes_of_words jump) l.old_apart
          (write-IsPlaced memory₁ old_func (page ∷ []) page_word) 0 page refl

  pub IsPlaced-jump : IsPlaced (read32 memory₃) func jump
  IsPlaced-jump = write-IsPlaced memory₂ func jump (AreWords-jumped new_addr l.new_low)
