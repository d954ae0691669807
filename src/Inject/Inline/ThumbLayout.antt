-- ===== src/Inject/Inline/ThumbLayout.antt =====
-- What one hook of inject_inlinehook.cpp writes for a target in Thumb mode, halfword by halfword:
-- the trampoline, the stored address and the jump.
use unity_game_localization.Prelude.{
  ℕ, ◌+◌, ◌-◌, ◌*◌, ◌%◌, ◌^◌, ◌≤◌, ◌<◌, ◌≡◌, ◌⊎◌, refl, sym, subst, ap, ap₂, ◌∙◌, ◌==◌, List, [],
  ◌∷◌, ◌++◌, some, arith, length, length-append, inl, inr, if◌then◌else◌, Bool-cases,
}
use unity_game_localization.Prelude.Bits.{u32}
use unity_game_localization.Run.{Run, ok}
use unity_game_localization.Relocate.Thumb.{Relocated, relocate_instruction_in_thumb}
use unity_game_localization.Relocate.Entry.{relocate_instruction}
use unity_game_localization.Relocate.Thumb16.Machine.{Instr, word_at, IsPlaced}
use unity_game_localization.Relocate.Thumb16.Words.{jumped}
use unity_game_localization.Relocate.Thumb.Whole.{AllMove, codes, relocate_all, IsRest}
use unity_game_localization.Relocate.Thumb.Trampoline.{length-relocate_all}
use unity_game_localization.Relocate.Thumb.Bounds.{
  AreHalves, AreHalves-append, AreHalves-jumped, relocate_all-AreHalves,
}
use unity_game_localization.Relocate.Thumb.Refine.{relocate_instruction_in_thumb-relocate_all}
use unity_game_localization.InlineHook.World.{
  Item, Thread, Memory, World, read, write, read16, read32, bytes32, clear_bit0, set_bit0,
}
use unity_game_localization.InlineHook.Operations.{
  halfwords, bytes_of_halfwords, proto_value, patch, store_proto, do_inline_hook, bytes_of_words,
}
use unity_game_localization.InlineHook.Operations.Halves.{
  clear_bit0-odd, test_bit0-odd, set_bit0-even, write-IsPlaced, write-IsPlaced_apart,
  read32-word_at, halfwords-read,
}
use unity_game_localization.InlineHook.Operations.Placed
use unity_game_localization.Relocate.Arm.Bounds.{AreWords}
use unity_game_localization.InlineHook.Operations.Fill.{Fills, length-bytes_of_halfwords}
use unity_game_localization.InlineHook.Operations.Absent.{IsAbsent}
use unity_game_localization.Inject.Inline.Outcome.{world₂, stores_proto}
use unity_game_localization.Inject.Inline.Layout.{read32-bounded, apart_shorter}

-- The target with the Thumb bit, the page of the trampoline and the variable that its address is
-- stored in: below 2 ^ 32, and apart from one another.
pub record IsThumbLaidOut (func page old_func new_addr : ℕ) : Type 0 where
  pub func_odd : func % 2 ≡ 1
  pub page_aligned : page % 4 ≡ 0
  pub func_low : func + 32 < 2 ^ 32
  pub page_low : page + 160 < 2 ^ 32
  pub new_low : new_addr < 2 ^ 32
  pub page_func : (page + 104 ≤ func - 1) ⊎ (func - 1 + 12 ≤ page)
  pub page_old : (page + 104 ≤ old_func) ⊎ (old_func + 4 ≤ page)
  pub old_apart : (old_func + 4 ≤ func - 1) ⊎ (func - 1 + 12 ≤ old_func)

module _ (func page old_func new_addr : ℕ) (l : IsThumbLaidOut func page old_func new_addr)
    (is : List Instr) (rest : List ℕ) (moves : AllMove is) (cut : IsRest rest)
    (six : length (codes is ++ rest) ≡ 6) (slot x : Item) (w : World) (memory' : Memory)
    (threads : List Thread) (f : Fills page func new_addr (some old_func) slot w.memory x memory')
    (absent : IsAbsent func w) (bounded : (a : ℕ) → w.memory a < 256)
    (here : IsPlaced (read16 w.memory) (func - 1) (codes is ++ rest)) where
  abbrev orig : List ℕ
  orig = codes is ++ rest

  abbrev load : ℕ → ℕ
  load = word_at (read16 w.memory)

  abbrev pub in_thumb : Run Relocated
  in_thumb =
      relocate_instruction_in_thumb (word_at (read16 w.memory)) (func - 1) (codes is ++ rest)
        (2 * length (codes is ++ rest)) slot.boundaries

  place : clear_bit0 func ≡ func - 1
  place = clear_bit0-odd func l.func_odd (omega (arith, l.func_low))

  copied : halfwords (read w.memory (clear_bit0 func) 12) ≡ orig
  copied =
      ap₂ (λ a n. halfwords (read w.memory a n)) place
        (let e : 12 ≡ 2 * length orig = omega (arith, six) in e)
      ∙ halfwords-read w.memory (func - 1) orig here

  pub relocates : in_thumb ≡ ok f.relocated
  unfolding relocate_instruction
  relocates =
      ap
        (λ (ld : ℕ → ℕ).
          relocate_instruction_in_thumb ld (func - 1) orig (2 * length orig) slot.boundaries)
        (sym (read32-word_at w.memory))
      ∙ (ap₂
            (λ os n.
              relocate_instruction_in_thumb (read32 w.memory) (func - 1) os n slot.boundaries)
            (sym copied) (let e : 2 * length orig ≡ 12 = omega (arith, six) in e)
          ∙ rw (test_bit0-odd func l.func_odd) at f.relocates)

  abbrev pub emitted_halves : List ℕ
  emitted_halves = f.relocated.trampoline

  abbrev behind : ℕ
  behind = u32 (func - 1 + length (codes is) * 2 + 1)

  shape : emitted_halves ≡ relocate_all load (func - 1) is ++ jumped behind
  shape =
      let (q, e, s) =
        relocate_instruction_in_thumb-relocate_all load is rest (func - 1) slot.boundaries moves cut
          (omega (arith, six)) (omega (arith, six, f.spare)) in
      let same : q ≡ f.relocated = cc (sym e ∙ relocates) in
      subst (λ (q : Relocated). q.trampoline ≡ relocate_all load (func - 1) is ++ jumped behind)
        same s

  emitted-AreHalves : AreHalves emitted_halves
  emitted-AreHalves = subst AreHalves (sym shape) (
      AreHalves-append _ _
        (relocate_all-AreHalves load load_low is (func - 1) moves (omega (arith, l.func_odd)))
        (AreHalves-jumped behind (omega arith)))
    where
      load_low : (a : ℕ) → load a < 2 ^ 32
      load_low a =
          subst (λ (ld : ℕ → ℕ). ld a < 2 ^ 32) (read32-word_at w.memory)
            (read32-bounded w.memory bounded a)

  emitted_short : 2 * length emitted_halves ≤ 104
  emitted_short = omega (
    arith,
    ap (λ (ws : List ℕ). length ws) shape,
    length-append (relocate_all load (func - 1) is) (jumped behind),
    length-relocate_all load (func - 1) is moves,
    length-append (codes is) rest,
    six,
  )

  -- The jump, behind a NOP where the target is not aligned.
  abbrev pub jump_halves : List ℕ
  jump_halves = if (func - 1) % 4 == 0 then jumped new_addr else 0xBF00 ∷ jumped new_addr

  -- The memory behind the three writes.
  abbrev memory₁ : Memory
  memory₁ = write w.memory page (bytes_of_halfwords emitted_halves)

  abbrev memory₂ : Memory
  memory₂ = write memory₁ old_func (bytes32 (page + 1))

  abbrev pub memory₃ : Memory
  memory₃ = write memory₂ (func - 1) (bytes_of_halfwords jump_halves)

  abbrev pub after : World
  after = world₂ func new_addr page old_func slot x w memory' threads f absent

  memory'-memory₁ : memory' ≡ memory₁
  memory'-memory₁ =
      f.written ∙ ap (write w.memory page) (f.holds ∙ rw (test_bit0-odd func l.func_odd) refl)

  proto : proto_value x ≡ page + 1
  proto =
      rw (f.target, test_bit0-odd func l.func_odd)
        (ap set_bit0 f.starts ∙ set_bit0-even page (omega (arith, l.page_aligned)))

  patched : patch x ≡ bytes_of_halfwords jump_halves
  unfolding patch
  patched = rw (f.target, test_bit0-odd func l.func_odd, f.leads, place) refl

  pub memory_eq : after.memory ≡ memory₃
  unfolding do_inline_hook
  memory_eq =
      let stored : store_proto x memory' ≡ memory₂ =
        stores_proto func new_addr page old_func slot x w memory' threads f absent
        ∙ ap₂ (λ (m : Memory) v. write m old_func (bytes32 v)) memory'-memory₁ proto in
      ap (λ (m : Memory). write m (clear_bit0 x.target_addr) (patch x)) stored
      ∙ ap₂ (λ a bs. write memory₂ a bs) (ap clear_bit0 f.target ∙ place) patched

  length-jump : 2 * length jump_halves ≤ 10
  length-jump = elim (Bool-cases ((func - 1) % 4 == 0)) [
    | inl even ↦ rw even (omega arith)
    | inr odd ↦ rw odd (omega arith)
  ]

  jump_short : length (bytes_of_halfwords jump_halves) ≤ 12
  jump_short = omega (arith, length-jump, length-bytes_of_halfwords jump_halves)

  -- Words and bytes in front of or behind the jump.
  before_jump :
      (start n m : ℕ)
      → m ≤ n
      → (start + n ≤ func - 1) ⊎ (func - 1 + 12 ≤ start)
      → (start + m ≤ func - 1) ⊎ (func - 1 + length (bytes_of_halfwords jump_halves) ≤ start)
  before_jump start n m h (inl b) = inl (omega arith)
  before_jump start n m h (inr b) = inr (omega (arith, jump_short))

  pub emitted-IsPlaced : IsPlaced (read16 memory₃) page emitted_halves
  emitted-IsPlaced =
      write-IsPlaced_apart memory₂ page emitted_halves (func - 1) (bytes_of_halfwords jump_halves)
        (before_jump page 104 (2 * length emitted_halves) emitted_short l.page_func)
        (write-IsPlaced_apart memory₁ page emitted_halves old_func (bytes32 (page + 1))
          (apart_shorter page 104 (2 * length emitted_halves) old_func 4 emitted_short l.page_old)
          (write-IsPlaced w.memory page emitted_halves emitted-AreHalves))

  pub stored_proto : read32 memory₃ old_func ≡ page + 1
  unfolding bytes_of_words AreWords
  stored_proto =
      let page_word : AreWords ((page + 1) ∷ []) = omega (arith, l.page_low) in
      ap (read32 memory₃) (let e : old_func ≡ old_func + 4 * 0 = omega arith in e)
      ∙ Placed.write-IsPlaced_apart memory₂ old_func ((page + 1) ∷ []) (func - 1)
          (bytes_of_halfwords jump_halves) (before_jump old_func 4 4 (omega arith) l.old_apart)
          (Placed.write-IsPlaced memory₁ old_func ((page + 1) ∷ []) page_word) 0 (page + 1) refl

  pub jump-IsPlaced : IsPlaced (read16 memory₃) (func - 1) jump_halves
  unfolding AreHalves
  jump-IsPlaced =
      write-IsPlaced memory₂ (func - 1) jump_halves (elim (Bool-cases ((func - 1) % 4 == 0)) [
        | inl even ↦ rw even (AreHalves-jumped new_addr l.new_low)
        | inr odd ↦ rw odd (omega arith, AreHalves-jumped new_addr l.new_low)
      ])
