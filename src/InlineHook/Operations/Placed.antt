-- ===== src/InlineHook/Operations/Placed.antt =====
-- Words in the bytes of the process's memory: what `memcpy` writes, read back as 32-bit words.
use unity_game_localization.Prelude.{
  ℕ, zero, suc, ◌+◌, ◌-◌, ◌*◌, ◌/◌, ◌%◌, ◌^◌, ◌≤◌, ◌<◌, ◌≡◌, ◌⊎◌, refl, ap, ap₂, ◌∙◌, ◌==◌,
  if◌then◌else◌, List, [], ◌∷◌, arith, length, some, get_elem?, inl, inr, ==_of_eq, bit_and, false,
}
use unity_game_localization.Prelude.Bits.{bit_and-split, bit_and-low}
use unity_game_localization.Relocate.Arm.Refine.{IsPlaced}
use unity_game_localization.Relocate.Arm.Bounds.{AreWords}
use unity_game_localization.InlineHook.World.{Memory, read, write, read32, clear_bit0, test_bit0}
use unity_game_localization.InlineHook.Operations.{words, bytes_of_words}
use unity_game_localization.InlineHook.Operations.Patch.{write-outside}

-- An aligned address has no bit 0.
pub clear_bit0-aligned : (a : ℕ) → a % 4 ≡ 0 → a < 2 ^ 32 → clear_bit0 a ≡ a
clear_bit0-aligned a h l = omega (
  arith,
  bit_and-split 1 (a / 2) (2 ^ 31 - 1) 0 0 (omega arith) (omega arith),
  bit_and-low 31 (a / 2),
  ap (λ x. bit_and x 0xFFFFFFFE) (let e : a / 2 * 2 ^ 1 + 0 ≡ a = omega arith in e),
)

pub test_bit0-aligned : (a : ℕ) → a % 4 ≡ 0 → test_bit0 a ≡ false
test_bit0-aligned a h = ground (arith, bit_and-low 1 a)

-- A written byte is read back.
pub write-at :
    (mem : Memory) (to : ℕ) (bs : List ℕ) (k b : ℕ)
    → get_elem? bs k ≡ some b
    → write mem to bs (to + k) ≡ b
unfolding write
write-at mem to [] k b h = absurd (cc h)
write-at mem to (x ∷ bs) zero b h =
    let mem' : Memory = λ a. if a == to then x else mem a in
    let e : to + 0 ≡ to = omega arith in
    let b_eq : x ≡ b = cc h in
    rw e (write-outside mem' (to + 1) bs to (inl (omega arith)) ∙ (rw (==_of_eq to to refl) b_eq))
write-at mem to (x ∷ bs) (suc k) b h =
    let e : to + suc k ≡ to + 1 + k = omega arith in
    rw e (write-at (λ a. if a == to then x else mem a) (to + 1) bs k b h)

-- The bytes of the words, four for each.
word_bytes :
    (ws : List ℕ) (k w : ℕ)
    → get_elem? ws k ≡ some w
    → (get_elem? (bytes_of_words ws) (4 * k) ≡ some (w % 256))
      × (get_elem? (bytes_of_words ws) (suc (4 * k)) ≡ some (w / 2 ^ 8 % 256))
      × (get_elem? (bytes_of_words ws) (suc (suc (4 * k))) ≡ some (w / 2 ^ 16 % 256))
      × (get_elem? (bytes_of_words ws) (suc (suc (suc (4 * k)))) ≡ some (w / 2 ^ 24 % 256))
unfolding bytes_of_words
word_bytes [] k w h = absurd (cc h)
word_bytes (x ∷ ws) zero w h = let e : x ≡ w = cc h in rw e (refl, refl, refl, refl)
word_bytes (x ∷ ws) (suc k) w h =
    let s : 4 * suc k ≡ suc (suc (suc (suc (4 * k)))) = omega arith in rw s (word_bytes ws k w h)

word-below : (ws : List ℕ) (k w : ℕ) → AreWords ws → get_elem? ws k ≡ some w → w < 2 ^ 32
unfolding AreWords
word-below [] k w a h = absurd (cc h)
word-below (x ∷ ws) zero w a h = let e : x ≡ w = cc h in rw e at (a.0)
word-below (x ∷ ws) (suc k) w a h = word-below ws k w a.1 h

pub get_elem?-below : (ws : List ℕ) (k w : ℕ) → get_elem? ws k ≡ some w → k < length ws
get_elem?-below [] k w h = absurd (cc h)
get_elem?-below (x ∷ ws) zero w h = omega arith
get_elem?-below (x ∷ ws) (suc k) w h = omega (arith, get_elem?-below ws k w h)

-- Words that are written byte by byte are placed.
pub write-IsPlaced :
    (mem : Memory) (start : ℕ) (ws : List ℕ)
    → AreWords ws
    → IsPlaced (read32 (write mem start (bytes_of_words ws))) start ws
write-IsPlaced mem start ws a k w h =
    let bs = bytes_of_words ws in
    let (b0, b1, b2, b3) = word_bytes ws k w h in
    omega (
      arith,
      word-below ws k w a h,
      write-at mem start bs (4 * k) (w % 256) b0,
      ap (write mem start bs)
          (let e : start + (suc (4 * k)) ≡ start + 4 * k + 1 = omega arith in e),
      write-at mem start bs (suc (4 * k)) (w / 2 ^ 8 % 256) b1,
      ap (write mem start bs)
          (let e : start + (suc (suc (4 * k))) ≡ start + 4 * k + 2 = omega arith in e),
      write-at mem start bs (suc (suc (4 * k))) (w / 2 ^ 16 % 256) b2,
      ap (write mem start bs)
          (let e : start + (suc (suc (suc (4 * k)))) ≡ start + 4 * k + 3 = omega arith in e),
      write-at mem start bs (suc (suc (suc (4 * k)))) (w / 2 ^ 24 % 256) b3,
    )

-- Words stay where they are when other bytes are written.
pub write-IsPlaced_apart :
    (mem : Memory) (start : ℕ) (ws : List ℕ) (to : ℕ) (bs : List ℕ)
    → (start + 4 * length ws ≤ to) ⊎ (to + length bs ≤ start)
    → IsPlaced (read32 mem) start ws
    → IsPlaced (read32 (write mem to bs)) start ws
write-IsPlaced_apart mem start ws to bs apart p k w h =
    let l = get_elem?-below ws k w h in
    omega (
      arith,
      p k w h,
      write-outside mem to bs (start + 4 * k) (outside (start + 4 * k) (omega arith) apart),
      write-outside mem to bs (start + 4 * k + 1) (outside (start + 4 * k + 1) (omega arith) apart),
      write-outside mem to bs (start + 4 * k + 2) (outside (start + 4 * k + 2) (omega arith) apart),
      write-outside mem to bs (start + 4 * k + 3) (outside (start + 4 * k + 3) (omega arith) apart),
    )
  where
    outside :
        (a : ℕ)
        → (start ≤ a) × (a < start + 4 * length ws)
        → (start + 4 * length ws ≤ to) ⊎ (to + length bs ≤ start)
        → (a < to) ⊎ (to + length bs ≤ a)
    outside a m (inl b) = inl (omega arith)
    outside a m (inr b) = inr (omega arith)

read32_steps :
    (mem : Memory) (a : ℕ)
    → mem a + 256 * mem (a + 1) + 65536 * mem (a + 1 + 1) + 16777216 * mem (a + 1 + 1 + 1)
      ≡ read32 mem a
read32_steps mem a = omega (
  arith,
  ap mem (let e : a + 1 + 1 ≡ a + 2 = omega arith in e),
  ap mem (let e : a + 1 + 1 + 1 ≡ a + 3 = omega arith in e),
)

-- The eight bytes at an address as two words.
pub words-read :
    (mem : Memory) (from : ℕ)
    → words (read mem from 8) ≡ read32 mem from ∷ read32 mem (from + 4) ∷ []
unfolding words read
words-read mem from =
    let e : from + 1 + 1 + 1 + 1 ≡ from + 4 = omega arith in
    rw e (ap₂ (λ a b. a ∷ b ∷ []) (read32_steps mem from) (read32_steps mem (from + 4)))
