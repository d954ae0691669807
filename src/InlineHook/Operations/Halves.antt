-- ===== src/InlineHook/Operations/Halves.antt =====
-- Halfwords in the bytes of the process's memory: what `memcpy` writes, read back as 16-bit words.
use unity_game_localization.Prelude.{
  ℕ, zero, suc, ◌+◌, ◌-◌, ◌*◌, ◌/◌, ◌%◌, ◌^◌, ◌≤◌, ◌<◌, ◌≡◌, ◌⊎◌, refl, ap, ap₂, ◌∙◌, List, [], ◌∷◌,
  arith, length, some, get_elem?, inl, inr, true, bit_and, bit_or,
}
use unity_game_localization.Prelude.Bits.{
  ◌<<◌, bit_and-split, bit_and-low, bit_and-zero, bit_or-shift,
}
use unity_game_localization.Relocate.Thumb16.Machine.{IsPlaced, word_at}
use unity_game_localization.Relocate.Thumb.Bounds.{AreHalves}
use unity_game_localization.InlineHook.World.{
  Memory, read, write, read16, read32, clear_bit0, set_bit0, test_bit0,
}
use unity_game_localization.InlineHook.Operations.{halfwords, bytes_of_halfwords}
use unity_game_localization.InlineHook.Operations.Patch.{write-outside}
use unity_game_localization.InlineHook.Operations.Placed.{write-at, get_elem?-below}

-- The address of a function in Thumb mode has bit 0.
pub clear_bit0-odd : (a : ℕ) → a % 2 ≡ 1 → a < 2 ^ 32 → clear_bit0 a ≡ a - 1
clear_bit0-odd a h l = omega (
  arith,
  bit_and-split 1 (a / 2) (2 ^ 31 - 1) 1 0 (omega arith) (omega arith),
  bit_and-low 31 (a / 2),
  bit_and-zero 1,
  ap (λ x. bit_and x 0xFFFFFFFE) (let e : a / 2 * 2 ^ 1 + 1 ≡ a = omega arith in e),
)

pub test_bit0-odd : (a : ℕ) → a % 2 ≡ 1 → test_bit0 a ≡ true
test_bit0-odd a h = ground (arith, bit_and-low 1 a)

pub set_bit0-even : (a : ℕ) → a % 2 ≡ 0 → set_bit0 a ≡ a + 1
set_bit0-even a h =
    let e : a ≡ a / 2 << 1 = omega arith in
    ap (λ x. bit_or x 1) e ∙ omega (arith, bit_or-shift 1 (a / 2) 1 (omega arith))

-- The bytes of the halfwords, two for each.
half_bytes :
    (ws : List ℕ) (k w : ℕ)
    → get_elem? ws k ≡ some w
    → (get_elem? (bytes_of_halfwords ws) (2 * k) ≡ some (w % 256))
      × (get_elem? (bytes_of_halfwords ws) (suc (2 * k)) ≡ some (w / 256 % 256))
unfolding bytes_of_halfwords
half_bytes [] k w h = absurd (cc h)
half_bytes (x ∷ ws) zero w h = let e : x ≡ w = cc h in rw e (refl, refl)
half_bytes (x ∷ ws) (suc k) w h =
    let s : 2 * suc k ≡ suc (suc (2 * k)) = omega arith in rw s (half_bytes ws k w h)

half-below : (ws : List ℕ) (k w : ℕ) → AreHalves ws → get_elem? ws k ≡ some w → w < 2 ^ 16
unfolding AreHalves
half-below [] k w a h = absurd (cc h)
half-below (x ∷ ws) zero w a h = let e : x ≡ w = cc h in rw e at (a.0)
half-below (x ∷ ws) (suc k) w a h = half-below ws k w a.1 h

-- Halfwords that are written byte by byte are placed.
pub write-IsPlaced :
    (mem : Memory) (start : ℕ) (ws : List ℕ)
    → AreHalves ws
    → IsPlaced (read16 (write mem start (bytes_of_halfwords ws))) start ws
write-IsPlaced mem start ws a k w h =
    let bs = bytes_of_halfwords ws in
    let (b0, b1) = half_bytes ws k w h in
    omega (
      arith,
      half-below ws k w a h,
      write-at mem start bs (2 * k) (w % 256) b0,
      ap (write mem start bs) (let e : start + suc (2 * k) ≡ start + 2 * k + 1 = omega arith in e),
      write-at mem start bs (suc (2 * k)) (w / 256 % 256) b1,
    )

-- Halfwords stay where they are when other bytes are written.
pub write-IsPlaced_apart :
    (mem : Memory) (start : ℕ) (ws : List ℕ) (to : ℕ) (bs : List ℕ)
    → (start + 2 * length ws ≤ to) ⊎ (to + length bs ≤ start)
    → IsPlaced (read16 mem) start ws
    → IsPlaced (read16 (write mem to bs)) start ws
write-IsPlaced_apart mem start ws to bs apart p k w h =
    let l = get_elem?-below ws k w h in
    omega (
      arith,
      p k w h,
      write-outside mem to bs (start + 2 * k) (outside (start + 2 * k) (omega arith) apart),
      write-outside mem to bs (start + 2 * k + 1) (outside (start + 2 * k + 1) (omega arith) apart),
    )
  where
    outside :
        (a : ℕ)
        → (start ≤ a) × (a < start + 2 * length ws)
        → (start + 2 * length ws ≤ to) ⊎ (to + length bs ≤ start)
        → (a < to) ⊎ (to + length bs ≤ a)
    outside a m (inl b) = inl (omega arith)
    outside a m (inr b) = inr (omega arith)

-- A word is two halfwords.
word_at-read16 : (mem : Memory) (a : ℕ) → read32 mem a ≡ word_at (read16 mem) a
word_at-read16 mem a = omega (arith, ap mem (let e : a + 2 + 1 ≡ a + 3 = omega arith in e))

pub read32-word_at : (mem : Memory) → read32 mem ≡ word_at (read16 mem)
read32-word_at mem = λ i a. word_at-read16 mem a i

-- The bytes of placed halfwords, read back as halfwords.
pub halfwords-read :
    (mem : Memory) (from : ℕ) (ws : List ℕ)
    → IsPlaced (read16 mem) from ws
    → halfwords (read mem from (2 * length ws)) ≡ ws
unfolding halfwords read
halfwords-read mem from [] p = refl
halfwords-read mem from (w ∷ ws) p =
    let s : 2 * suc (length ws) ≡ suc (suc (2 * length ws)) = omega arith in
    let next : from + 1 + 1 ≡ from + 2 = omega arith in
    let here : read16 mem from ≡ w =
      ap (read16 mem) (let e : from ≡ from + 2 * 0 = omega arith in e) ∙ p 0 w refl in
    rw (s, next)
      (ap₂ (λ x xs. x ∷ xs) here
        (halfwords-read mem (from + 2) ws λ k v h.
          ap (read16 mem) (let e : from + 2 + 2 * k ≡ from + 2 * suc k = omega arith in e)
          ∙ p (suc k) v h))
