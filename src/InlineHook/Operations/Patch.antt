-- ===== src/InlineHook/Operations/Patch.antt =====
-- The laws of `memcpy` into and out of memory, which the operations of inlineHook.c share.
use unity_game_localization.Prelude.{ap₂, ◌≤◌, ◌<◌, zero, suc}
use unity_game_localization.Prelude.{
  ℕ, zero, suc, ◌+◌, ◌≤◌, ◌<◌, ◌≡◌, ◌≢◌, ◌⊎◌, refl, ap, ◌∙◌, List, [], ◌∷◌, arith, length, inl, inr,
  ==_of_eq, ==_of_ne, ◌==◌, if◌then◌else◌,
}
use unity_game_localization.InlineHook.World.{Memory, read, write}

-- Outside the written range the memory stays.
pub write-outside :
    (mem : Memory) (to : ℕ) (bs : List ℕ) (a : ℕ)
    → (a < to) ⊎ (to + length bs ≤ a)
    → write mem to bs a ≡ mem a
unfolding write
write-outside mem to [] a h = refl
write-outside mem to (b ∷ bs) a h =
    write-outside (λ x. if x == to then b else mem x) (to + 1) bs a (below h)
    ∙ rw (==_of_ne a to (apart h))
  where
    below : (a < to) ⊎ (to + suc (length bs) ≤ a) → (a < to + 1) ⊎ (to + 1 + length bs ≤ a)
    below (inl l) = inl (omega arith)
    below (inr l) = inr (omega arith)

    apart : (a < to) ⊎ (to + suc (length bs) ≤ a) → a ≢ to
    apart (inl l) = omega arith
    apart (inr l) = omega arith

-- Reading back gives what was written.
pub read-write : (mem : Memory) (to : ℕ) (bs : List ℕ) → read (write mem to bs) to (length bs) ≡ bs
unfolding read write
read-write mem to [] = refl
read-write mem to (b ∷ bs) =
    let mem' : Memory = λ x. if x == to then b else mem x in
    let head : write mem' (to + 1) bs to ≡ b =
      write-outside mem' (to + 1) bs to (inl (omega arith)) ∙ rw (==_of_eq to to refl) in
    rw head (ap (λ s. b ∷ s) (read-write mem' (to + 1) bs))

pub length-read : (mem : Memory) (from n : ℕ) → length (read mem from n) ≡ n
unfolding read
length-read mem from zero = refl
length-read mem from (suc n) = ap suc (length-read mem (from + 1) n)

-- Where two memories agree, the same bytes are read.
pub read-agree :
    (m m' : Memory) (from n : ℕ)
    → ((a : ℕ) → from ≤ a → a < from + n → m' a ≡ m a)
    → read m' from n ≡ read m from n
unfolding read
read-agree m m' from zero same = refl
read-agree m m' from (suc n) same =
    ap₂ (λ b bs. b ∷ bs) (same from (omega arith) (omega arith))
      (read-agree m m' (from + 1) n (λ a l h. same a (omega arith) (omega arith)))
