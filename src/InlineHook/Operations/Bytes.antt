-- ===== src/InlineHook/Operations/Bytes.antt =====
-- Memory as bytes: words in a range where two memories agree, and bytes after `memcpy`.
use unity_game_localization.Prelude.{get_elem?, zero, ◌/◌, ◌%◌, ◌^◌, ◌==◌, if◌then◌else◌}
use unity_game_localization.InlineHook.World.{write}
use unity_game_localization.InlineHook.Operations.{bytes_of_words}
use unity_game_localization.Prelude.{
  ℕ, suc, ◌+◌, ◌*◌, ◌<◌, ◌≤◌, ◌≡◌, length, refl, List, [], ◌∷◌, some, arith,
}
use unity_game_localization.Relocate.Arm.Refine.{IsPlaced}
use unity_game_localization.InlineHook.World.{Memory, read32, write}
use unity_game_localization.InlineHook.Operations.{bytes_of_words}
use unity_game_localization.InlineHook.Operations.Placed.{get_elem?-below}

-- What is read in a range where two memories agree.
pub IsPlaced-agree :
    (m m' : Memory) (start n : ℕ) (ws : List ℕ)
    → 4 * length ws ≤ n
    → ((a : ℕ) → start ≤ a → a < start + n → m' a ≡ m a)
    → IsPlaced (read32 m) start ws
    → IsPlaced (read32 m') start ws
IsPlaced-agree m m' start n ws l same p k v h =
    let b = get_elem?-below ws k v h in
    omega (
      arith,
      p k v h,
      same (start + 4 * k) (omega arith) (omega arith),
      same (start + 4 * k + 1) (omega arith) (omega arith),
      same (start + 4 * k + 2) (omega arith) (omega arith),
      same (start + 4 * k + 3) (omega arith) (omega arith),
    )

-- Memory holds bytes after bytes are written to it.
write-bounded :
    (m : Memory) (to : ℕ) (bs : List ℕ)
    → ((a : ℕ) → m a < 256)
    → ((k b : ℕ) → get_elem? bs k ≡ some b → b < 256)
    → (a : ℕ) → write m to bs a < 256
unfolding write
write-bounded m to [] in_m in_bs = in_m
write-bounded m to (b ∷ bs) in_m in_bs =
    write-bounded (λ a. if a == to then b else m a) (to + 1) bs
      (λ a. let h = in_m a in let k = in_bs 0 b refl in ground arith) (λ k c h. in_bs (suc k) c h)

bytes_of_words-bounded :
    (ws : List ℕ) (k b : ℕ) → get_elem? (bytes_of_words ws) k ≡ some b → b < 256
unfolding bytes_of_words
bytes_of_words-bounded [] k b h = absurd (cc h)
bytes_of_words-bounded (w ∷ ws) zero b h = let e : w % 256 ≡ b = cc h in omega arith
bytes_of_words-bounded (w ∷ ws) (suc zero) b h = let e : w / 2 ^ 8 % 256 ≡ b = cc h in omega arith
bytes_of_words-bounded (w ∷ ws) (suc (suc zero)) b h =
    let e : w / 2 ^ 16 % 256 ≡ b = cc h in omega arith
bytes_of_words-bounded (w ∷ ws) (suc (suc (suc zero))) b h =
    let e : w / 2 ^ 24 % 256 ≡ b = cc h in omega arith
bytes_of_words-bounded (w ∷ ws) (suc (suc (suc (suc k)))) b h = bytes_of_words-bounded ws k b h

pub write-bounded_words :
    (m : Memory) (to : ℕ) (ws : List ℕ)
    → ((a : ℕ) → m a < 256)
    → (a : ℕ) → write m to (bytes_of_words ws) a < 256
write-bounded_words m to ws in_m =
    write-bounded m to (bytes_of_words ws) in_m (bytes_of_words-bounded ws)
