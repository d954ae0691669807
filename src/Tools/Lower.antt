-- ===== src/Tools/Lower.antt =====
-- `tolower_unicode` of Tools/tools.cpp, on a buffer of bytes. The loop visits the positions
-- 0, 2, .., while they are at most `length`: that is `length / 2 + 1` pairs of bytes, one more than
-- the length holds, so the list is the memory from the string on, not only the string. Its callers
-- have buffers of 200 bytes and a length of at most 198, twice the 99 bytes of a side, so that the
-- last pair is in the buffer. Where the list ends before the last pair, that pair is left alone.
pub mod Laws
use unity_game_localization.Prelude.{
  ℕ, zero, suc, ◌+◌, ◌-◌, ◌/◌, ◌==◌, leb, ◌&&◌, not, if◌then◌else◌, List, [], ◌∷◌,
}

-- What a visit stores at the position of `lo`, where `hi` is the byte behind it.
unfoldable pub lower_unit : (lo hi : ℕ) → ℕ
lower_unit lo hi =
    if (hi == 0) && not (lo == 0)
    then (if leb b'A' lo && leb lo b'Z' then lo + (b'a' - b'A') else lo)
    else lo

unfoldable pub lower_pairs : (rounds : ℕ) → List ℕ → List ℕ
lower_pairs zero c = c
lower_pairs (suc n) [] = []
lower_pairs (suc n) (lo ∷ []) = lo ∷ []
lower_pairs (suc n) (lo ∷ hi ∷ c) = lower_unit lo hi ∷ hi ∷ lower_pairs n c

unfoldable pub tolower_unicode : List ℕ → (length : ℕ) → List ℕ
unfolding lower_pairs lower_unit
tolower_unicode c length = lower_pairs (length / 2 + 1) c
