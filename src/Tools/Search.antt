-- ===== src/Tools/Search.antt =====
-- `memcmp_plus` of Tools/tools.cpp: the first place in `p0` where the `lt2` bytes at `p1` stand.
-- The returned pointer is given as its distance from `p0`.
pub mod Laws
use mathlib.Core.Option
use unity_game_localization.Prelude.{
  ℕ, zero, suc, ◌==◌, ltb, ◌||◌, ◌&&◌, if◌then◌else◌, Bool, true, false, List, [], ◌∷◌, Option,
  none, some, drop, get_or,
}

-- `memcmp(p, q, n) == 0`. Behind the end of a buffer there is nothing, which is equal to nothing.
unfoldable pub memcmp_equal : List ℕ → List ℕ → ℕ → Bool
memcmp_equal p q zero = true
memcmp_equal (x ∷ p) (y ∷ q) (suc n) = (x == y) && memcmp_equal p q n
memcmp_equal _ _ (suc n) = false

-- Each round of the loop lowers `lt1` by one, and ends the loop where `lt1 < lt2`.
unfoldable pub memcmp_plus : (p0 p1 : List ℕ) (lt1 lt2 : ℕ) → Option ℕ
unfolding memcmp_equal
memcmp_plus p0 p1 zero lt2 = none
memcmp_plus p0 p1 (suc lt1) lt2 =
    let next = Option.map suc (memcmp_plus (drop 1 p0) p1 lt1 lt2) in
    if (lt2 == 0) || ltb (suc lt1) lt2
    then none
    else if memcmp_equal p0 p1 lt2
    then some 0
    else next
