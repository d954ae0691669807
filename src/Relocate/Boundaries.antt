-- ===== src/Relocate/Boundaries.antt =====
-- The boundaries that a relocation records in a `struct inlineHookItem` of inlineHook.c:
-- `orig_boundaries[4]`, `trampoline_boundaries[20]` and `count`. The arrays are modelled as they
-- lie in the struct, one behind the other, so that a write behind the first lands in the second.
use unity_game_localization.Prelude.{ℕ, ◌+◌, ◌<◌, ◌≡◌, arith, ltb, if◌then◌else◌, List, get_or, set}
use unity_game_localization.Run.{Run, ok, fault, overflow}

pub record Boundaries : Type 0 where
  -- the 24 `int`s of both arrays
  pub cells : List ℕ
  pub count : ℕ

abbrev pub orig_boundary : Boundaries → ℕ → ℕ
orig_boundary b i = get_or b.cells i 0

abbrev pub trampoline_boundary : Boundaries → ℕ → ℕ
trampoline_boundary b i = get_or b.cells (4 + i) 0

-- The two writes and `++(*count)`.
abbrev pub marked : (orig trampoline : ℕ) → Boundaries → Boundaries
marked orig trampoline b = record {
  cells = set (set b.cells b.count orig) (4 + b.count) trampoline;
  count = b.count + 1;
}

-- `orig_boundaries[*count] = orig; trampoline_boundaries[*count] = trampoline; ++(*count);`
unfoldable pub mark : (orig trampoline : ℕ) → Boundaries → Run Boundaries
mark orig trampoline b = if ltb b.count 20 then ok (marked orig trampoline b) else fault overflow

pub mark-marked :
    (orig trampoline : ℕ) (b : Boundaries)
    → b.count < 20
    → mark orig trampoline b ≡ ok (marked orig trampoline b)
unfolding mark
mark-marked orig trampoline b h = ground arith
