-- ===== src/Tools/Utf8/Bounds.antt =====
-- How much `UTF8_to_Unicode` of Tools/tools.cpp writes.
use unity_game_localization.Prelude.{
  Option-cases, inl, inr, ℕ, zero, suc, ◌+◌, ◌-◌, ◌*◌, ◌≤◌, ◌≡◌, ◌==◌, if◌then◌else◌, List, [], ◌∷◌,
  Option, none, arith, length,
}
use unity_game_localization.Tools.Utf8.{next_char, convert, utf8_to_unicode}

abbrev round : ℕ → List ℕ → Option (ℕ × ℕ)
round b src = if b == 0 then none else next_char (b ∷ src)

convert_bounds :
    (skip i : ℕ) (src : List ℕ)
    → ((convert skip i src).1 ≡ i + length (convert skip i src).0)
      × (length (convert skip i src).0 ≤ 2 * length src)
unfolding convert
convert_bounds skip i [] = (omega arith, omega arith)
convert_bounds (suc skip) i (b ∷ src) = omega (arith, convert_bounds skip i src)
convert_bounds zero i (b ∷ src) = elim (Option-cases (round b src)) [
  | inl stop ↦ rw (stop, convert) (omega arith)
  | inr ((u, len), e) ↦ rw (e, convert) (omega (arith, convert_bounds (len - 1) (i + 2) src))
]

-- The count that `UTF8_to_Unicode` returns is the number of bytes that it writes before the final
-- NUL, which is at most twice the length of the source.
pub utf8_to_unicode_bounds :
    (src : List ℕ)
    → ((utf8_to_unicode src).1 ≡ length (utf8_to_unicode src).0)
      × (length (utf8_to_unicode src).0 ≤ 2 * length src)
unfolding utf8_to_unicode
utf8_to_unicode_bounds src = omega (arith, convert_bounds 0 0 src)
