-- ===== src/Tools/Lower/Laws.antt =====
-- The laws of `tolower_unicode` of Tools/tools.cpp.
use mathlib.Core.List.{map}
use unity_game_localization.Prelude.{◌++◌, length-append}
use unity_game_localization.Prelude.{
  ℕ, zero, suc, ◌+◌, ◌*◌, ◌/◌, ◌%◌, ◌≤◌, ◌<◌, ◌≡◌, refl, ap, ap₂, List, [], ◌∷◌, arith, length, leb,
  ◌&&◌, if◌then◌else◌,
}
use unity_game_localization.Tools.Utf8.RoundTrip.{utf16_units}
use unity_game_localization.Tools.Lower.{lower_unit, lower_pairs, tolower_unicode}

lower_unit-lower_unit : (lo hi : ℕ) → lower_unit (lower_unit lo hi) hi ≡ lower_unit lo hi
unfolding lower_unit
lower_unit-lower_unit lo hi = ground arith

lower_pairs-lower_pairs :
    (n m : ℕ) (c : List ℕ) → n ≤ m → lower_pairs n (lower_pairs m c) ≡ lower_pairs m c
unfolding lower_pairs
lower_pairs-lower_pairs zero m c h = refl
lower_pairs-lower_pairs (suc n) zero c h = absurd (omega arith)
lower_pairs-lower_pairs (suc n) (suc m) [] h = refl
lower_pairs-lower_pairs (suc n) (suc m) (lo ∷ []) h = refl
lower_pairs-lower_pairs (suc n) (suc m) (lo ∷ hi ∷ c) h =
    ap₂ (λ x y. x ∷ hi ∷ y) (lower_unit-lower_unit lo hi)
      (lower_pairs-lower_pairs n m c (omega arith))

length-lower_pairs : (n : ℕ) (c : List ℕ) → length (lower_pairs n c) ≡ length c
unfolding lower_pairs
length-lower_pairs zero c = refl
length-lower_pairs (suc n) [] = refl
length-lower_pairs (suc n) (lo ∷ []) = refl
length-lower_pairs (suc n) (lo ∷ hi ∷ c) = ap (λ (k : ℕ). suc (suc k)) (length-lower_pairs n c)

-- The buffer keeps its length.
pub length-tolower_unicode : (c : List ℕ) (n : ℕ) → length (tolower_unicode c n) ≡ length c
unfolding tolower_unicode
length-tolower_unicode c n = length-lower_pairs (n / 2 + 1) c

-- A pass of `tolower_unicode` over no more of a buffer than an earlier pass changes nothing.
pub tolower_unicode-tolower_unicode :
    (c : List ℕ) (n m : ℕ) → n ≤ m → tolower_unicode (tolower_unicode c m) n ≡ tolower_unicode c m
unfolding tolower_unicode
tolower_unicode-tolower_unicode c n m h =
    lower_pairs-lower_pairs (n / 2 + 1) (m / 2 + 1) c (omega arith)

-- The lower case of a code point, for ASCII letters.
unfoldable pub ascii_lower : ℕ → ℕ
ascii_lower u = if leb 65 u && leb u 90 then u + 32 else u

abbrev pub Low16 : List ℕ → Type 0
Low16 [] = Unit {0}
Low16 (u ∷ us) = (u < 0x10000) × Low16 us

pub lower_unit-low :
    (u : ℕ) → u < 0x10000 → lower_unit (u % 256) (u / 256 % 256) ≡ ascii_lower u % 256
unfolding lower_unit ascii_lower
lower_unit-low u h = ground arith

pub ascii_lower-high : (u : ℕ) → u < 0x10000 → ascii_lower u / 256 % 256 ≡ u / 256 % 256
unfolding ascii_lower
ascii_lower-high u h = ground arith

lower_pairs-utf16_units :
    (us rest : List ℕ)
    → Low16 us
    → lower_pairs (length us) (utf16_units us ++ rest) ≡ utf16_units (map ascii_lower us) ++ rest
unfolding lower_pairs utf16_units
lower_pairs-utf16_units [] rest s = refl
lower_pairs-utf16_units (u ∷ us) rest s =
    rw (lower_unit-low u s.0, ascii_lower-high u s.0, lower_pairs-utf16_units us rest s.1)

-- In a buffer that begins with the UTF-16 units of code points below 0x10000 and of one more, a
-- pass of `tolower_unicode` with the length in bytes of all but that last one lowers the ASCII
-- capitals among them, the one behind the length included, and changes nothing else.
pub tolower_unicode-utf16_units :
    (us : List ℕ) (u : ℕ) (rest : List ℕ)
    → Low16 (us ++ u ∷ [])
    → tolower_unicode (utf16_units (us ++ u ∷ []) ++ rest) (2 * length us)
      ≡ utf16_units (map ascii_lower (us ++ u ∷ [])) ++ rest
unfolding tolower_unicode
tolower_unicode-utf16_units us u rest s =
    let rounds : 2 * length us / 2 + 1 ≡ length (us ++ u ∷ []) =
      omega (arith, length-append us (u ∷ [])) in
    rw rounds (lower_pairs-utf16_units (us ++ u ∷ []) rest s)
