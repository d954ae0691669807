-- ===== src/Localize/Translate/WholeText.antt =====
-- The search of inject_dobby.cpp for an entry that is the whole text up to ASCII case.
use mathlib.Core.List.{map}
use unity_game_localization.Prelude.{
  ℕ, zero, suc, ◌+◌, ◌-◌, ◌*◌, ◌/◌, ◌%◌, ◌≤◌, ◌<◌, ◌≡◌, ◌≢◌, refl, ap, sym, subst, ◌∙◌, ==_of_ne,
  ==_of_eq, true, List, [], ◌∷◌, ◌++◌, some, arith, length, take, drop, replicate, append_assoc,
  length-map,
}
use unity_game_localization.Tools.Utf8.RoundTrip.{
  encode_all, utf16_units, AllCodePoints, utf8_to_unicode-encode,
}
use unity_game_localization.Tools.Lower.{tolower_unicode, lower_pairs}
use unity_game_localization.Tools.Lower.Laws.{ascii_lower, Low16, lower_unit-low, ascii_lower-high}
use unity_game_localization.Tools.Search.{memcmp_equal, memcmp_plus}
use unity_game_localization.Localize.Translate.{
  header_size, end_size, Memory, memccpy, load_middle, int_bytes, splice, find_entry,
}
use unity_game_localization.Localize.Translate.Scan.{key, key_length, find_entry-some}

-- The memory holds these bytes from `from` on.
abbrev pub Reads : Memory → ℕ → List ℕ → Type 0
Reads mem from [] = Unit {0}
Reads mem from (b ∷ bs) = (mem from ≡ b) × Reads mem (from + 1) bs

abbrev pub Without : ℕ → List ℕ → Type 0
Without stop [] = Unit {0}
Without stop (b ∷ bs) = (b ≢ stop) × Without stop bs

pub memccpy-append :
    (mem : Memory) (from stop m : ℕ) (bs : List ℕ)
    → Reads mem from bs
    → Without stop bs
    → memccpy mem from stop (length bs + m) ≡ bs ++ memccpy mem (from + length bs) stop m
unfolding memccpy
memccpy-append mem from stop m [] r w =
    let e₁ : 0 + m ≡ m = omega arith in let e₂ : from + 0 ≡ from = omega arith in rw (e₁, e₂)
memccpy-append mem from stop m (b ∷ bs) r w =
    let e₁ : suc (length bs) + m ≡ suc (length bs + m) = omega arith in
    let e₂ : from + suc (length bs) ≡ from + 1 + length bs = omega arith in
    rw (e₁, e₂, memccpy)
      (rw (r.0, ==_of_ne b stop w.0)
        (ap (λ s. b ∷ s) (memccpy-append mem (from + 1) stop m bs r.1 w.1)))

memccpy-starts :
    (mem : Memory) (from stop n : ℕ) (bs : List ℕ)
    → length bs ≤ n
    → Reads mem from bs
    → Without stop bs
    → (rest : List ℕ) × (memccpy mem from stop n ≡ bs ++ rest)
memccpy-starts mem from stop n bs h r w =
    let e : length bs + (n - length bs) ≡ n = omega arith in
    (
      memccpy mem (from + length bs) stop (n - length bs),
      rw e at (memccpy-append mem from stop (n - length bs) bs r w),
    )

-- A text that fits stands at the start of the `middle` buffer.
pub load_middle-starts :
    (end_address : ℕ) (middle : List ℕ) (mem : Memory) (bs : List ℕ)
    → length bs ≤ 100
    → Reads mem header_size bs
    → Without (end_address % 256) bs
    → (rest : List ℕ) × (load_middle end_address middle mem ≡ bs ++ rest)
unfolding load_middle
load_middle-starts end_address middle mem bs h r w =
    let (rest, e) = memccpy-starts mem header_size (end_address % 256) 100 bs h r w in
    (
      rest ++ (replicate (100 - length (bs ++ rest)) 0 ++ drop 100 middle),
      rw e (append_assoc bs rest _),
    )

pub length-utf16_units : (us : List ℕ) → length (utf16_units us) ≡ 2 * length us
unfolding utf16_units
length-utf16_units [] = omega arith
length-utf16_units (u ∷ us) = omega (arith, length-utf16_units us)

lower_pairs-append :
    (m : ℕ) (us rest : List ℕ)
    → Low16 us
    → lower_pairs (length us + m) (utf16_units us ++ rest)
      ≡ utf16_units (map ascii_lower us) ++ lower_pairs m rest
unfolding lower_pairs utf16_units
lower_pairs-append m [] rest h = let e : 0 + m ≡ m = omega arith in rw e
lower_pairs-append m (u ∷ us) rest h =
    let e : suc (length us) + m ≡ suc (length us + m) = omega arith in
    rw (e, lower_pairs)
      (rw (lower_unit-low u h.0, ascii_lower-high u h.0, lower_pairs-append m us rest h.1))

tolower_unicode-append :
    (us rest : List ℕ)
    → Low16 us
    → tolower_unicode (utf16_units us ++ rest) (2 * length us)
      ≡ utf16_units (map ascii_lower us) ++ lower_pairs 1 rest
unfolding tolower_unicode
tolower_unicode-append us rest h =
    let e : 2 * length us / 2 + 1 ≡ length us + 1 = omega arith in
    rw e (lower_pairs-append 1 us rest h)

memcmp_equal-append : (a x y : List ℕ) → memcmp_equal (a ++ x) (a ++ y) (length a) ≡ true
unfolding memcmp_equal
memcmp_equal-append [] x y = refl
memcmp_equal-append (b ∷ a) x y = rw (==_of_eq b b refl, memcmp_equal-append a x y)

memcmp_plus-here :
    (p q : List ℕ) (n : ℕ) → 0 < n → memcmp_equal p q n ≡ true → memcmp_plus p q n n ≡ some 0
unfolding memcmp_plus
memcmp_plus-here p q zero pos h = absurd (omega arith)
memcmp_plus-here p q (suc n) pos h = rw (h, memcmp_plus) (ground arith)

module _ (us ls rest : List ℕ) (text : Low16 us) (pattern₁ : Low16 ls) (points : AllCodePoints ls)
    (same : map ascii_lower us ≡ map ascii_lower ls) where
  pub same_length : length us ≡ length ls
  same_length = sym (length-map ascii_lower us) ∙ ap length same ∙ length-map ascii_lower ls

  pub key_length-encode_all : key_length (encode_all ls) ≡ 2 * length us
  key_length-encode_all =
      ap (λ (r : List ℕ × ℕ). r.1) (utf8_to_unicode-encode ls points) ∙ omega (arith, same_length)

  key-encode_all :
      key (encode_all ls)
      ≡ utf16_units (map ascii_lower us) ++ lower_pairs 1 (replicate (200 - 2 * length us) 0)
  key-encode_all = rw (
    key_length-encode_all,
    utf8_to_unicode-encode ls points,
    length-utf16_units ls,
    same_length,
    tolower_unicode-append ls (replicate (200 - 2 * length ls) 0) pattern₁,
    same,
  )

  length-folded : length (utf16_units (map ascii_lower us)) ≡ 2 * length us
  length-folded =
      length-utf16_units (map ascii_lower us) ∙ ap (λ (n : ℕ). 2 * n) (length-map ascii_lower us)

  pub memcmp_equal-whole :
      memcmp_equal
        (tolower_unicode (utf16_units us ++ rest) (2 * length us))
        (key (encode_all ls))
        (2 * length us)
      ≡ true
  memcmp_equal-whole =
      rw (tolower_unicode-append us rest text, key-encode_all, ← length-folded)
        (memcmp_equal-append (utf16_units (map ascii_lower us)) _ _)

  -- The search of the loop, on a buffer that begins with the text.
  pub find_entry-whole :
      0 < length us
      → 2 * length us < 100
      → (find_entry (2 * length us) (utf16_units us ++ rest) (encode_all ls)).1 ≡ some 0
  find_entry-whole pos short =
      find_entry-some (2 * length us) (utf16_units us ++ rest) (encode_all ls) 0 short
        (omega (arith, key_length-encode_all))
        (subst
          (λ (l : ℕ).
            memcmp_plus (tolower_unicode (utf16_units us ++ rest) l) (key (encode_all ls))
              (2 * length us) l
            ≡ some 0)
          (sym key_length-encode_all) found)
    where
      found :
          memcmp_plus
            (tolower_unicode (utf16_units us ++ rest) (2 * length us))
            (key (encode_all ls))
            (2 * length us)
            (2 * length us)
          ≡ some 0
      found = memcmp_plus-here _ _ (2 * length us) (omega arith) memcmp_equal-whole

-- The new string, where the match is the whole text.
pub splice-whole :
    (header middle translation : List ℕ) (n : ℕ)
    → splice header middle translation n 0 n
      ≡ take 8 header
        ++ (int_bytes (length translation / 2) ++ (translation ++ replicate end_size 0))
unfolding splice
splice-whole header middle translation n =
    let e₁ : n - 0 - n ≡ 0 = omega arith in
    let e₂ : 0 + length translation + 0 ≡ length translation = omega arith in rw (e₁, e₂)
