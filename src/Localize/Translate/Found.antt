-- ===== src/Localize/Translate/Found.antt =====
-- What the loops of both hooks of inject_dobby.cpp find in the dictionary, or that they find nothing.
use unity_game_localization.Prelude.{
  ◌-◌, ◌/◌, ◌≤◌, ltb, drop, take, length, replicate, sym, subst, ==_of_ne,
}
use unity_game_localization.Tools.Search.{memcmp_equal}
use unity_game_localization.Tools.Search.Laws.{memcmp_plus-none}
use unity_game_localization.Localize.Translate.{int_bytes}
use unity_game_localization.Prelude.{
  ℕ, ◌+◌, ◌<◌, ◌≡◌, refl, ap, false, List, [], ◌∷◌, ◌++◌, none, some, arith, Bool-cases,
  Option-cases, inl, inr,
}
use mathlib.Core.Path.{subst₂}
use unity_game_localization.Tools.Utf8.{utf8_to_unicode}
use unity_game_localization.Tools.Lower.{tolower_unicode}
use unity_game_localization.Tools.Search.Laws.{IsFirst}
use unity_game_localization.Run.{ok, Run-cases}
use unity_game_localization.Localize.Dictionary.{split_size, split_line}
use unity_game_localization.Localize.Translate.{splice, find_entry, scan}
use unity_game_localization.Localize.Translate.Scan.{
  key, key_length, find_entry-IsFirst, scan-skip, scan-miss, scan-hit, scan-fault,
}

-- The left side of an entry does not occur in the text `mid`, folded by it, or it is not searched
-- for.
pub data IsMissed (n : ℕ) (mid left : List ℕ) : Type 0 where
  long_text : 100 ≤ n → IsMissed n mid left
  long_key : 100 ≤ key_length left → IsMissed n mid left
  nowhere :
      ((j : ℕ)
        → 0 < key_length left
        → j + key_length left ≤ n
        → memcmp_equal (drop j (tolower_unicode mid (key_length left))) (key left) (key_length left)
          ≡ false)
      → IsMissed n mid left

-- Lines that all split into two sides and of which no left side is found in the text `mid`, which
-- each one folds before the search. They leave the text `end_mid`.
pub data Misses (n : ℕ) : (mid : List ℕ) → List (List ℕ) → (end_mid : List ℕ) → Type 0 where
  no_line : (mid : List ℕ) → Misses n mid [] mid
  missed :
      (mid p : List ℕ) (ps : List (List ℕ)) (left right end_mid : List ℕ)
      → split_line split_size p ≡ ok (left, right)
      → IsMissed n mid left
      → Misses n (tolower_unicode mid (key_length left)) ps end_mid
      → Misses n mid (p ∷ ps) end_mid

-- How lines behind the first one come to the new string `out`, leaving the folded text `middle'`:
-- the entries of earlier lines are not found, and the line's own left side is, first at `place`.
-- The string has the old header with the new length, the text before the match, the right side in
-- UTF-16, the text behind the match, and four NULs.
pub record Hit (header : List ℕ) (n : ℕ) (middle : List ℕ) (ps : List (List ℕ))
    (middle' out : List ℕ) : Type 0 where
  pub before : List (List ℕ)
  pub line : List ℕ
  pub after : List (List ℕ)
  pub mid : List ℕ
  pub left : List ℕ
  pub right : List ℕ
  pub place : ℕ
  pub lines_eq : ps ≡ before ++ line ∷ after
  pub unmatched : Misses n middle before mid
  pub sides : split_line split_size line ≡ ok (left, right)
  pub folded : middle' ≡ tolower_unicode mid (key_length left)
  pub short : (n < 100) × (key_length left < 100)
  pub first : IsFirst middle' (key left) n (key_length left) place
  pub result :
      out
      ≡ take 8 header
        ++ (int_bytes
              ((place + length (utf8_to_unicode right).0 + (n - place - key_length left)) / 2)
            ++ (take place middle'
                ++ ((utf8_to_unicode right).0
                    ++ (take (n - place - key_length left) (drop (place + key_length left) middle')
                        ++ replicate 4 0))))

-- The first line is not searched for.
pub record HitBehind (header : List ℕ) (n : ℕ) (middle : List ℕ) (ps : List (List ℕ))
    (middle' out : List ℕ) : Type 0 where
  pub first_line : List ℕ
  pub rest : List (List ℕ)
  pub lines_eq : ps ≡ first_line ∷ rest
  pub splits : (sides : List ℕ × List ℕ) × (split_line split_size first_line ≡ ok sides)
  pub hit : Hit header n middle rest middle' out

-- No line, or none behind the first one, is found.
pub data MissedBehind (n : ℕ) (middle : List ℕ) (ps : List (List ℕ)) (end_mid : List ℕ)
    : Type 0 where
  empty : ps ≡ [] → end_mid ≡ middle → MissedBehind n middle ps end_mid
  behind :
      (first_line : List ℕ) (rest : List (List ℕ)) (sides : List ℕ × List ℕ)
      → ps ≡ first_line ∷ rest
      → split_line split_size first_line ≡ ok sides
      → Misses n middle rest end_mid
      → MissedBehind n middle ps end_mid

module _ (n : ℕ) (middle left : List ℕ) where
  find_entry-IsMissed : (find_entry n middle left).1 ≡ none → IsMissed n middle left
  unfolding find_entry
  find_entry-IsMissed h = elim (Bool-cases (ltb n 100)) [
    | inr long ↦ long_text (ground arith)
    | inl short ↦ elim (Bool-cases (ltb (key_length left) 100)) [
      | inr long ↦ long_key (ground arith)
      | inl short' ↦ nowhere λ j pos fits.
          memcmp_plus-none (tolower_unicode middle (key_length left)) (key left) n (key_length left)
            j (ground arith) pos fits
    ]
  ]

module _ (header : List ℕ) (n : ℕ) where
  Hit-cons :
      {middle p left right middle' out : List ℕ} {ps : List (List ℕ)}
      → split_line split_size p ≡ ok (left, right)
      → IsMissed n middle left
      → Hit header n (tolower_unicode middle (key_length left)) ps middle' out
      → Hit header n middle (p ∷ ps) middle' out
  Hit-cons {middle} {p} {left} {right} e miss h = record {
    before = p ∷ h.before;
    line = h.line;
    after = h.after;
    mid = h.mid;
    left = h.left;
    right = h.right;
    place = h.place;
    lines_eq = ap (λ qs. p ∷ qs) h.lines_eq;
    unmatched = missed middle p h.before left right h.mid e miss h.unmatched;
    sides = h.sides;
    folded = h.folded;
    short = h.short;
    first = h.first;
    result = h.result;
  }

  Hit-here :
      (middle p : List ℕ) (ps : List (List ℕ)) (left right : List ℕ) (k : ℕ)
      → split_line split_size p ≡ ok (left, right)
      → (find_entry n middle left).1 ≡ some k
      → Hit header n middle (p ∷ ps) (tolower_unicode middle (key_length left)) (
          splice header
            (tolower_unicode middle (key_length left))
            (utf8_to_unicode right).0
            n
            k
            (key_length left))
  unfolding splice
  Hit-here middle p ps left right k e hit = record {
    before = [];
    line = p;
    after = ps;
    mid = middle;
    left = left;
    right = right;
    place = k;
    lines_eq = refl;
    unmatched = no_line middle;
    sides = e;
    folded = refl;
    short = (find_entry-IsFirst n middle left k hit).0;
    first = (find_entry-IsFirst n middle left k hit).1;
    result = refl;
  }

  scan-Hit :
      (c : ℕ) (middle : List ℕ) (ps : List (List ℕ)) {middle' out : List ℕ}
      → scan header n (c + 1) middle ps ≡ ok (middle', some out)
      → Hit header n middle ps middle' out
  scan-Hit c middle [] h = absurd (unfold scan in cc)
  scan-Hit c middle (p ∷ ps) {middle'} {out} h = elim (Run-cases (split_line split_size p)) [
    | inr (e, broken) ↦ absurd (cc (scan-fault header n (c + 1) middle p ps e broken))
    | inl ((left, right), e) ↦
        let z = ==_of_ne (c + 1) 0 (omega arith) in
        elim (Option-cases (find_entry n middle left).1) [
          | inl miss ↦ Hit-cons e (find_entry-IsMissed n middle left miss) (
              scan-Hit (c + 1) (tolower_unicode middle (key_length left)) ps
                (cc (scan-miss header n (c + 1) middle p ps left right e z miss)))
          | inr (k, hit) ↦
              let m = scan-hit header n (c + 1) middle p ps left right k e z hit in
              let e₁ : tolower_unicode middle (key_length left) ≡ middle' = cc m in
              let e₂ : splice header (tolower_unicode middle (key_length left))
                    (utf8_to_unicode right).0 n k (key_length left)
                  ≡ out =
                cc m in
              subst₂ (λ x y. Hit header n middle (p ∷ ps) x y) e₁ e₂
                (Hit-here middle p ps left right k e hit)
        ]
  ]

  scan-Misses :
      (c : ℕ) (middle : List ℕ) (ps : List (List ℕ)) {end_mid : List ℕ}
      → scan header n (c + 1) middle ps ≡ ok (end_mid, none)
      → Misses n middle ps end_mid
  scan-Misses c middle [] {end_mid} h =
      let e : middle ≡ end_mid = unfold scan in cc h in
      subst (Misses n middle []) e (no_line middle)
  scan-Misses c middle (p ∷ ps) {end_mid} h = elim (Run-cases (split_line split_size p)) [
    | inr (e, broken) ↦ absurd (cc (scan-fault header n (c + 1) middle p ps e broken))
    | inl ((left, right), e) ↦
        let z = ==_of_ne (c + 1) 0 (omega arith) in
        elim (Option-cases (find_entry n middle left).1) [
          | inl miss ↦
              missed middle p ps left right end_mid e (find_entry-IsMissed n middle left miss) (
                scan-Misses (c + 1) (tolower_unicode middle (key_length left)) ps
                  (cc (scan-miss header n (c + 1) middle p ps left right e z miss)))
          | inr (k, hit) ↦ absurd (cc (scan-hit header n (c + 1) middle p ps left right k e z hit))
        ]
  ]

  pub scan-HitBehind :
      (middle : List ℕ) (ps : List (List ℕ)) {middle' out : List ℕ}
      → scan header n 0 middle ps ≡ ok (middle', some out)
      → HitBehind header n middle ps middle' out
  scan-HitBehind middle [] h = absurd (unfold scan in cc)
  scan-HitBehind middle (p ∷ ps) h = elim (Run-cases (split_line split_size p)) [
    | inr (e, broken) ↦ absurd (cc (scan-fault header n 0 middle p ps e broken))
    | inl (sides, e) ↦ record {
      first_line = p;
      rest = ps;
      lines_eq = refl;
      splits = (sides, e);
      hit = scan-Hit 0 middle ps (cc (scan-skip header n 0 middle p ps sides e refl));
    }
  ]

  pub scan-MissedBehind :
      (middle : List ℕ) (ps : List (List ℕ)) {end_mid : List ℕ}
      → scan header n 0 middle ps ≡ ok (end_mid, none)
      → MissedBehind n middle ps end_mid
  scan-MissedBehind middle [] {end_mid} h =
      let e : middle ≡ end_mid = unfold scan in cc h in empty refl (sym e)
  scan-MissedBehind middle (p ∷ ps) h = elim (Run-cases (split_line split_size p)) [
    | inr (e, broken) ↦ absurd (cc (scan-fault header n 0 middle p ps e broken))
    | inl (sides, e) ↦
        behind p ps sides refl e
          (scan-Misses 0 middle ps (cc (scan-skip header n 0 middle p ps sides e refl)))
  ]
