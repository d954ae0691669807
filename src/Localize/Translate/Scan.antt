-- ===== src/Localize/Translate/Scan.antt =====
-- The rounds of the loop over the dictionary, in both hooks of inject_dobby.cpp.
use unity_game_localization.Prelude.{
  ℕ, ◌+◌, ◌<◌, ◌≡◌, refl, ◌==◌, true, false, List, ◌∷◌, none, some, arith,
}
use unity_game_localization.Tools.Utf8.{utf8_to_unicode}
use unity_game_localization.Tools.Lower.{tolower_unicode}
use unity_game_localization.Tools.Search.{memcmp_plus}
use unity_game_localization.Tools.Search.Laws.{IsFirst, memcmp_plus-IsFirst}
use unity_game_localization.Run.{Fault, ok, fault}
use unity_game_localization.Localize.Dictionary.{split_size, split_line}
use unity_game_localization.Localize.Translate.{converted, splice, find_entry, scan}

-- The bytes that an entry looks for, and their number.
abbrev pub key_length : List ℕ → ℕ
key_length left = (utf8_to_unicode left).1

abbrev pub key : List ℕ → List ℕ
key left = tolower_unicode (converted left) (key_length left)

module _ (n : ℕ) (middle left : List ℕ) where
  pub find_entry-folded : (find_entry n middle left).0 ≡ tolower_unicode middle (key_length left)
  unfolding find_entry
  find_entry-folded = refl

  pub find_entry-IsFirst :
      (k : ℕ)
      → (find_entry n middle left).1 ≡ some k
      → ((n < 100) × (key_length left < 100))
        × IsFirst (tolower_unicode middle (key_length left)) (key left) n (key_length left) k
  unfolding find_entry
  find_entry-IsFirst k h = (
    (ground arith, ground arith),
    memcmp_plus-IsFirst (tolower_unicode middle (key_length left)) (key left) n (key_length left) k
        (ground arith),
  )

  pub find_entry-some :
      (k : ℕ)
      → n < 100
      → key_length left < 100
      → memcmp_plus (tolower_unicode middle (key_length left)) (key left) n (key_length left)
        ≡ some k
      → (find_entry n middle left).1 ≡ some k
  unfolding find_entry
  find_entry-some k short short' h = ground arith

module _ (header : List ℕ) (n : ℕ) where
  -- A line of a scan that has found nothing so far.
  pub scan-skip :
      (c : ℕ) (middle p : List ℕ) (ps : List (List ℕ)) (sides : List ℕ × List ℕ)
      → split_line split_size p ≡ ok sides
      → (c == 0) ≡ true
      → scan header n c middle (p ∷ ps) ≡ scan header n (c + 1) middle ps
  unfolding scan
  scan-skip c middle p ps sides e z = rw (e, scan) (rw (z, scan))

  pub scan-miss :
      (c : ℕ) (middle p : List ℕ) (ps : List (List ℕ)) (left right : List ℕ)
      → split_line split_size p ≡ ok (left, right)
      → (c == 0) ≡ false
      → (find_entry n middle left).1 ≡ none
      → scan header n c middle (p ∷ ps)
        ≡ scan header n (c + 1) (tolower_unicode middle (key_length left)) ps
  unfolding scan
  scan-miss c middle p ps left right e z miss =
      rw (e, scan) (rw (z, scan) (rw (miss, scan) (rw (find_entry-folded n middle left))))

  pub scan-hit :
      (c : ℕ) (middle p : List ℕ) (ps : List (List ℕ)) (left right : List ℕ) (k : ℕ)
      → split_line split_size p ≡ ok (left, right)
      → (c == 0) ≡ false
      → (find_entry n middle left).1 ≡ some k
      → scan header n c middle (p ∷ ps)
        ≡ ok (
          tolower_unicode middle (key_length left),
          some (
              splice header
                (tolower_unicode middle (key_length left))
                (utf8_to_unicode right).0
                n
                k
                (key_length left)),
        )
  unfolding scan
  scan-hit c middle p ps left right k e z hit =
      rw (e, scan) (rw (z, scan) (rw (hit, scan) (rw (find_entry-folded n middle left))))

  pub scan-fault :
      (c : ℕ) (middle p : List ℕ) (ps : List (List ℕ)) (e : Fault)
      → split_line split_size p ≡ fault e
      → scan header n c middle (p ∷ ps) ≡ fault e
  unfolding scan
  scan-fault c middle p ps e h = rw (h, scan)
