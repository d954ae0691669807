-- ===== src/Localize/Prefix/Laws.antt =====
-- The handlers of inject_inlinehook.cpp on a text that begins with the dictionary's first entry.
use mathlib.Core.List.{map}
use unity_game_localization.Prelude.{ℕ, ◌*◌, ◌%◌, ◌≤◌, ◌<◌, ◌≡◌, refl, List, length}
use unity_game_localization.Tools.Utf8.RoundTrip.{encode_all, utf16_units, AllCodePoints}
use unity_game_localization.Tools.Lower.{tolower_unicode}
use unity_game_localization.Tools.Lower.Laws.{ascii_lower, Low16}
use unity_game_localization.Localize.Dictionary.Format.{render, AllLines, NoBar}
use unity_game_localization.Localize.Translate.{header_size, Memory, read, Globals}
use unity_game_localization.Localize.Translate.Scan.{key_length}
use unity_game_localization.Localize.Translate.WholeText.{Reads, Without}
use unity_game_localization.Localize.Translate.Handlers.{dictionary}
use unity_game_localization.Localize.Prefix.{replacement, begins_with}

module _ (middle left : List ℕ) where
  begins_with-folded : (begins_with middle left).0 ≡ tolower_unicode middle (key_length left)
  unfolding begins_with
  begins_with-folded = refl

module _ (a b us ls rs : List ℕ) (more : List (List ℕ)) (g : Globals) (mem : Memory)
    (file : g.buffer ≡ render (dictionary a b ls rs more))
    (well_formed : AllLines (dictionary a b ls rs more)) (bar₁ : NoBar a)
    (bar₂ : NoBar (encode_all ls)) (room₁ : (length a < 100) × (length b < 100))
    (room₂ : (length (encode_all ls) < 100) × (length (encode_all rs) < 100))
    (entry : AllCodePoints ls × Low16 ls × AllCodePoints rs) (text : Low16 us)
    (same : map ascii_lower us ≡ map ascii_lower ls) (short : 2 * length us ≤ 100)
    (holds : Reads mem header_size (utf16_units us))
    (unstopped : Without (g.end_address % 256) (utf16_units us)) where
  abbrev new_text : List ℕ
  new_text = replacement (read mem 0 header_size) (utf16_units rs)
