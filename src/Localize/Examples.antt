-- ===== src/Localize/Examples.antt =====
-- The theorems on the text handlers at a small dictionary and a text.
use mathlib.Core.List.{map}
use unity_game_localization.Prelude.{
  ℕ, ◌≡◌, ◌≢◌, ◌<◌, refl, true, List, [], ◌∷◌, ◌++◌, some, arith, length, drop, take, get_or,
  replicate,
}
use unity_game_localization.Run.{ok}
use unity_game_localization.Tools.Utf8.RoundTrip.{utf16_units, encode_all}
use unity_game_localization.Localize.Dictionary.{lines}
use unity_game_localization.Localize.Dictionary.Format.{render, AllLines, NoBar}
use unity_game_localization.Localize.Translate.{
  header_size, Memory, read, Globals, replaced, fresh, source_length, original, new_func_set,
  new_func_get, load_middle, memccpy, scan, splice,
}
use unity_game_localization.Localize.Translate.Handlers.{
  dictionary, translated, new_header, new_func_set-whole, new_func_get-whole, new_func_set-Hit,
  new_func_get-Hit,
}
use unity_game_localization.Localize.Translate.WholeText.{Reads, Without}
use unity_game_localization.Localize.Translate.Total.{new_func_set-MissedBehind}
use unity_game_localization.Localize.Translate.Found.{HitBehind, MissedBehind}
use unity_game_localization.Localize.Translate.Splice.{memory, splice_lem}
use unity_game_localization.Tools.Lower.Laws.{ascii_lower}

-- The entry `hi|yes` behind a line of addresses, and the text `Hi`.
abbrev entries : List (List ℕ)
entries = dictionary (49 ∷ []) (50 ∷ []) (104 ∷ 105 ∷ []) (121 ∷ 101 ∷ 115 ∷ []) []

entries-AllLines : AllLines entries
unfolding encode_all
entries-AllLines = ground arith

abbrev globals : Globals
globals = record {
  buffer = render entries;
  end_address = 0x5510;
  current_set_index = 499;
  current_get_index = 0;
  header_set = replicate 12 0;
  header_get = replicate 12 0;
  middle_set = replicate 200 0;
  middle_get = replicate 200 0;
}

abbrev text : Memory
text a = get_or (0 ∷ 0 ∷ 0 ∷ 0 ∷ 0 ∷ 0 ∷ 0 ∷ 0 ∷ 2 ∷ 0 ∷ 0 ∷ 0 ∷ 72 ∷ 0 ∷ 105 ∷ 0 ∷ []) a 0

text-counted : source_length text ≡ 4
unfolding source_length
text-counted = refl

key-NoBar : NoBar (encode_all (104 ∷ 105 ∷ []))
unfolding encode_all
key-NoBar = ground arith

sides_fit :
    (length (encode_all (104 ∷ 105 ∷ [])) < 100)
    × (length (encode_all (121 ∷ 101 ∷ 115 ∷ [])) < 100)
unfolding encode_all
sides_fit = ground arith

same_folded : map ascii_lower (72 ∷ 105 ∷ []) ≡ map ascii_lower (104 ∷ 105 ∷ [])
unfolding ascii_lower
same_folded = refl

text-Reads : Reads text header_size (utf16_units (72 ∷ 105 ∷ []))
unfolding utf16_units
text-Reads = (refl, (refl, (refl, (refl, tt))))

text-Without : Without 16 (utf16_units (72 ∷ 105 ∷ []))
unfolding utf16_units
text-Without = ground arith

abbrev outcome : List ℕ
outcome = translated (read text 0 header_size) (utf16_units (121 ∷ 101 ∷ 115 ∷ []))

new_func_set-whole_example :
    (middle' : List ℕ) × (new_func_set globals (some text)
      ≡ ok (
        record globals {
          current_set_index = 500;
          header_set = new_header text (121 ∷ 101 ∷ 115 ∷ []);
          middle_set = middle';
        },
        replaced outcome,
      ))
new_func_set-whole_example =
    new_func_set-whole (49 ∷ []) (50 ∷ []) (72 ∷ 105 ∷ []) (104 ∷ 105 ∷ []) (121 ∷ 101 ∷ 115 ∷ [])
      [] globals text refl entries-AllLines (ground arith) key-NoBar (ground arith) sides_fit
      (ground arith) (ground arith) same_folded (omega arith) (omega arith) text-counted text-Reads
      text-Without

new_func_get-whole_example :
    (middle' : List ℕ) × (new_func_get globals true true (some text)
      ≡ ok (
        record globals {
          current_get_index = 1;
          header_get = new_header text (121 ∷ 101 ∷ 115 ∷ []);
          middle_get = middle';
        },
        fresh outcome,
      ))
new_func_get-whole_example =
    new_func_get-whole (49 ∷ []) (50 ∷ []) (72 ∷ 105 ∷ []) (104 ∷ 105 ∷ []) (121 ∷ 101 ∷ 115 ∷ [])
      [] globals text refl entries-AllLines (ground arith) key-NoBar (ground arith) sides_fit
      (ground arith) (ground arith) same_folded (omega arith) (omega arith) text-counted text-Reads
      text-Without (omega arith)

abbrev folded : List ℕ
folded = 104 ∷ 0 ∷ 105 ∷ 0 ∷ replicate 196 0

abbrev out : List ℕ
out = replicate 8 0 ++ (3 ∷ 0 ∷ 0 ∷ 0 ∷ 121 ∷ 0 ∷ 101 ∷ 0 ∷ 115 ∷ 0 ∷ replicate 4 0)

set_run :
    new_func_set globals (some text)
    ≡ ok (
      record globals {
        current_set_index = 500;
        header_set = take header_size out;
        middle_set = folded;
      },
      replaced out,
    )
unfolding new_func_set source_length lines load_middle scan encode_all render memccpy read
set_run = refl

get_run :
    new_func_get globals true true (some text)
    ≡ ok (
      record globals {
        current_get_index = 1;
        header_get = take header_size out;
        middle_get = folded;
      },
      fresh out,
    )
unfolding new_func_get source_length lines load_middle scan encode_all render memccpy read
get_run = refl

new_func_set-Hit_example :
    HitBehind
      (read text 0 header_size)
      (source_length text)
      (load_middle 0x5510 (replicate 200 0) text)
      (lines (render entries))
      folded
      out
    × (record globals {
      current_set_index = 500;
      header_set = take header_size out;
      middle_set = folded;
    }
        ≡ record globals {
          current_set_index = 500;
          header_set = take header_size out;
          middle_set = folded;
        })
new_func_set-Hit_example =
    new_func_set-Hit globals
      (record globals {
        current_set_index = 500;
        header_set = take header_size out;
        middle_set = folded;
      })
      text out set_run

new_func_get-Hit_example :
    HitBehind
      (read text 0 header_size)
      (source_length text)
      (load_middle 0x5510 (replicate 200 0) text)
      (lines (render entries))
      folded
      out
    × (true ≡ true)
    × (true ≡ true)
    × (text header_size ≢ 0)
    × (record globals {
      current_get_index = 1;
      header_get = take header_size out;
      middle_get = folded;
    }
        ≡ record globals {
          current_get_index = 1;
          header_get = take header_size out;
          middle_get = folded;
        })
new_func_get-Hit_example =
    new_func_get-Hit globals
      (record globals {
        current_get_index = 1;
        header_get = take header_size out;
        middle_get = folded;
      })
      true true text out get_run

-- `abcd` with `xyz` for `bc`, in UTF-16.
abbrev header : List ℕ
header = 9 ∷ 8 ∷ 7 ∷ 6 ∷ 5 ∷ 4 ∷ 3 ∷ 2 ∷ 4 ∷ 0 ∷ 0 ∷ 0 ∷ []

abbrev abcd : List ℕ
abcd = 97 ∷ 0 ∷ 98 ∷ 0 ∷ 99 ∷ 0 ∷ 100 ∷ 0 ∷ []

abbrev xyz : List ℕ
xyz = 120 ∷ 0 ∷ 121 ∷ 0 ∷ 122 ∷ 0 ∷ []

splice_lem_example :
    (take 8 (splice header abcd xyz 8 2 4) ≡ take 8 header)
    × (drop 12 (splice header abcd xyz 8 2 4) ≡ 97 ∷ 0 ∷ xyz ++ 100 ∷ 0 ∷ 0 ∷ 0 ∷ 0 ∷ 0 ∷ [])
    × (source_length (memory (splice header abcd xyz 8 2 4)) ≡ 10)
splice_lem_example =
    splice_lem header abcd xyz 8 2 4 refl (omega arith) (omega arith) refl (omega arith)

-- The text `Ho`, in which no entry occurs.
abbrev other_text : Memory
other_text a = get_or (0 ∷ 0 ∷ 0 ∷ 0 ∷ 0 ∷ 0 ∷ 0 ∷ 0 ∷ 2 ∷ 0 ∷ 0 ∷ 0 ∷ 72 ∷ 0 ∷ 111 ∷ 0 ∷ []) a 0

other_run :
    new_func_set globals (some other_text)
    ≡ ok (
      record globals {
        current_set_index = 500;
        header_set = read other_text 0 header_size;
        middle_set = 104 ∷ 0 ∷ 111 ∷ 0 ∷ replicate 196 0;
      },
      original,
    )
unfolding new_func_set source_length lines load_middle scan encode_all render memccpy read
other_run = refl

other-full : source_length other_text ≢ 0
unfolding source_length
other-full = omega arith

new_func_set-MissedBehind_example :
    MissedBehind
      (source_length other_text)
      (load_middle 0x5510 (replicate 200 0) other_text)
      (lines (render entries))
      (104 ∷ 0 ∷ 111 ∷ 0 ∷ replicate 196 0)
    × (record globals {
      current_set_index = 500;
      header_set = read other_text 0 header_size;
      middle_set = 104 ∷ 0 ∷ 111 ∷ 0 ∷ replicate 196 0;
    }
        ≡ record globals {
          current_set_index = 500;
          header_set = read other_text 0 header_size;
          middle_set = 104 ∷ 0 ∷ 111 ∷ 0 ∷ replicate 196 0;
        })
new_func_set-MissedBehind_example =
    new_func_set-MissedBehind globals
      (record globals {
        current_set_index = 500;
        header_set = read other_text 0 header_size;
        middle_set = 104 ∷ 0 ∷ 111 ∷ 0 ∷ replicate 196 0;
      })
      other_text other_run other-full
