-- ===== src/Tools/Examples.antt =====
-- The theorems on tools.cpp at concrete texts, and runs of its functions.
use unity_game_localization.Tools.Rate.{
  Times, Rates, Show, sa, toast, show, show_sa, show_toast, shown,
}
use unity_game_localization.Tools.Rate.Spaced.{InOrder, Spaced, shown-Spaced}
use unity_game_localization.Tools.Dump.{hex_dump}
use unity_game_localization.Tools.Dump.Bytes.{bytes_at, lines_value, lines_value-hex_dump}
use unity_game_localization.Run.{ok}
use unity_game_localization.Tools.Junk.{
  junk_fun0, junk_fun1, junk_fun2, junk_fun3, junk_fun_0, junk_fun_1, junk_fun_2, junk_fun_3,
}
use mathlib.Core.List.{map}
use unity_game_localization.Prelude.{◌++◌}
use unity_game_localization.Prelude.{
  ℕ, ◌+◌, ◌%◌, ◌<◌, ◌≡◌, ◌≤◌, refl, false, List, [], ◌∷◌, none, some, arith, length, drop,
}
use unity_game_localization.Tools.Utf8.{utf8_to_unicode}
use unity_game_localization.Tools.Utf8.RoundTrip.{encode_all, utf16_units, utf8_to_unicode-encode}
use unity_game_localization.Tools.Utf8.Bounds.{utf8_to_unicode_bounds}
use unity_game_localization.Tools.Lower.{tolower_unicode}
use unity_game_localization.Tools.Lower.Laws.{ascii_lower, tolower_unicode-utf16_units}
use unity_game_localization.Tools.Search.{memcmp_equal, memcmp_plus}
use unity_game_localization.Tools.Search.Laws.{IsFirst, memcmp_plus-IsFirst, memcmp_plus-none}
use unity_game_localization.Tools.Hex.{strtol16}

-- `Aé好😀`
abbrev points : List ℕ
points = 0x41 ∷ 0xE9 ∷ 0x597D ∷ 0x1F600 ∷ []

utf8_to_unicode-encode_example : utf8_to_unicode (encode_all points) ≡ (utf16_units points, 8)
utf8_to_unicode-encode_example = utf8_to_unicode-encode points (ground arith)

utf8_to_unicode_bounds_example :
    ((utf8_to_unicode (0xE5 ∷ 0xA5 ∷ 0xBD ∷ 0xFF ∷ [])).1
      ≡ length (utf8_to_unicode (0xE5 ∷ 0xA5 ∷ 0xBD ∷ 0xFF ∷ [])).0)
    × (length (utf8_to_unicode (0xE5 ∷ 0xA5 ∷ 0xBD ∷ 0xFF ∷ [])).0 ≤ 8)
utf8_to_unicode_bounds_example = utf8_to_unicode_bounds (0xE5 ∷ 0xA5 ∷ 0xBD ∷ 0xFF ∷ [])

abbrev some_bytes : List ℕ
some_bytes = 65 ∷ 0 ∷ 66 ∷ 0 ∷ 67 ∷ 0 ∷ 68 ∷ 0 ∷ []

tolower_unicode-utf16_units_example :
    tolower_unicode (utf16_units (65 ∷ 0x597D ∷ 66 ∷ []) ++ 67 ∷ 0 ∷ []) 4
    ≡ utf16_units (map ascii_lower (65 ∷ 0x597D ∷ 66 ∷ [])) ++ 67 ∷ 0 ∷ []
tolower_unicode-utf16_units_example =
    tolower_unicode-utf16_units (65 ∷ 0x597D ∷ []) 66 (67 ∷ 0 ∷ []) (ground arith)

found_at_2 : memcmp_plus some_bytes (66 ∷ 0 ∷ []) 8 2 ≡ some 2
unfolding memcmp_plus
found_at_2 = refl

memcmp_plus-IsFirst_example : IsFirst some_bytes (66 ∷ 0 ∷ []) 8 2 2
memcmp_plus-IsFirst_example = memcmp_plus-IsFirst some_bytes (66 ∷ 0 ∷ []) 8 2 2 found_at_2

found_nowhere : memcmp_plus some_bytes (66 ∷ 1 ∷ []) 8 2 ≡ none
unfolding memcmp_plus
found_nowhere = refl

memcmp_plus-none_example : memcmp_equal (drop 2 some_bytes) (66 ∷ 1 ∷ []) 2 ≡ false
memcmp_plus-none_example =
    memcmp_plus-none some_bytes (66 ∷ 1 ∷ []) 8 2 2 found_nowhere (omega arith) (omega arith)

-- A negative number and one with a prefix.
strtol16_runs :
    (strtol16 (b' ' ∷ b'-' ∷ b'1' ∷ []) ≡ 0xFFFFFFFF)
    × (strtol16 (b'0' ∷ b'x' ∷ b'1' ∷ b'F' ∷ b'g' ∷ []) ≡ 31)
unfolding strtol16
strtol16_runs = (refl, refl)

-- Calls 5, 6 and 9 seconds after the epoch; the second one shows nothing.
abbrev times : ℕ → Times
times n = record { starting = n; testing = n; setting = n + 1 }

abbrev calls : List (Show × Times)
calls = (sa, times 5000) ∷ (toast, times 6000) ∷ (sa, times 9000) ∷ []

abbrev rates : Rates
rates = record { last_milles = 0; times_delay = 0; start_time = 10 }

calls-InOrder : InOrder 0 calls
unfolding InOrder
calls-InOrder = omega arith

shown-Spaced_example : Spaced 0 (shown calls rates)
shown-Spaced_example = shown-Spaced calls rates 0 0 refl (omega arith) calls-InOrder

shown-calls : shown calls rates ≡ 5001 ∷ 9001 ∷ []
unfolding shown show show_sa show_toast
shown-calls = refl

byte_below : (a : ℕ) → a % 256 < 256
byte_below a = omega arith

lines_value-hex_dump_example :
    lines_value (hex_dump (λ a. a % 256) 37) ≡ bytes_at (λ a. a % 256) 0 37
lines_value-hex_dump_example = lines_value-hex_dump (λ a. a % 256) byte_below 37

junk_fun0-value : junk_fun0 ≡ ok 0
unfolding junk_fun0
junk_fun0-value = refl

junk_fun1-value : junk_fun1 ≡ ok 36
unfolding junk_fun1
junk_fun1-value = refl

junk_fun2-value : junk_fun2 ≡ ok 6
unfolding junk_fun2
junk_fun2-value = refl

junk_fun3-value : junk_fun3 ≡ ok 8
unfolding junk_fun3
junk_fun3-value = refl

junk_fun_0-calls : junk_fun_0 ≡ ok (2 ∷ 1 ∷ 0 ∷ 1 ∷ 2 ∷ 3 ∷ 1 ∷ 1 ∷ 0 ∷ 2 ∷ 3 ∷ 3 ∷ 1 ∷ 1 ∷ 0 ∷ [])
unfolding junk_fun_0
junk_fun_0-calls = refl

junk_fun_1-calls : junk_fun_1 ≡ ok (3 ∷ 1 ∷ 1 ∷ 2 ∷ 2 ∷ 0 ∷ 0 ∷ 2 ∷ 1 ∷ 0 ∷ 1 ∷ 2 ∷ 3 ∷ 1 ∷ [])
unfolding junk_fun_1
junk_fun_1-calls = refl

junk_fun_2-calls : junk_fun_2 ≡ ok (1 ∷ 0 ∷ 2 ∷ 3 ∷ 3 ∷ 1 ∷ 1 ∷ 0 ∷ 0 ∷ 3 ∷ 0 ∷ 0 ∷ 2 ∷ 3 ∷ [])
unfolding junk_fun_2
junk_fun_2-calls = refl

junk_fun_3-calls : junk_fun_3 ≡ ok (0 ∷ 3 ∷ 0 ∷ 0 ∷ 2 ∷ 3 ∷ 3 ∷ 1 ∷ 1 ∷ 2 ∷ 2 ∷ 0 ∷ 0 ∷ [])
unfolding junk_fun_3
junk_fun_3-calls = refl
