-- ===== src/NativeLib/Examples.antt =====
-- The theorems on native-lib.cpp at a small buffer, and runs of its functions.
use unity_game_localization.Prelude.{ℕ, ◌≡◌, refl, List, [], ◌∷◌, arith, length}
use unity_game_localization.Run.{ok}
use unity_game_localization.Tools.Utf8.{utf8_to_unicode}
use unity_game_localization.Tools.Dump.{hex_dump}
use unity_game_localization.Localize.Dictionary.{c_string}
use unity_game_localization.NativeLib.{
  ctsr, converted, encode, encode_string, main_enter, func_constructor, tolower1,
}
use unity_game_localization.NativeLib.Encode.{
  folded, encode_string-encode, encode_string-encode_string,
}

encode_string-encode_example :
    encode_string (1 ∷ 2 ∷ 3 ∷ []) 2 (97 ∷ 98 ∷ 0 ∷ 99 ∷ [])
    ≡ encode (1 ∷ 2 ∷ 3 ∷ []) 2 (folded (c_string (97 ∷ 98 ∷ 0 ∷ 99 ∷ [])))
encode_string-encode_example =
    encode_string-encode (1 ∷ 2 ∷ 3 ∷ []) 2 (97 ∷ 98 ∷ 0 ∷ 99 ∷ []) (omega arith)

encode_string-encode_string_example :
    (bs' : List ℕ) × (encode_string (1 ∷ 2 ∷ 3 ∷ []) 2 (97 ∷ 98 ∷ []) ≡ ok bs')
    × (encode_string bs' 2 (97 ∷ 98 ∷ []) ≡ ok (1 ∷ 2 ∷ 3 ∷ []))
encode_string-encode_string_example =
    encode_string-encode_string (1 ∷ 2 ∷ 3 ∷ []) 2 (97 ∷ 98 ∷ []) (omega arith)

-- A key of two equal bytes leaves the buffer as it is.
equal_bytes_cancel : encode_string (1 ∷ 2 ∷ 3 ∷ []) 3 (97 ∷ 97 ∷ []) ≡ ok (1 ∷ 2 ∷ 3 ∷ [])
unfolding encode_string encode
equal_bytes_cancel = refl

-- The literal of `MainEnter` has 44 bytes, of which 80 are shown.
length-ctsr : length ctsr ≡ 44
length-ctsr = refl

length-converted : length converted ≡ 80
unfolding utf8_to_unicode
length-converted = refl

main_enter-lines : length (main_enter (λ a. 0)) ≡ 15
unfolding main_enter hex_dump
main_enter-lines = refl

func_constructor-lines : length (func_constructor (λ a. 0)) ≡ 5
unfolding func_constructor hex_dump
func_constructor-lines = refl

tolower1-capital : tolower1 0x47 ≡ 0x67
unfolding tolower1
tolower1-capital = refl
