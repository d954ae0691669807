-- ===== src/NativeLib.antt =====
-- app/src/main/cpp/native-lib.cpp, the library of the sample application: its entry, which shows
-- the conversions of tools.cpp at one text, and the encoding of a buffer by a key.
pub mod Encode
mod Examples
use unity_game_localization.Prelude.{
  ℕ, zero, suc, ◌+◌, ◌-◌, leb, ltb, ◌&&◌, if◌then◌else◌, bit_xor, List, [], ◌∷◌, ◌++◌, drop, length,
  get_or, replicate,
}
use unity_game_localization.Run.{Run, ok, fault, overflow, ◌>>=◌}
use unity_game_localization.Tools.Utf8.{utf8_to_unicode}
use unity_game_localization.Tools.Lower.{tolower_unicode}
use unity_game_localization.Tools.Dump.{Line, hex_dump}
use unity_game_localization.Localize.Dictionary.{c_string}

-- Of an `int` that is not negative.
unfoldable pub tolower1 : ℕ → ℕ
tolower1 c = if leb b'A' c && leb c b'Z' then c + (b'a' - b'A') else c

-- `lOOK ! GhJ iT is 中却未能 a test string` and its NUL.
abbrev pub ctsr : List ℕ
ctsr =
    108 ∷ 79 ∷ 79 ∷ 75 ∷ 32 ∷ 33 ∷ 32 ∷ 71 ∷ 104 ∷ 74 ∷ 32 ∷ 105 ∷ 84 ∷ 32 ∷ 105 ∷ 115 ∷ 32 ∷ 228
    ∷ 184 ∷ 173 ∷ 229 ∷ 141 ∷ 180 ∷ 230 ∷ 156 ∷ 170 ∷ 232 ∷ 131 ∷ 189 ∷ 32 ∷ 97 ∷ 32 ∷ 116 ∷ 101
    ∷ 115 ∷ 116 ∷ 32 ∷ 115 ∷ 116 ∷ 114 ∷ 105 ∷ 110 ∷ 103 ∷ 0 ∷ []

-- `12312312` and its NUL.
abbrev pub digits : List ℕ
digits = 49 ∷ 50 ∷ 51 ∷ 49 ∷ 50 ∷ 51 ∷ 49 ∷ 50 ∷ 0 ∷ []

-- A literal in memory; `behind` is what lies behind its NUL.
abbrev pub literal : List ℕ → (behind : ℕ → ℕ) → ℕ → ℕ
literal s behind i = if ltb i (length s) then get_or s i 0 else behind i

-- The conversion into the 80 zeroed bytes of `newStr`.
abbrev pub converted : List ℕ
converted = let bytes = (utf8_to_unicode ctsr).0 in bytes ++ drop (length bytes) (replicate 80 0)

-- The lines that `hexDump` logs in `MainEnter`; `LOGD` with the arguments is left out. Of the
-- literal, and of the block behind the conversions, 80 bytes are shown.
unfoldable pub main_enter : (behind : ℕ → ℕ) → List Line
main_enter behind =
    hex_dump (literal ctsr behind) 80
    ++ hex_dump (λ i. get_or converted i 0) 80
    ++ hex_dump (λ i. get_or (tolower_unicode converted 80) i 0) 80

-- What `_init` and the three constructors log, as the library is loaded.
unfoldable pub init : (behind : ℕ → ℕ) → List Line
init behind = hex_dump (literal ctsr behind) 80

unfoldable pub func_constructor : (behind : ℕ → ℕ) → List Line
func_constructor behind = hex_dump (literal digits behind) 80

-- `encode` with one byte as the key, on the first `length` bytes of `start`.
unfoldable pub encode : (start : List ℕ) (length key : ℕ) → Run (List ℕ)
encode start zero key = ok start
encode [] (suc n) key = fault overflow
encode (b ∷ start) (suc n) key = do rest ← encode start n key; ok (bit_xor key b ∷ rest)

-- `encode` with a vector, one of its bytes after the other.
unfoldable pub encode_vector : (start : List ℕ) (length : ℕ) (key : List ℕ) → Run (List ℕ)
encode_vector start length [] = ok start
encode_vector start length (index ∷ key) = do
  start ← encode start length index
  encode_vector start length key

-- `encode` with a string, which ends at its first NUL.
unfoldable pub encode_string : (start : List ℕ) (length : ℕ) (key : List ℕ) → Run (List ℕ)
unfolding encode_vector c_string
encode_string start length key = encode_vector start length (c_string key)
