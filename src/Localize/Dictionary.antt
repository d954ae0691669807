-- ===== src/Localize/Dictionary.antt =====
-- The dictionary: lines `left|right`, walked with `strtok` and taken apart with `strstr`.
-- The first line holds two addresses and no entry.
pub mod Format
use unity_game_localization.Prelude.{
  ℕ, zero, suc, ◌+◌, ◌==◌, leb, ltb, ◌||◌, if◌then◌else◌, Bool, true, false, List, [], ◌∷◌, ◌++◌,
  Option, none, some, length,
}
use unity_game_localization.Run.{Run, ok, fault, null_pointer, overflow}

-- `SplitSize` of Tools/common.h, the size of the buffers `left` and `right`.
abbrev pub split_size : ℕ
split_size = 100

-- The C string at the start of a buffer.
unfoldable pub c_string : List ℕ → List ℕ
c_string [] = []
c_string (b ∷ s) = if b == 0 then [] else b ∷ c_string s

abbrev is_delimiter : ℕ → Bool
is_delimiter b = (b == b'\r') || (b == b'\n')

-- `strtok(s, "\r\n")` until it returns NULL: the runs of other bytes, none of them empty.
-- `token` is the run that is being read.
unfoldable pub tokens_from : (token : List ℕ) → List ℕ → List (List ℕ)
tokens_from [] [] = []
tokens_from (t ∷ token) [] = (t ∷ token) ∷ []
tokens_from token (b ∷ s) = elim (is_delimiter b) [
  | true ↦ elim token [ [] ↦ tokens_from [] s | t ∷ ts ↦ (t ∷ ts) ∷ tokens_from [] s ]
  | false ↦ tokens_from (token ++ b ∷ []) s
]

unfoldable pub lines : (buffer : List ℕ) → List (List ℕ)
unfolding tokens_from c_string
lines buffer = tokens_from [] (c_string buffer)

-- What stands before and behind the first `|`; `none` is the NULL of `strstr(p, "|")`.
unfoldable pub strstr_bar : List ℕ → Option (List ℕ × List ℕ)
strstr_bar [] = none
strstr_bar (b ∷ p) =
    let rest = strstr_bar p in
    if b == b'|'
    then some ([], p)
    else elim rest [ none ↦ none | some (before, behind) ↦ some (b ∷ before, behind) ]

-- The two sides of a line in zeroed buffers of `size` bytes. `strlen(s)` reads a NULL if there is
-- no bar; a side that does not leave room for a NUL overflows its buffer.
unfoldable pub split_line : (size : ℕ) → List ℕ → Run (List ℕ × List ℕ)
unfolding strstr_bar
split_line size p = elim (strstr_bar p) [
  | none ↦ fault null_pointer
  | some (left, right) ↦
      if leb size (length left) || leb size (length right) then fault overflow else ok (left, right)
]
