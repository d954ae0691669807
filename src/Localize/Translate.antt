-- ===== src/Localize/Translate.antt =====
-- `new_func_set` and `new_func_get` of inject_dobby.cpp. A managed string is the memory that can
-- be read from its address on: 8 bytes, the 32-bit length in UTF-16 units, and the units. Both
-- hooks share the text of their loop, which is modelled once (`scan`). Debug output is left out, but for
-- the reading of `arg1` by the get hook.
pub mod Splice
pub mod Scan
pub mod Found
pub mod WholeText
pub mod Handlers
pub mod Total
use unity_game_localization.Prelude.{
  ℕ, zero, suc, ◌+◌, ◌-◌, ◌*◌, ◌/◌, ◌%◌, ◌^◌, ◌==◌, ltb, leb, ◌&&◌, if◌then◌else◌, Bool, true,
  false, List, [], ◌∷◌, ◌++◌, Option, none, some, length, take, drop, replicate, ◌||◌, not,
}
use unity_game_localization.Tools.Utf8.{utf8_to_unicode}
use unity_game_localization.Tools.Lower.{tolower_unicode}
use unity_game_localization.Tools.Search.{memcmp_plus}
use unity_game_localization.Run.{Run, ok, fault, null_pointer, unreadable, ◌>>=◌}
use unity_game_localization.Localize.Dictionary.{split_size, lines, split_line}

-- Tools/common.h.
abbrev pub header_size : ℕ
header_size = 12

abbrev pub end_size : ℕ
end_size = 4

-- The byte at each distance from a string's address.
abbrev pub Memory : Type 0
Memory = ℕ → ℕ

-- `memcpy` out of memory: the `n` bytes from `from` on.
unfoldable pub read : Memory → (from n : ℕ) → List ℕ
read mem from zero = []
read mem from (suc n) = mem from ∷ read mem (from + 1) n

-- `memccpy`: at most `n` bytes, and none behind the first one that is `stop`.
unfoldable pub memccpy : Memory → (from stop n : ℕ) → List ℕ
memccpy mem from stop zero = []
memccpy mem from stop (suc n) =
    mem from ∷ (if mem from == stop then [] else memccpy mem (from + 1) stop n)

-- `*((int *) p + 2) * 2` as a 32-bit pattern. A pattern of 2 ^ 31 or more is a negative `int`;
-- the search finds nothing for it, as for every number of at least 100.
unfoldable pub source_length : Memory → ℕ
source_length mem = (mem 8 + mem 9 * 2 ^ 8 + mem 10 * 2 ^ 16 + mem 11 * 2 ^ 24) * 2 % 2 ^ 32

-- An `int` as its four bytes, low byte first.
abbrev pub int_bytes : ℕ → List ℕ
int_bytes n = (n % 256) ∷ (n / 2 ^ 8 % 256) ∷ (n / 2 ^ 16 % 256) ∷ (n / 2 ^ 24 % 256) ∷ []

-- The globals that the hooks use: the dictionary's bytes, the address of the static `end`
-- buffer, the counters of calls, the 12 bytes of each `header` buffer, and the 200 bytes of each
-- `middle` buffer.
pub record Globals : Type 0 where
  pub buffer : List ℕ
  pub end_address : ℕ
  pub current_set_index : ℕ
  pub current_get_index : ℕ
  pub header_set : List ℕ
  pub header_get : List ℕ
  pub middle_set : List ℕ
  pub middle_get : List ℕ

-- `memset(middle, 0, SplitSize)` and the `memccpy` behind it. The byte that stops the copy is
-- the low byte of the address `end`.
unfoldable pub load_middle : (end_address : ℕ) → List ℕ → Memory → List ℕ
load_middle end_address middle mem =
    let copied = memccpy mem header_size (end_address % 256) split_size in
    copied ++ (replicate (split_size - length copied) 0 ++ drop split_size middle)

-- `UTF8_to_Unicode` into a zeroed buffer of 200 bytes.
abbrev pub converted : List ℕ → List ℕ
converted s = let dst = (utf8_to_unicode s).0 in dst ++ replicate (200 - length dst) 0

-- The new string: the header with the new length, the text before the match, the translation,
-- the text behind the match, and four NULs.
unfoldable pub splice :
    (header middle translation : List ℕ) (src_length length_start length_left : ℕ) → List ℕ
splice header middle translation src_length length_start length_left =
    let length_right = length translation in
    let length_end = src_length - length_start - length_left in
    let length_middle = length_start + length_right + length_end in
    take 8 header
    ++ (int_bytes (length_middle / 2)
        ++ (take length_start middle
            ++ (translation
                ++ (take length_end (drop (length_start + length_left) middle)
                    ++ replicate end_size 0))))

-- The body of the loop behind the split: where the text `left` stands in the folded buffer. Both
-- buffers have 200 bytes, of which the search reads fewer than 100.
unfoldable pub find_entry : (src_length : ℕ) → (middle left : List ℕ) → List ℕ × Option ℕ
unfolding utf8_to_unicode tolower_unicode memcmp_plus
find_entry src_length middle left =
    let length_left = (utf8_to_unicode left).1 in
    let convert_str = tolower_unicode (converted left) length_left in
    let middle' = tolower_unicode middle length_left in
    let cp_bit = memcmp_plus middle' convert_str src_length length_left in
    (middle', if ltb src_length 100 && ltb length_left 100 then cp_bit else none)

-- The loop over the lines, `current_lines` of which are done: the `middle` buffer that it
-- leaves, and the new string if an entry fits.
unfoldable pub scan :
    (header : List ℕ) (src_length current_lines : ℕ) (middle : List ℕ)
    → List (List ℕ)
    → Run (List ℕ × Option (List ℕ))
unfolding split_line find_entry splice
scan header src_length current_lines middle [] = ok (middle, none)
scan header src_length current_lines middle (p ∷ ps) = elim (split_line split_size p) [
  | fault e ↦ fault e
  | ok (left, right) ↦ elim (current_lines == 0) [
    | true ↦ scan header src_length (current_lines + 1) middle ps
    | false ↦
        let (middle', found) = find_entry src_length middle left in
        elim found [
          | some k ↦ ok (
            middle',
            some (
                splice header middle' (utf8_to_unicode right).0 src_length k
                  (utf8_to_unicode left).1),
          )
          | none ↦ scan header src_length (current_lines + 1) middle' ps
        ]
  ]
]

-- What `old_func_set` is called with in place of `arg1`.
pub data Argument : Type 0 where
  original : Argument
  replaced : List ℕ → Argument

-- The header buffer behind the loop: the old header, with the new length if a string was built,
-- which begins with it.
abbrev pub header_after : (header : List ℕ) → Option (List ℕ) → List ℕ
header_after header none = header
header_after header (some s) = take header_size s

argument : Option (List ℕ) → Argument
argument none = original
argument (some s) = replaced s

-- `arg1` is `none` where it is NULL: its length is read before it is compared with NULL.
unfoldable pub new_func_set : Globals → Option Memory → Run (Globals × Argument)
unfolding argument
new_func_set g none = fault null_pointer
new_func_set g (some arg1) =
    let g' = record g { current_set_index = g.current_set_index + 1 } in
    let src_length = source_length arg1 in
    let scanned =
      scan (read arg1 0 header_size) src_length 0 (load_middle g.end_address g.middle_set arg1)
        (lines g.buffer) in
    if src_length == 0 then ok (g', original) else do
      (middle, found) ← scanned
      ok (
        record g' {
          header_set = header_after (read arg1 0 header_size) found;
          middle_set = middle;
        },
        argument found,
      )

-- What the hook of `get_text` returns: the result of a second call of the old function, or a
-- new string.
pub data Answer : Type 0 where
  call_again : Answer
  fresh : List ℕ → Answer

-- A new string is built behind a `hexDump` of `arg1`, which is not the text here. `dumps` says that
-- this comes back: `arg1` is NULL, or the text's length and 16 bytes more can be read from it.
answer : (dumps : Bool) → Globals → Option (List ℕ) → Run (Globals × Answer)
answer dumps g none = ok (g, call_again)
answer dumps g (some s) = if dumps then ok (g, fresh s) else fault unreadable

-- `ret` is what the first call of the old function returned; `has_arg` says that `arg` is not
-- NULL.
unfoldable pub new_func_get :
    Globals → (has_arg dumps : Bool) → (ret : Option Memory) → Run (Globals × Answer)
unfolding answer
new_func_get g has_arg dumps none = fault null_pointer
new_func_get g has_arg dumps (some ret) =
    let g' = record g { current_get_index = g.current_get_index + 1 } in
    let src_length = source_length ret in
    let scanned =
      scan (read ret 0 header_size) src_length 0 (load_middle g.end_address g.middle_get ret)
        (lines g.buffer) in
    if (src_length == 0) || not has_arg
    then ok (g', call_again)
    else if ret header_size == 0
    then ok (g', call_again)
    else do
      (middle, found) ← scanned
      answer dumps
          (record g' {
            header_get = header_after (read ret 0 header_size) found;
            middle_get = middle;
          })
          found
