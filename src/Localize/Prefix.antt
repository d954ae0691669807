-- ===== src/Localize/Prefix.antt =====
-- `new_func_set` and `new_func_get` of inject_inlinehook.cpp: an entry replaces the whole text
-- if the text begins with it. Managed strings are modelled as in `Translate`.
pub mod Laws
use unity_game_localization.Prelude.{
  ℕ, zero, suc, ◌+◌, ◌==◌, ◌&&◌, ◌||◌, not, if◌then◌else◌, Bool, true, false, List, [], ◌∷◌, ◌++◌,
  Option, none, some, take, replicate,
}
use unity_game_localization.Tools.Utf8.{utf8_to_unicode}
use unity_game_localization.Tools.Lower.{tolower_unicode}
use unity_game_localization.Tools.Search.{memcmp_equal}
use unity_game_localization.Run.{Run, ok, fault, null_pointer, ◌>>=◌}
use unity_game_localization.Localize.Dictionary.{split_size, lines, split_line}
use unity_game_localization.Localize.Translate.{
  header_size, end_size, Memory, read, load_middle, converted, Globals, Argument, original,
  replaced,
}

-- The new string: the old header, the translation, and four NULs.
unfoldable pub replacement : (header translation : List ℕ) → List ℕ
replacement header translation = take header_size header ++ (translation ++ replicate end_size 0)

-- The folded buffer, and whether it begins with the text `left`.
unfoldable pub begins_with : (middle left : List ℕ) → List ℕ × Bool
unfolding utf8_to_unicode tolower_unicode memcmp_equal
begins_with middle left =
    let length = (utf8_to_unicode left).1 in
    let convert_str = tolower_unicode (converted left) length in
    let middle' = tolower_unicode middle length in
    (middle', memcmp_equal middle' convert_str length)

-- The loop over the lines, `current_lines` of which are done.
unfoldable pub walk :
    (header : List ℕ) (current_lines : ℕ) (middle : List ℕ)
    → List (List ℕ)
    → Run (List ℕ × Option (List ℕ))
unfolding begins_with replacement split_line
walk header current_lines middle [] = ok (middle, none)
walk header current_lines middle (p ∷ ps) = elim (split_line split_size p) [
  | fault e ↦ fault e
  | ok (left, right) ↦ elim (current_lines == 0) [
    | true ↦ walk header (current_lines + 1) middle ps
    | false ↦
        let (middle', found) = begins_with middle left in
        elim found [
          | true ↦ ok (middle', some (replacement header (utf8_to_unicode right).0))
          | false ↦ walk header (current_lines + 1) middle' ps
        ]
  ]
]

unfoldable pub walk_text : Globals → (middle : List ℕ) → Memory → Run (List ℕ × Option (List ℕ))
unfolding walk lines load_middle
walk_text g middle text =
    walk (read text 0 header_size) 0 (load_middle g.end_address middle text) (lines g.buffer)

-- What a call of the set hook comes to: whether `inlineUnHook(func_dlopen)` is called, and what
-- the old function is called with.
pub record SetCall : Type 0 where
  pub unhooks_dlopen : Bool
  pub argument : Argument

abbrev set_argument : Option (List ℕ) → Argument
set_argument none = original
set_argument (some s) = replaced s

-- `arg1` is `none` where it is NULL: it is read before it is compared with NULL.
unfoldable pub prefix_func_set : Globals → Option Memory → Run (Globals × SetCall)
unfolding walk_text
prefix_func_set g none = fault null_pointer
prefix_func_set g (some arg1) =
    let g' = record g { current_set_index = g.current_set_index + 1 } in
    let unhooks = g'.current_set_index == 500 in
    let walked = walk_text g g.middle_set arg1 >>= (λ (r : List ℕ × Option (List ℕ)). ok (
      record g' { header_set = read arg1 0 header_size; middle_set = r.0 },
      record { unhooks_dlopen = unhooks; argument = set_argument r.1 },
    )) in
    if (arg1 12 == 0) && (arg1 14 == 0)
    then ok (g', record { unhooks_dlopen = unhooks; argument = original })
    else walked

-- What the get hook returns: the result of its first call of the old function, that of a second
-- call with the same arguments, or that of a second call whose last argument is the address of
-- the new string, which is freed by then.
pub data GetResult : Type 0 where
  first_result : GetResult
  second_call : GetResult
  second_call_with_freed : List ℕ → GetResult

abbrev get_result : Option (List ℕ) → GetResult
get_result none = second_call
get_result (some s) = second_call_with_freed s

-- `ret` is what the first call returned; `has_arg` says that `arg1` is not NULL.
unfoldable pub prefix_func_get :
    Globals → (has_arg : Bool) → (ret : Option Memory) → Run (Globals × GetResult)
unfolding walk_text
prefix_func_get g has_arg none =
    ok (record g { current_get_index = g.current_get_index + 1 }, first_result)
prefix_func_get g has_arg (some ret) =
    let g' = record g { current_get_index = g.current_get_index + 1 } in
    let walked = walk_text g g.middle_get ret >>= (λ (r : List ℕ × Option (List ℕ)).
      ok (record g' { header_get = read ret 0 header_size; middle_get = r.0 }, get_result r.1)) in
    if not has_arg || (ret header_size == 0) then ok (g', first_result) else walked
