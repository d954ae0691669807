-- ===== src/Localize/Translate/Handlers.antt =====
-- `new_func_set` and `new_func_get` of inject_dobby.cpp as wholes.
use mathlib.Core.List.{map}
use unity_game_localization.Prelude.{
  ℕ, ◌+◌, ◌*◌, ◌/◌, ◌%◌, ◌<◌, ◌≡◌, ◌≢◌, ◌⊎◌, refl, ap, ap₂, ◌∙◌, ==_of_ne, Bool, true, List, ◌∷◌,
  ◌++◌, Option, none, some, arith, length, take, replicate, inl, inr,
}
use unity_game_localization.Tools.Utf8.{utf8_to_unicode}
use unity_game_localization.Tools.Utf8.RoundTrip.{
  encode_all, utf16_units, AllCodePoints, utf8_to_unicode-encode,
}
use unity_game_localization.Tools.Lower.{tolower_unicode}
use unity_game_localization.Tools.Lower.Laws.{ascii_lower, Low16}
use unity_game_localization.Run.{Run, ok, fault, Fault, Run-cases}
use unity_game_localization.Localize.Dictionary.{lines}
use unity_game_localization.Localize.Dictionary.Format.{
  render, AllLines, NoBar, lines-render, split_line-bar,
}
use unity_game_localization.Localize.Translate.{
  header_size, end_size, Memory, read, source_length, int_bytes, Globals, load_middle, scan, splice,
  replaced, new_func_set, fresh, new_func_get,
}
use unity_game_localization.Localize.Translate.Scan.{scan-skip, scan-hit, key_length}
use unity_game_localization.Localize.Translate.Found.{HitBehind, scan-HitBehind}
use unity_game_localization.Localize.Translate.WholeText.{
  Reads, Without, load_middle-starts, length-utf16_units, find_entry-whole, key_length-encode_all,
  splice-whole,
}

abbrev set_scan : Globals → Memory → Run (List ℕ × Option (List ℕ))
set_scan g arg1 =
    scan (read arg1 0 header_size) (source_length arg1) 0
      (load_middle g.end_address g.middle_set arg1) (lines g.buffer)

abbrev get_scan : Globals → Memory → Run (List ℕ × Option (List ℕ))
get_scan g ret =
    scan (read ret 0 header_size) (source_length ret) 0 (load_middle g.end_address g.middle_get ret)
      (lines g.buffer)

-- If the hook of `set_text` in inject_dobby.cpp hands on a new string, then the dictionary has a
-- first line, which splits into two sides and is not searched for, lines behind it that split into
-- two sides and are missed, and a line behind these whose left side is found. A line is missed if
-- the text or its left side has 100 bytes or more, or its left side, folded, stands nowhere in the
-- text as it was folded by the lines before and by its own. The text and the found side have fewer
-- than 100 bytes, and its place is the first one at which it stands. The string is the first 8
-- bytes of the old header, the number of units of the new text, the text before the match, the
-- right side in UTF-16, the text behind the match, and four NULs; of the globals only the call
-- counter, which goes up by one, the `header` buffer, which holds the new header, and the `middle`
-- buffer change.
pub new_func_set-Hit :
    (g g' : Globals) (arg1 : Memory) (out : List ℕ)
    → new_func_set g (some arg1) ≡ ok (g', replaced out)
    → HitBehind
        (read arg1 0 header_size)
        (source_length arg1)
        (load_middle g.end_address g.middle_set arg1)
        (lines g.buffer)
        g'.middle_set
        out
      × (g' ≡ record g {
        current_set_index = g.current_set_index + 1;
        header_set = take header_size out;
        middle_set = g'.middle_set;
      })
unfolding new_func_set
new_func_set-Hit g g' arg1 out h =
    let (e, e') = by_cases (Run-cases (set_scan g arg1)) in (scan-HitBehind _ _ _ _ e, e')
  where
    by_cases :
        ((a : List ℕ × Option (List ℕ)) × (set_scan g arg1 ≡ ok a))
          ⊎ ((e : Fault) × (set_scan g arg1 ≡ fault e))
        → (set_scan g arg1 ≡ ok (g'.middle_set, some out))
          × (g' ≡ record g {
            current_set_index = g.current_set_index + 1;
            header_set = take header_size out;
            middle_set = g'.middle_set;
          })
    by_cases (inl ((m, none), e)) = ground arith
    by_cases (inl ((m, some s), e)) = ground arith
    by_cases (inr (f, e)) = ground arith

-- If the hook of `get_text` in inject_dobby.cpp returns a new string, then the dictionary has a
-- first line, which splits into two sides and is not searched for, lines behind it that split into
-- two sides and are missed, and a line behind these whose left side is found. A line is missed if
-- the text or its left side has 100 bytes or more, or its left side, folded, stands nowhere in the
-- text as it was folded by the lines before and by its own. The text and the found side have fewer
-- than 100 bytes, and its place is the first one at which it stands. The string is the first 8
-- bytes of the old header, the number of units of the new text, the text before the match, the
-- right side in UTF-16, the text behind the match, and four NULs; `arg` is not NULL, `hexDump` can
-- read `arg1`, the text's first byte is not NUL, and of the globals only the call counter, which
-- goes up by one, the `header` buffer, which holds the new header, and the `middle` buffer change.
pub new_func_get-Hit :
    (g g' : Globals) (has_arg dumps : Bool) (ret : Memory) (out : List ℕ)
    → new_func_get g has_arg dumps (some ret) ≡ ok (g', fresh out)
    → HitBehind
        (read ret 0 header_size)
        (source_length ret)
        (load_middle g.end_address g.middle_get ret)
        (lines g.buffer)
        g'.middle_get
        out
      × (has_arg ≡ true)
      × (dumps ≡ true)
      × (ret header_size ≢ 0)
      × (g' ≡ record g {
        current_get_index = g.current_get_index + 1;
        header_get = take header_size out;
        middle_get = g'.middle_get;
      })
unfolding new_func_get
new_func_get-Hit g g' has_arg dumps ret out h =
    let (e, a, b, c, e') = by_cases (Run-cases (get_scan g ret)) in
    (scan-HitBehind _ _ _ _ e, a, b, c, e')
  where
    by_cases :
        ((a : List ℕ × Option (List ℕ)) × (get_scan g ret ≡ ok a))
          ⊎ ((e : Fault) × (get_scan g ret ≡ fault e))
        → (get_scan g ret ≡ ok (g'.middle_get, some out))
          × (has_arg ≡ true)
          × (dumps ≡ true)
          × (ret header_size ≢ 0)
          × (g' ≡ record g {
            current_get_index = g.current_get_index + 1;
            header_get = take header_size out;
            middle_get = g'.middle_get;
          })
    by_cases (inl ((m, none), e)) = ground arith
    by_cases (inl ((m, some s), e)) = ground arith
    by_cases (inr (f, e)) = ground arith

-- The string that replaces a text as a whole.
abbrev pub translated : (header translation : List ℕ) → List ℕ
translated header translation =
    take 8 header ++ (int_bytes (length translation / 2) ++ (translation ++ replicate end_size 0))

-- The header with the length of a translation.
abbrev pub new_header : Memory → (rs : List ℕ) → List ℕ
new_header mem rs = take 8 (read mem 0 header_size) ++ int_bytes (length (utf16_units rs) / 2)

-- A dictionary file whose first entry is `ls|rs`, behind the line of addresses `a|b`.
abbrev pub dictionary : (a b ls rs : List ℕ) → List (List ℕ) → List (List ℕ)
dictionary a b ls rs more = (a ++ b'|' ∷ b) ∷ (encode_all ls ++ b'|' ∷ encode_all rs) ∷ more

module _ (a b us ls rs : List ℕ) (more : List (List ℕ)) (g : Globals) (mem : Memory)
    (file : g.buffer ≡ render (dictionary a b ls rs more))
    (well_formed : AllLines (dictionary a b ls rs more)) (bar₁ : NoBar a)
    (bar₂ : NoBar (encode_all ls)) (room₁ : (length a < 100) × (length b < 100))
    (room₂ : (length (encode_all ls) < 100) × (length (encode_all rs) < 100))
    (entry : AllCodePoints ls × Low16 ls × AllCodePoints rs) (text : Low16 us)
    (same : map ascii_lower us ≡ map ascii_lower ls) (pos : 0 < length us)
    (short : 2 * length us < 100) (counted : source_length mem ≡ 2 * length us)
    (holds : Reads mem header_size (utf16_units us))
    (unstopped : Without (g.end_address % 256) (utf16_units us)) where
  loaded :
      (middle : List ℕ)
      → (rest : List ℕ) × (load_middle g.end_address middle mem ≡ utf16_units us ++ rest)
  loaded middle =
      load_middle-starts g.end_address middle mem (utf16_units us)
        (omega (arith, length-utf16_units us)) holds unstopped

  read_lines : lines g.buffer ≡ dictionary a b ls rs more
  read_lines = ap lines file ∙ lines-render (dictionary a b ls rs more) well_formed

  scan-whole :
      (header rest : List ℕ)
      → (middle' : List ℕ) × (scan header
            (2 * length us)
            0
            (utf16_units us ++ rest)
            (dictionary a b ls rs more)
          ≡ ok (middle', some (translated header (utf16_units rs))))
  scan-whole header rest = (
    tolower_unicode (utf16_units us ++ rest) (key_length (encode_all ls)),
    scan-skip header (2 * length us) 0 (utf16_units us ++ rest) (a ++ b'|' ∷ b) _ (a, b)
          (split_line-bar 100 a b bar₁ room₁.0 room₁.1) refl
        ∙ scan-hit header (2 * length us) 1 (utf16_units us ++ rest)
            (encode_all ls ++ b'|' ∷ encode_all rs) more (encode_all ls) (encode_all rs) 0
            (split_line-bar 100 (encode_all ls) (encode_all rs) bar₂ room₂.0 room₂.1) refl
            (find_entry-whole us ls rest text entry.1 entry.0 same pos short)
        ∙ ap
            (λ out.
              ok (tolower_unicode (utf16_units us ++ rest) (key_length (encode_all ls)), some out))
            (spliced _),
  )
    where
      spliced :
          (middle : List ℕ)
          → splice header middle
              (utf8_to_unicode (encode_all rs)).0
              (2 * length us)
              0
              (key_length (encode_all ls))
            ≡ translated header (utf16_units rs)
      spliced middle =
          ap₂ (λ t l. splice header middle t (2 * length us) 0 l)
            (ap (λ (r : List ℕ × ℕ). r.0) (utf8_to_unicode-encode rs entry.2))
            (key_length-encode_all us ls rest text entry.1 entry.0 same)
          ∙ splice-whole header middle (utf16_units rs) (2 * length us)

  scan-loaded :
      (header middle : List ℕ)
      → (middle' : List ℕ) × (scan header
            (source_length mem)
            0
            (load_middle g.end_address middle mem)
            (lines g.buffer)
          ≡ ok (middle', some (translated header (utf16_units rs))))
  scan-loaded header middle =
      let (rest, e) = loaded middle in rw (e, counted, read_lines) (scan-whole header rest)

  -- Take a dictionary file whose lines are not empty and hold no NUL, CR or LF, whose first line is
  -- `a|b` and whose second line is `ls|rs`, each side of fewer than 100 bytes, no bar in `a` and
  -- `ls`, with `ls` and `rs` in UTF-8, of code points from 1 to 0x1FFFFF, below 0x10000 in `ls`.
  -- Take a text of 1 to 49 UTF-16 units that is `ls` up to ASCII case, with its length in the
  -- length field and no byte equal to the low byte of the address `end`. The hook of `set_text` in
  -- inject_dobby.cpp then hands on a string with the first 8 bytes of the old one, the number of
  -- units of `rs`, `rs` in UTF-16 and four NULs, and changes no global but its call counter, which
  -- goes up by one, its `middle` buffer, and its `header` buffer, which holds the header of that
  -- string.
  pub new_func_set-whole :
      (middle' : List ℕ) × (new_func_set g (some mem)
        ≡ ok (
          record g {
            current_set_index = g.current_set_index + 1;
            header_set = new_header mem rs;
            middle_set = middle';
          },
          replaced (translated (read mem 0 header_size) (utf16_units rs)),
        ))
  unfolding new_func_set read
  new_func_set-whole =
      let (middle', e) = scan-loaded (read mem 0 header_size) g.middle_set in
      (middle', rw (==_of_ne (source_length mem) 0 (omega (arith, counted))) (rw e))

  -- Under the hypotheses on the dictionary file and the text of `new_func_set-whole`, where
  -- moreover `arg` is not NULL, `hexDump` can read `arg1`, and the text's first byte is not NUL,
  -- the hook of `get_text` in inject_dobby.cpp returns a string with the first 8 bytes of the old
  -- one, the number of units of `rs`, `rs` in UTF-16 and four NULs, and changes no global but its
  -- call counter, which goes up by one, its `middle` buffer, and its `header` buffer, which holds
  -- the header of that string.
  pub new_func_get-whole :
      mem header_size ≢ 0
      → (middle' : List ℕ) × (new_func_get g true true (some mem)
          ≡ ok (
            record g {
              current_get_index = g.current_get_index + 1;
              header_get = new_header mem rs;
              middle_get = middle';
            },
            fresh (translated (read mem 0 header_size) (utf16_units rs)),
          ))
  unfolding new_func_get read
  new_func_get-whole c =
      let (middle', e) = scan-loaded (read mem 0 header_size) g.middle_get in
      (
        middle',
        rw (==_of_ne (source_length mem) 0 (omega (arith, counted)), ==_of_ne (mem header_size) 0 c)
            (rw e),
      )
