-- ===== src/Localize/Translate/Total.antt =====
-- The hook of `set_text` of inject_dobby.cpp on a text that no entry of the dictionary occurs in.
use unity_game_localization.Prelude.{
  ◌+◌, ◌≡◌, ◌≢◌, ◌==◌, ==_of_ne, false, none, some, arith, inl, inr,
}
use unity_game_localization.Run.{ok, Run-cases}
use unity_game_localization.Localize.Dictionary.{lines}
use unity_game_localization.Localize.Translate.{
  header_size, Memory, read, source_length, Globals, load_middle, scan, original, new_func_set,
}
use unity_game_localization.Localize.Translate.Found.{MissedBehind, scan-MissedBehind}

-- If the hook of `set_text` in inject_dobby.cpp hands on the original of a text whose length field
-- is not 0, then the dictionary has no line, or a first line that splits into two sides and behind
-- it only lines that split into two sides and are missed: the text or the left side has 100 bytes
-- or more, or the left side, folded, stands nowhere in the text as it was folded by the lines
-- before and by its own. Of the globals only the call counter, which goes up by one, the `header`
-- buffer, which holds the text's header, and the `middle` buffer change, which holds the text as
-- these lines folded it.
pub new_func_set-MissedBehind :
    (g g' : Globals) (text : Memory)
    → new_func_set g (some text) ≡ ok (g', original)
    → source_length text ≢ 0
    → MissedBehind
        (source_length text)
        (load_middle g.end_address g.middle_set text)
        (lines g.buffer)
        g'.middle_set
      × (g' ≡ record g {
        current_set_index = g.current_set_index + 1;
        header_set = read text 0 header_size;
        middle_set = g'.middle_set;
      })
unfolding new_func_set
new_func_set-MissedBehind g g' text h full =
    let scanned =
      scan (read text 0 header_size) (source_length text) 0
        (load_middle g.end_address g.middle_set text) (lines g.buffer) in
    let z : (source_length text == 0) ≡ false = ==_of_ne (source_length text) 0 full in
    elim (Run-cases scanned) [
      | inr (e, broken) ↦ absurd (ground arith)
      | inl ((m, some out), e) ↦ absurd (ground arith)
      | inl ((m, none), e) ↦
          let same : m ≡ g'.middle_set = ground arith in
          (scan-MissedBehind _ _ _ _ (rw same at e), ground arith)
    ]
