-- ===== src/Localize/Dictionary/Format.antt =====
-- The format of the dictionary file that inject_dobby.cpp reads, as text that is written.
use unity_game_localization.Prelude.{
  ℕ, ◌<◌, ◌≡◌, ◌≢◌, refl, ap, ◌∙◌, ==_of_ne, List, [], ◌∷◌, ◌++◌, append_assoc, append-nil, some,
  arith, length, replicate,
}
use unity_game_localization.Run.{ok}
use unity_game_localization.Localize.Dictionary.{
  c_string, tokens_from, lines, strstr_bar, split_line,
}

-- The bytes that may stand in a line.
abbrev pub IsText : List ℕ → Type 0
IsText [] = Unit {0}
IsText (b ∷ s) = (b ≢ 0) × (b ≢ b'\r') × (b ≢ b'\n') × IsText s

abbrev pub AllLines : List (List ℕ) → Type 0
AllLines [] = Unit {0}
AllLines (l ∷ ls) = (l ≢ []) × IsText l × AllLines ls

-- A file with these lines, each ended by CR LF, and what follows it in the zeroed buffer.
unfoldable pub render : List (List ℕ) → List ℕ
render [] = 0 ∷ 0 ∷ 0 ∷ 0 ∷ []
render (l ∷ ls) = l ++ b'\r' ∷ b'\n' ∷ render ls

-- The same without the NULs.
unfoldable pub joined : List (List ℕ) → List ℕ
joined [] = []
joined (l ∷ ls) = l ++ b'\r' ∷ b'\n' ∷ joined ls

-- What `render` is in terms of it.
pub render-joined : (ls : List (List ℕ)) → joined ls ++ replicate 4 0 ≡ render ls
unfolding render joined
render-joined [] = refl
render-joined (l ∷ ls) =
    append_assoc l (b'\r' ∷ b'\n' ∷ joined ls) (replicate 4 0)
    ∙ ap (λ s. l ++ b'\r' ∷ b'\n' ∷ s) (render-joined ls)

c_string-append : (l s : List ℕ) → IsText l → c_string (l ++ s) ≡ l ++ c_string s
unfolding c_string
c_string-append [] s h = refl
c_string-append (b ∷ l) s h = rw (==_of_ne b 0 h.0, c_string-append l s h.3)

c_string-render : (ls : List (List ℕ)) → AllLines ls → c_string (render ls) ≡ joined ls
unfolding c_string render joined
c_string-render [] h = refl
c_string-render (l ∷ ls) h =
    rw (c_string-append l (b'\r' ∷ b'\n' ∷ render ls) h.1, c_string-render ls h.2)

-- Reading a line's bytes only makes the token longer.
tokens_from-append :
    (token l s : List ℕ) → IsText l → tokens_from token (l ++ s) ≡ tokens_from (token ++ l) s
unfolding tokens_from
tokens_from-append token [] s h = rw append-nil
tokens_from-append token (b ∷ l) s h =
    rw (==_of_ne b b'\r' h.1, ==_of_ne b b'\n' h.2, tokens_from)
      (tokens_from-append (token ++ b ∷ []) l s h.3
        ∙ ap (λ t. tokens_from t s) (append_assoc token (b ∷ []) l))

tokens_from-end : (l s : List ℕ) → l ≢ [] → tokens_from l (b'\r' ∷ b'\n' ∷ s) ≡ l ∷ tokens_from [] s
unfolding tokens_from
tokens_from-end [] s h = absurd (h refl)
tokens_from-end (t ∷ l) s h = refl

tokens_from-joined : (ls : List (List ℕ)) → AllLines ls → tokens_from [] (joined ls) ≡ ls
unfolding tokens_from joined
tokens_from-joined [] h = refl
tokens_from-joined (l ∷ ls) h =
    tokens_from-append [] l _ h.1
    ∙ tokens_from-end l (joined ls) h.0
    ∙ ap (λ r. l ∷ r) (tokens_from-joined ls h.2)

-- Lines that are not empty and hold no NUL, CR or LF, written each with a CR LF behind it into a
-- zeroed buffer, are the lines that are read from it.
pub lines-render : (ls : List (List ℕ)) → AllLines ls → lines (render ls) ≡ ls
unfolding lines
lines-render ls h = rw (c_string-render ls h) (tokens_from-joined ls h)

abbrev pub NoBar : List ℕ → Type 0
NoBar [] = Unit {0}
NoBar (b ∷ s) = (b ≢ b'|') × NoBar s

strstr_bar-append :
    (left right : List ℕ) → NoBar left → strstr_bar (left ++ b'|' ∷ right) ≡ some (left, right)
unfolding strstr_bar
strstr_bar-append [] right h = refl
strstr_bar-append (b ∷ left) right h = rw (strstr_bar-append left right h.1, ==_of_ne b b'|' h.0)

-- A line of two sides with a bar between them, none in the left side, gives back the two sides if
-- each is shorter than the buffers.
pub split_line-bar :
    (size : ℕ) (left right : List ℕ)
    → NoBar left
    → length left < size
    → length right < size
    → split_line size (left ++ b'|' ∷ right) ≡ ok (left, right)
unfolding split_line
split_line-bar size left right h l r =
    rw (strstr_bar-append left right h, split_line) (ground arith)
