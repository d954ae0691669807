-- ===== src/Localize/Translate/Splice.antt =====
-- The shape of the new string that the hooks of inject_dobby.cpp build.
use unity_game_localization.Prelude.{
  ℕ, zero, suc, ◌+◌, ◌-◌, ◌*◌, ◌/◌, ◌%◌, ◌^◌, ◌≤◌, ◌<◌, ◌≡◌, sym, ◌∙◌, List, [], ◌∷◌, ◌++◌, arith,
  length, take, drop, get_or, replicate, length-append, length-take, length-drop,
  take-append_length, drop-append_length, append_assoc,
}
use unity_game_localization.Localize.Translate.{end_size, Memory, source_length, int_bytes, splice}

-- The memory that a buffer of bytes is.
abbrev pub memory : List ℕ → Memory
memory s i = get_or s i 0

get_or-append :
    (xs ys : List ℕ) (i k : ℕ) → k ≡ length xs + i → get_or (xs ++ ys) k 0 ≡ get_or ys i 0
get_or-append [] ys i k e = let e' : k ≡ i = omega arith in rw e'
get_or-append (x ∷ xs) ys i zero e = absurd (omega arith)
get_or-append (x ∷ xs) ys i (suc k) e = get_or-append xs ys i k (omega arith)

-- The length field of a string that begins with 8 bytes and an `int`.
source_length-int_bytes :
    (h s : List ℕ) (n : ℕ)
    → length h ≡ 8
    → n < 2 ^ 31
    → source_length (memory (h ++ (int_bytes n ++ s))) ≡ 2 * n
unfolding source_length
source_length-int_bytes h s n e l =
    rw
      (
        get_or-append h (int_bytes n ++ s) 0 8 (omega arith),
        get_or-append h (int_bytes n ++ s) 1 9 (omega arith),
        get_or-append h (int_bytes n ++ s) 2 10 (omega arith),
        get_or-append h (int_bytes n ++ s) 3 11 (omega arith),
      )
      (omega arith)

take-append_at : (xs ys : List ℕ) (n : ℕ) → length xs ≡ n → take n (xs ++ ys) ≡ xs
take-append_at xs ys n e = rw (sym e) (take-append_length xs ys)

drop-append_at :
    (xs ys zs : List ℕ) (n : ℕ) → n ≡ length xs + length ys → drop n (xs ++ (ys ++ zs)) ≡ zs
drop-append_at xs ys zs n e =
    rw (e, ← length-append xs ys, ← append_assoc xs ys zs) (drop-append_length (xs ++ ys) zs)

-- The text of the new string: what stands before the match, the translation, and what stands
-- behind the match.
abbrev pub spliced_text :
    (middle translation : List ℕ) (src_length length_start length_left : ℕ) → List ℕ
spliced_text middle translation n k l =
    take k middle ++ (translation ++ take (n - k - l) (drop (k + l) middle))

module _ (header middle translation : List ℕ) (n k l : ℕ) (head : length header ≡ 12)
    (fits : k + l ≤ n) (room : n ≤ length middle) where
  length-spliced_text :
      length (spliced_text middle translation n k l) ≡ k + length translation + (n - k - l)
  length-spliced_text =
      rw
        (
          length-append (take k middle) (translation ++ take (n - k - l) (drop (k + l) middle)),
          length-append translation (take (n - k - l) (drop (k + l) middle)),
          length-take k middle (omega arith),
          length-take (n - k - l) (drop (k + l) middle) (omega (arith, length-drop (k + l) middle)),
        )
        (omega arith)

  splice-eq :
      splice header middle translation n k l
      ≡ take 8 header
        ++ (int_bytes (length (spliced_text middle translation n k l) / 2)
            ++ (spliced_text middle translation n k l ++ replicate end_size 0))
  unfolding splice
  splice-eq = rw length-spliced_text (simp append_assoc)

  -- With a header of 12 bytes and a match that lies in the text and in the buffer, and a new text
  -- of an even number of bytes below 2 ^ 31, the spliced string keeps the first 8 bytes of the
  -- header, holds behind its header the text before the match, the translation, the text behind the
  -- match and four NULs, and its length field gives the length of that new text.
  pub splice_lem :
      length (spliced_text middle translation n k l) % 2 ≡ 0
      → length (spliced_text middle translation n k l) < 2 ^ 31
      → (take 8 (splice header middle translation n k l) ≡ take 8 header)
        × (drop 12 (splice header middle translation n k l)
            ≡ spliced_text middle translation n k l ++ replicate end_size 0)
        × (source_length (memory (splice header middle translation n k l))
            ≡ length (spliced_text middle translation n k l))
  splice_lem even small = rw splice-eq (
    take-append_at (take 8 header) _ 8 keep,
    drop-append_at (take 8 header) (int_bytes _) _ 12 (omega (arith, keep)),
    source_length-int_bytes (take 8 header) _ _ keep (omega arith) ∙ omega arith,
  )
    where
      keep : length (take 8 header) ≡ 8
      keep = length-take 8 header (omega arith)
