-- ===== src/Tools/Dump/Bytes.antt =====
-- What the lines of `hexDump` of tools.cpp say about the bytes.
use unity_game_localization.Prelude.{
  ℕ, zero, suc, ◌+◌, ◌-◌, ◌*◌, ◌/◌, ◌%◌, ◌<◌, ◌≡◌, refl, ap, ap₂, sym, ◌∙◌, ◌==◌, ltb,
  if◌then◌else◌, Bool, true, false, List, [], ◌∷◌, ◌++◌, arith, replicate, append-nil, all_below,
  all_below_lem, eq_of_==, ◌&&◌, not,
}
use unity_game_localization.Tools.Dump.{
  Line, high_digit, low_digit, separator, hex_cells, last_line, full_lines, hex_dump,
}

-- The bytes from `i` on.
unfoldable pub bytes_at : (buf : ℕ → ℕ) (i n : ℕ) → List ℕ
bytes_at buf i zero = []
bytes_at buf i (suc n) = buf i ∷ bytes_at buf (i + 1) n

-- The value of an upper-case hexadecimal digit.
abbrev digit_value : ℕ → ℕ
digit_value c = if ltb c 58 then c - 48 else c - 55

-- The bytes that a line's cells of three characters write; a cell of spaces ends them.
unfoldable pub cells_value : List ℕ → List ℕ
cells_value (a ∷ b ∷ sep ∷ cells) =
    let rest = cells_value cells in
    if a == b' ' then [] else (16 * digit_value a + digit_value b) ∷ rest
cells_value _ = []

unfoldable pub lines_value : List Line → List ℕ
unfolding cells_value
lines_value [] = []
lines_value (l ∷ ls) = cells_value l.str_hex_buffer ++ lines_value ls

-- Both digits of a byte, tried on every byte.
abbrev cell_is : ℕ → Bool
cell_is c =
    not (high_digit c == b' ') && (16 * digit_value (high_digit c) + digit_value (low_digit c) == c)

all_cells : all_below 256 cell_is ≡ true
unfolding all_below
all_cells = refl

digits_right : (c : ℕ) → c < 256 → cell_is c ≡ true
digits_right c l = all_below_lem 256 cell_is c all_cells l

and_not : (a b : Bool) → not a && b ≡ true → (a ≡ false) × (b ≡ true)
and_not true b h = absurd (cc h)
and_not false true h = (refl, refl)
and_not false false h = absurd (cc h)

-- Cells, with any separators, write the bytes that they are made of.
cells_value-hex_cells :
    (buf sep : ℕ → ℕ) (i j n : ℕ) (behind : List ℕ)
    → ((a : ℕ) → buf a < 256)
    → cells_value (hex_cells buf sep i j n ++ behind) ≡ bytes_at buf (i + j) n ++ cells_value behind
unfolding cells_value hex_cells bytes_at
cells_value-hex_cells buf sep i j zero behind b = refl
cells_value-hex_cells buf sep i j (suc n) behind b =
    let c = buf (i + j) in
    let d = digits_right c (b (i + j)) in
    let e : (high_digit c == b' ') ≡ false = (and_not _ _ d).0 in
    let e' : 16 * digit_value (high_digit c) + digit_value (low_digit c) ≡ c =
      eq_of_== _ _ (and_not _ _ d).1 in
    let next : i + (j + 1) ≡ i + j + 1 = omega arith in
    rw (e, e') (ap (λ bs. c ∷ bs) (rw next at (cells_value-hex_cells buf sep i (j + 1) n behind b)))

cells_value-spaces : (k : ℕ) → cells_value (replicate k b' ') ≡ []
unfolding cells_value
cells_value-spaces zero = refl
cells_value-spaces (suc zero) = refl
cells_value-spaces (suc (suc zero)) = refl
cells_value-spaces (suc (suc (suc k))) = refl

bytes_at-append :
    (buf : ℕ → ℕ) (i n m : ℕ) → bytes_at buf i (n + m) ≡ bytes_at buf i n ++ bytes_at buf (i + n) m
unfolding bytes_at
bytes_at-append buf i zero m =
    let e : 0 + m ≡ m = omega arith in let e' : i + 0 ≡ i = omega arith in rw (e, e') refl
bytes_at-append buf i (suc n) m =
    let e : suc n + m ≡ suc (n + m) = omega arith in
    let e' : i + suc n ≡ i + 1 + n = omega arith in
    rw (e, e') (ap (λ bs. buf i ∷ bs) (bytes_at-append buf (i + 1) n m))

module _ (buf : ℕ → ℕ) (b : (a : ℕ) → buf a < 256) where
  cells_value-cells :
      (sep : ℕ → ℕ) (i n : ℕ) → cells_value (hex_cells buf sep i 0 n) ≡ bytes_at buf i n
  unfolding cells_value
  cells_value-cells sep i n =
      let here : i + 0 ≡ i = omega arith in
      ap cells_value (sym (append-nil (hex_cells buf sep i 0 n)))
      ∙ (cells_value-hex_cells buf sep i 0 n [] b
          ∙ (append-nil _ ∙ ap (λ a. bytes_at buf a n) here))

  lines_value-last_line :
      (i left_size : ℕ) → lines_value (last_line buf i left_size) ≡ bytes_at buf i left_size
  unfolding last_line lines_value bytes_at
  lines_value-last_line i zero = refl
  lines_value-last_line i (suc n) =
      let here : i + 0 ≡ i = omega arith in
      let e : ltb (suc n) 1 ≡ false = ground arith in
      rw e (
        append-nil _
        ∙ (cells_value-hex_cells buf (λ j. b' ') i 0 (suc n) (replicate (3 * (16 - suc n)) b' ') b
            ∙ rw (here, cells_value-spaces (3 * (16 - suc n))) (append-nil _)))

  lines_value-full_lines :
      (i left left_size : ℕ)
      → lines_value (full_lines buf i left left_size) ≡ bytes_at buf i (16 * left + left_size)
  unfolding full_lines lines_value
  lines_value-full_lines i zero left_size =
      let e : 16 * 0 + left_size ≡ left_size = omega arith in
      rw e (lines_value-last_line i left_size)
  lines_value-full_lines i (suc left) left_size =
      let e : 16 * suc left + left_size ≡ 16 + (16 * left + left_size) = omega arith in
      ap₂ (λ xs ys. xs ++ ys) (cells_value-cells separator i 16)
        (lines_value-full_lines (i + 16) left left_size)
      ∙ (sym (bytes_at-append buf i 16 (16 * left + left_size)) ∙ ap (bytes_at buf i) (sym e))

  -- From the hexadecimal columns of the lines that `hexDump` logs of a buffer of bytes, read cell
  -- by cell up to the first blank one, one gets back the bytes of the buffer up to the length, no
  -- more and no fewer.
  pub lines_value-hex_dump : (len : ℕ) → lines_value (hex_dump buf len) ≡ bytes_at buf 0 len
  unfolding hex_dump lines_value bytes_at
  lines_value-hex_dump zero = refl
  lines_value-hex_dump (suc n) =
      let e : ltb (suc n) 1 ≡ false = ground arith in
      let size : 16 * (suc n / 16) + suc n % 16 ≡ suc n = omega arith in
      rw e (lines_value-full_lines 0 (suc n / 16) (suc n % 16) ∙ ap (bytes_at buf 0) size)
