-- ===== src/Tools/Dump.antt =====
-- `hexDump` of tools.cpp: the lines that it logs when `IsDebug` is set. `char` is unsigned, as on
-- Arm.
pub mod Bytes
use unity_game_localization.Prelude.{
  ℕ, zero, suc, ◌+◌, ◌-◌, ◌*◌, ◌/◌, ◌%◌, ◌==◌, ltb, ◌&&◌, ◌||◌, not, if◌then◌else◌, bit_and, Bool,
  List, [], ◌∷◌, ◌++◌, get_or, replicate,
}
use unity_game_localization.Prelude.Bits.{◌>>◌}

abbrev pub hex_chars : List ℕ
hex_chars =
    b'0' ∷ b'1' ∷ b'2' ∷ b'3' ∷ b'4' ∷ b'5' ∷ b'6' ∷ b'7' ∷ b'8' ∷ b'9' ∷ b'A' ∷ b'B' ∷ b'C' ∷ b'D'
    ∷ b'E' ∷ b'F' ∷ []

-- The arguments of a call of `LOGE`.
pub record Line : Type 0 where
  pub position : ℕ
  pub str_hex_buffer : List ℕ
  pub str_print_able : List ℕ

abbrev pub high_digit : ℕ → ℕ
high_digit c = get_or hex_chars (bit_and (c >> 4) 0x0F) 0

abbrev pub low_digit : ℕ → ℕ
low_digit c = get_or hex_chars (bit_and c 0x0F) 0

abbrev pub printable : ℕ → ℕ
printable c =
    if ltb c 32 || (c == 0) || (c == b'\t') || (c == b'\r') || (c == b'\n') || (c == 8)
    then b'.'
    else c

-- Behind the eighth byte of a full line.
abbrev pub separator : (j : ℕ) → ℕ
separator j = if ltb j 10 && ((j + 1) % 8 == 0) then b'_' else b' '

-- The bytes `j`, `j + 1`, .. of a line, `left` of them.
unfoldable pub hex_cells : (buf : ℕ → ℕ) (sep : ℕ → ℕ) (i j left : ℕ) → List ℕ
hex_cells buf sep i j zero = []
hex_cells buf sep i j (suc left) =
    high_digit (buf (i + j)) ∷ low_digit (buf (i + j)) ∷ sep j ∷ hex_cells buf sep i (j + 1) left

unfoldable pub print_cells : (buf : ℕ → ℕ) (i j left : ℕ) → List ℕ
print_cells buf i j zero = []
print_cells buf i j (suc left) = printable (buf (i + j)) ∷ print_cells buf i (j + 1) left

-- The line that is left, with fewer than 16 bytes.
unfoldable pub last_line : (buf : ℕ → ℕ) (i left_size : ℕ) → List Line
unfolding hex_cells print_cells
last_line buf i left_size =
    if ltb left_size 1
    then []
    else record {
      position = i;
      str_hex_buffer =
          hex_cells buf (λ j. b' ') i 0 left_size ++ replicate (3 * (16 - left_size)) b' ';
      str_print_able = print_cells buf i 0 left_size;
    }
      ∷ []

-- The full lines from `i` on, `left` of them, and the last one.
unfoldable pub full_lines : (buf : ℕ → ℕ) (i left left_size : ℕ) → List Line
unfolding hex_cells print_cells last_line
full_lines buf i zero left_size = last_line buf i left_size
full_lines buf i (suc left) left_size =
    record {
      position = i;
      str_hex_buffer = hex_cells buf separator i 0 16;
      str_print_able = print_cells buf i 0 16;
    }
    ∷ full_lines buf (i + 16) left left_size

-- A length below 1 and a NULL buffer print nothing; the buffer is taken to be there.
unfoldable pub hex_dump : (buf : ℕ → ℕ) (len : ℕ) → List Line
unfolding full_lines
hex_dump buf len = if ltb len 1 then [] else full_lines buf 0 (len / 16) (len % 16)
