-- ===== src/Tools/Hex.antt =====
-- Hexadecimal numbers as `strtol` and `strtoul` read them, and `find_module_by_name` of
-- Tools/tools.cpp. A `long` has 32 bits.
pub mod Laws
use unity_game_localization.Prelude.{
  ℕ, zero, suc, ◌+◌, ◌-◌, ◌*◌, ◌^◌, ◌==◌, leb, ltb, ◌&&◌, ◌||◌, if◌then◌else◌, Bool, true, false,
  List, [], ◌∷◌, ◌++◌, Option, none, some, length,
}
use unity_game_localization.Prelude.Bits.{u32}
use unity_game_localization.Run.{Run, ok, fault, overflow}

unfoldable pub hex_digit : ℕ → Option ℕ
hex_digit b =
    if leb b'0' b && leb b b'9'
    then some (b - b'0')
    else if leb b'a' b && leb b b'f'
    then some (b - b'a' + 10)
    else if leb b'A' b && leb b b'F'
    then some (b - b'A' + 10)
    else none

-- The number that the digits at the start of a string continue.
unfoldable pub hex_value : (read_so_far : ℕ) → List ℕ → ℕ
unfolding hex_digit
hex_value n [] = n
hex_value n (b ∷ s) = elim (hex_digit b) [ none ↦ n | some d ↦ hex_value (n * 16 + d) s ]

-- `isspace`.
abbrev is_space : ℕ → Bool
is_space b = (b == 32) || leb 9 b && leb b 13

unfoldable pub skip_space : List ℕ → List ℕ
skip_space [] = []
skip_space (b ∷ s) = let rest = skip_space s in if is_space b then rest else b ∷ s

-- `0x` in front of the digits. Without a digit behind it the number is 0 either way.
unfoldable pub skip_0x : List ℕ → List ℕ
skip_0x (a ∷ b ∷ s) = if (a == b'0') && ((b == b'x') || (b == b'X')) then s else a ∷ b ∷ s
skip_0x s = s

-- `strtol(s, NULL, 16)`, as a 32-bit pattern.
unfoldable pub strtol16 : List ℕ → ℕ
unfolding hex_value skip_space skip_0x
strtol16 s = elim (skip_space s) [
  | [] ↦ 0
  | b ∷ rest ↦
      let plus = hex_value 0 (skip_0x rest) in
      let plain = hex_value 0 (skip_0x (b ∷ rest)) in
      if b == b'-'
      then u32 (2 ^ 32 - (if leb plus 0x80000000 then plus else 0x80000000))
      else if b == b'+'
      then (if leb plus 0x7FFFFFFF then plus else 0x7FFFFFFF)
      else (if leb plain 0x7FFFFFFF then plain else 0x7FFFFFFF)
]

unfoldable pub starts_with : (needle s : List ℕ) → Bool
starts_with [] s = true
starts_with (n ∷ needle) [] = false
starts_with (n ∷ needle) (b ∷ s) = (n == b) && starts_with needle s

-- `strstr(s, needle) != NULL`.
unfoldable pub contains : (needle s : List ℕ) → Bool
unfolding starts_with
contains needle [] = starts_with needle []
contains needle (b ∷ s) = starts_with needle (b ∷ s) || contains needle s

-- What stands before the first `-`; `none` where there is none.
unfoldable pub before_dash : List ℕ → Option (List ℕ)
before_dash [] = none
before_dash (b ∷ s) =
    let rest = before_dash s in
    if b == b'-' then some [] else elim rest [ none ↦ none | some l ↦ some (b ∷ l) ]

-- `sprintf(num, "0x%s", cmdline)` into 32 bytes and `strtoul(num, NULL, 0)`.
unfoldable pub base_address : List ℕ → Run ℕ
unfolding hex_value
base_address digits =
    let n = hex_value 0 digits in
    if ltb 29 (length digits)
    then fault overflow
    else ok (if leb n 0xFFFFFFFF then n else 0xFFFFFFFF)

abbrev executable_flags : List ℕ
executable_flags = b'r' ∷ b'-' ∷ b'x' ∷ b'p' ∷ []

-- `maps` holds what `fgets` reads from `/proc/<pid>/maps`, call by call; it is empty where the
-- file does not open.
unfoldable pub find_module_by_name : (maps : List (List ℕ)) (so_name : List ℕ) → Run ℕ
unfolding contains before_dash base_address
find_module_by_name [] so_name = ok 0
find_module_by_name (cmdline ∷ maps) so_name =
    let next = find_module_by_name maps so_name in
    if contains so_name cmdline && contains executable_flags cmdline
    then elim (before_dash cmdline) [ none ↦ next | some digits ↦ base_address digits ]
    else next
