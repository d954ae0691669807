-- ===== src/Relocate/Common.antt =====
-- What the relocations of relocate.c share: words of the trampoline, register numbers, and
-- `ALIGN_PC`. The memory that literal loads read is a function from addresses to 32-bit words.
use unity_game_localization.Prelude.{ℕ, zero, suc, ◌==◌, ◌||◌, if◌then◌else◌, bit_and, List}
use unity_game_localization.Prelude.Bits.{◌>>◌}

pub record Emitted : Type 0 where
  pub words : List ℕ
  -- what the function returns: by how many words the trampoline grows
  pub offset : ℕ

-- `ALIGN_PC(pc)`.
abbrev pub align_pc : ℕ → ℕ
align_pc pc = bit_and pc 0xFFFFFFFC

-- `value & 0xFFFF` and `value >> 16`, stored as the two halves of a literal.
abbrev pub low_half : ℕ → ℕ
low_half value = bit_and value 0xFFFF

abbrev pub high_half : ℕ → ℕ
high_half value = value >> 16

-- `for (r = start; ; --r) if (r != a && r != b) break;`
unfoldable pub free_register : (start a b : ℕ) → ℕ
free_register zero a b = 0
free_register (suc r) a b =
    let next = free_register r a b in if (suc r == a) || (suc r == b) then next else suc r
