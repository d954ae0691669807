-- ===== src/InlineHook/World.antt =====
-- The state that inlineHook.c works on: the table `info`, the process's memory byte by byte, the
-- program counters of its other threads, and the ranges that `cacheflush` was called with.
use unity_game_localization.Prelude.{
  ℕ, zero, suc, ◌+◌, ◌*◌, ◌/◌, ◌%◌, ◌^◌, ◌==◌, if◌then◌else◌, bit_and, bit_or, Bool, List, [], ◌∷◌,
  Option,
}
use unity_game_localization.Relocate.Boundaries.{Boundaries}

-- `enum ele7en_status` of include/inlineHook.h, as far as it is returned.
pub data Status : Type 0 where
  ok error_unknown error_not_executable error_not_registered error_not_hooked
        error_already_registered error_already_hooked :
      Status

-- `enum hook_status`, kept in an `int`.
abbrev pub registered : ℕ
registered = 0

abbrev pub hooked : ℕ
hooked = 1

-- `struct inlineHookItem`. `mode` is never used.
pub record Item : Type 0 where
  pub target_addr : ℕ
  pub new_addr : ℕ
  -- where to store the address of the trampoline, or NULL
  pub proto_addr : Option ℕ
  -- the copied bytes, `length` of them
  pub orig_instructions : List ℕ
  pub boundaries : Boundaries
  pub trampoline_instructions : ℕ
  pub length : ℕ
  pub status : ℕ

-- `struct inlineHookInfo`: 1024 slots, the first `size` of which are in use.
pub record Info : Type 0 where
  pub item : List Item
  pub size : ℕ

abbrev pub Memory : Type 0
Memory = ℕ → ℕ

-- A thread of the process other than the caller; `attaches` says that `ptrace` can stop it.
pub record Thread : Type 0 where
  pub pc : ℕ
  pub attaches : Bool

pub record World : Type 0 where
  pub info : Info
  pub memory : Memory
  pub threads : List Thread
  pub flushed : List (ℕ × ℕ)

-- The macros on bit 0 of a 32-bit address.
abbrev pub set_bit0 : ℕ → ℕ
set_bit0 addr = bit_or addr 1

abbrev pub clear_bit0 : ℕ → ℕ
clear_bit0 addr = bit_and addr 0xFFFFFFFE

abbrev pub test_bit0 : ℕ → Bool
test_bit0 addr = bit_and addr 1 == 1

-- `memcpy` out of memory and into it.
unfoldable pub read : Memory → (from n : ℕ) → List ℕ
read mem from zero = []
read mem from (suc n) = mem from ∷ read mem (from + 1) n

unfoldable pub write : Memory → (to : ℕ) → List ℕ → Memory
write mem to [] = mem
write mem to (b ∷ bs) = write (λ a. if a == to then b else mem a) (to + 1) bs

-- Words of 16 and 32 bits as bytes, low byte first.
abbrev pub bytes16 : ℕ → List ℕ
bytes16 w = (w % 256) ∷ (w / 256 % 256) ∷ []

abbrev pub bytes32 : ℕ → List ℕ
bytes32 w = (w % 256) ∷ (w / 2 ^ 8 % 256) ∷ (w / 2 ^ 16 % 256) ∷ (w / 2 ^ 24 % 256) ∷ []

abbrev pub read16 : Memory → ℕ → ℕ
read16 mem a = mem a + 256 * mem (a + 1)

abbrev pub read32 : Memory → ℕ → ℕ
read32 mem a = mem a + 256 * mem (a + 1) + 65536 * mem (a + 2) + 16777216 * mem (a + 3)
