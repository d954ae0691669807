-- ===== src/Relocate/Thumb16/Machine.antt =====
-- 16-bit Thumb instructions that read the program counter, as the architecture describes them:
-- what relocate.c has to preserve when it copies one of them. Their words and effects are written
-- down apart from the source. A memory is a function from addresses to halfwords. BX PC, ADR and
-- ADD with the program counter are left out, and MOV to the registers from 8 on. An instruction
-- that neither reads nor writes the program counter is one or two halfwords with any effect on the
-- registers, where numbers from 16 on stand for the data that it reaches, and on the flags; IT,
-- which makes the next instructions conditional, is none of them.
use unity_game_localization.Prelude.{
  ℕ, ◌+◌, ◌-◌, ◌*◌, ◌%◌, ◌^◌, ◌<◌, ◌≡◌, ltb, ◌==◌, if◌then◌else◌, Bool, true, false, ◌/◌, ◌≢◌, ◌≤◌,
  ◌⊎◌, ◌&&◌, ◌||◌, List, [], ◌∷◌, some, get_elem?, not,
}
use unity_game_localization.Prelude.Bits.{u32}

-- The registers but the program counter, the address of the instruction to run, the mode, and
-- which conditions the flags fulfil.
pub record Cpu : Type 0 where
  pub reg : ℕ → ℕ
  pub pc : ℕ
  pub thumb : Bool
  pub holds : ℕ → Bool
  -- what the words that do not involve the program counter do to registers and flags
  pub exec : (word : ℕ) → (ℕ → ℕ) → ℕ → ℕ
  pub exec_flags : (word : ℕ) → (ℕ → ℕ) → (ℕ → Bool) → ℕ → Bool

pub data Instr : Type 0 where
  -- LDR rd, [PC, #imm * 4]
  load_up : (rd imm : ℕ) → Instr
  -- MOV rd, PC
  move_pc : (rd : ℕ) → Instr
  -- B, and B with a condition
  branch : (offset : ℕ) → Instr
  branch_if : (condition offset : ℕ) → Instr
  -- CBZ and CBNZ, with the two parts of the offset
  compare_branch : (nonzero high offset rn : ℕ) → Instr
  -- LDR.W PC, [PC]
  jump : Instr
  -- NOP
  no_op : Instr
  -- the two bytes of a halfword, and the two halfwords of a wide instruction
  plain : (high low : ℕ) → Instr
  plain_wide : (high low : ℕ) → Instr

-- The halfwords of conditional branches and SVC, B, ADR, LDR from the PC, CBZ and CBNZ, and those
-- of ADD, CMP, MOV and BX with the PC as the operand.
abbrev pub involves_pc : (high low : ℕ) → Bool
involves_pc high low =
    (high / 16 == 13)
    || (high / 8 == 28)
    || (high / 8 == 20)
    || (high / 8 == 9)
    || ((high / 16 == 11) && (high / 4 % 2 == 0) && (high % 2 == 1))
    || ((high / 4 == 17) && (low / 8 % 16 == 15))

-- The fields fit. A wide instruction that is plain is no branch, and its first operand is not the
-- program counter.
unfoldable pub IsEncodable : Instr → Type 0
IsEncodable (load_up rd imm) = (rd < 8) × (imm < 256)
IsEncodable (move_pc rd) = (rd < 8) × (rd < 8)
IsEncodable (branch offset) = (offset < 2048) × (0 < 1)
IsEncodable (branch_if condition offset) = (condition < 14) × (offset < 256)
IsEncodable (compare_branch nonzero high offset rn) =
    (nonzero < 2) × (high < 2) × (offset < 32) × (rn < 8)
IsEncodable jump = (0 < 1) × (0 < 1)
IsEncodable no_op = (0 < 1) × (0 < 1)
IsEncodable (plain high low) =
    (high < 0xE8) × (low < 256) × (high ≢ 0xBF) × (involves_pc high low ≡ false)
IsEncodable (plain_wide high low) =
    (0xE800 ≤ high)
    × (high < 2 ^ 16)
    × (low < 2 ^ 16)
    × (high % 16 ≢ 15)
    × ((high / 2048 ≢ 30) ⊎ (low < 0x8000))

-- The first halfword.
unfoldable pub encode : Instr → ℕ
encode (load_up rd imm) = 0x4800 + rd * 256 + imm
encode (move_pc rd) = 0x4678 + rd
encode (branch offset) = 0xE000 + offset
encode (branch_if condition offset) = 0xD000 + condition * 256 + offset
encode (compare_branch nonzero high offset rn) =
    0xB100 + nonzero * 0x800 + high * 0x200 + offset * 8 + rn
encode jump = 0xF8DF
encode no_op = 0xBF00
encode (plain high low) = high * 256 + low
encode (plain_wide high low) = high

-- The signed offset of a branch of `bits` bits in halfwords, as a 32-bit number of bytes.
abbrev pub distance : (half offset : ℕ) → ℕ
distance half offset = if ltb offset half then offset * 2 else offset * 2 + 2 ^ 32 - 4 * half

-- The program counter that an instruction at an address reads, and the one that literals are
-- counted from.
abbrev pub aligned : ℕ → ℕ
aligned a = a - a % 4

-- A jump sets the mode by bit 0 of its target.
abbrev pub jump_to : (value : ℕ) → Cpu → Cpu
jump_to value c = record c { pc = value - value % 2; thumb = value % 2 == 1 }

-- What an instruction does that stands at `place` and behind which `next` stands. `load` reads the
-- word at an address.
unfoldable pub effect : (load : ℕ → ℕ) → Instr → (place next : ℕ) → Cpu → Cpu
effect load (load_up rd imm) place next c =
    let value = load (u32 (aligned (u32 (place + 4)) + imm * 4)) in
    record c { reg = λ r. if r == rd then value else c.reg r; pc = next }
effect load (move_pc rd) place next c =
    let value = u32 (place + 4) in
    record c { reg = λ r. if r == rd then value else c.reg r; pc = next }
effect load (branch offset) place next c = record c { pc = u32 (place + 4 + distance 1024 offset) }
effect load (branch_if condition offset) place next c = record c {
  pc = if c.holds condition then u32 (place + 4 + distance 128 offset) else next;
}
effect load (compare_branch nonzero high offset rn) place next c = record c {
  pc =
      if (if nonzero == 0 then c.reg rn == 0 else not (c.reg rn == 0))
      then u32 (place + 4 + high * 64 + offset * 2)
      else next;
}
effect load jump place next c = jump_to (load (aligned (u32 (place + 4)))) c
effect load no_op place next c = record c { pc = next }
effect load (plain high low) place next c =
    let word = high * 256 + low in
    record c { reg = c.exec word c.reg; holds = c.exec_flags word c.reg c.holds; pc = next }
effect load (plain_wide high low) place next c =
    let word = high * 65536 + low in
    record c { reg = c.exec word c.reg; holds = c.exec_flags word c.reg c.holds; pc = next }

-- How many bytes an instruction has.
unfoldable pub size : Instr → ℕ
size jump = 4
size (plain_wide high low) = 4
size _ = 2

abbrev pub word_at : (half : ℕ → ℕ) → ℕ → ℕ
word_at half a = half a + 65536 * half (a + 2)

-- The halfwords of an instruction.
unfoldable pub code : Instr → List ℕ
unfolding encode
code jump = encode jump ∷ 0xF000 ∷ []
code (plain_wide high low) = high ∷ low ∷ []
code i = encode i ∷ []

-- The halfwords stand in memory from an address on.
abbrev pub IsPlaced : (half : ℕ → ℕ) (start : ℕ) → List ℕ → Type 0
IsPlaced half start words = (k w : ℕ) → get_elem? words k ≡ some w → half (start + 2 * k) ≡ w

-- One instruction, fetched from where the program counter points.
pub data Step (half : ℕ → ℕ) : Cpu → Cpu → Type 0 where
  fetch :
      (i : Instr) (c : Cpu)
      → IsEncodable i
      → c.thumb ≡ true
      → IsPlaced half c.pc (code i)
      → Step half c (effect (word_at half) i c.pc (u32 (c.pc + size i)) c)

pub data Steps (half : ℕ → ℕ) : Cpu → Cpu → Type 0 where
  stop : (c : Cpu) → Steps half c c
  go : (c d e : Cpu) → Step half c d → Steps half d e → Steps half c e
