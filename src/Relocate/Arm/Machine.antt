-- ===== src/Relocate/Arm/Machine.antt =====
-- The Arm instructions that read the program counter, as the architecture describes them, for the
-- condition `always`: what relocate.c has to preserve when it copies one of them. Their words and
-- effects are written down apart from the source. The memory that loads and fetches read is a
-- function from addresses to 32-bit words. Rotated constants are left out. An instruction that
-- neither reads nor writes the program counter is a word with any effect on the registers, where
-- numbers from 16 on stand for the flags and for the data that it reaches.
use unity_game_localization.Prelude.{
  ℕ, ◌+◌, ◌-◌, ◌*◌, ◌/◌, ◌%◌, ◌≢◌, ◌⊎◌, ◌^◌, ◌<◌, ◌≡◌, ltb, ◌==◌, if◌then◌else◌, Bool, true, false,
}
use unity_game_localization.Prelude.Bits.{u32}

-- The registers but the program counter, the address of the instruction to run, and the mode.
pub record Cpu : Type 0 where
  pub reg : ℕ → ℕ
  pub pc : ℕ
  pub thumb : Bool
  -- what the words that do not involve the program counter do
  pub exec : (word : ℕ) → (ℕ → ℕ) → ℕ → ℕ

pub data Instr : Type 0 where
  -- LDR rd, [PC, #imm] and LDR rd, [PC, #-imm]
  load_up load_down : (rd imm : ℕ) → Instr
  -- ADD rd, PC, #imm and SUB rd, PC, #imm
  add_pc sub_pc : (rd imm : ℕ) → Instr
  -- MOV rd, PC
  move_pc : (rd : ℕ) → Instr
  -- BX PC
  exchange_pc : Instr
  -- B, BL, and BLX with the halfword bit
  branch call : (offset : ℕ) → Instr
  call_thumb : (half offset : ℕ) → Instr
  -- the bits 20 to 27, the first operand's register, and the other 16 bits
  plain : (op rn low : ℕ) → Instr

-- The fields fit. A plain instruction is no branch, and names the program counter neither as the
-- first operand nor, where the last four bits name a register, as the last one.
unfoldable pub IsEncodable : Instr → Type 0
IsEncodable (load_up rd imm) = (rd < 16) × (imm < 4096)
IsEncodable (load_down rd imm) = (rd < 16) × (imm < 4096)
IsEncodable (add_pc rd imm) = (rd < 16) × (imm < 256)
IsEncodable (sub_pc rd imm) = (rd < 16) × (imm < 256)
IsEncodable (move_pc rd) = (rd < 16) × (rd < 16)
IsEncodable exchange_pc = (0 < 1) × (0 < 1)
IsEncodable (branch offset) = (offset < 2 ^ 24) × (0 < 1)
IsEncodable (call offset) = (offset < 2 ^ 24) × (0 < 1)
IsEncodable (call_thumb half offset) = (half < 2) × (offset < 2 ^ 24)
IsEncodable (plain op rn low) =
    (op < 256) × (rn < 15) × (low < 2 ^ 16) × (op / 32 ≢ 5) × ((op / 32 ≢ 0) ⊎ (low % 16 ≢ 15))

unfoldable pub encode : Instr → ℕ
encode (load_up rd imm) = 0xE59F * 2 ^ 16 + (rd * 2 ^ 12 + imm)
encode (load_down rd imm) = 0xE51F * 2 ^ 16 + (rd * 2 ^ 12 + imm)
encode (add_pc rd imm) = 0xE28F * 2 ^ 16 + (rd * 2 ^ 12 + imm)
encode (sub_pc rd imm) = 0xE24F * 2 ^ 16 + (rd * 2 ^ 12 + imm)
encode (move_pc rd) = 0xE1A0 * 2 ^ 16 + (rd * 2 ^ 12 + 15)
encode exchange_pc = 0xE12FFF1F
encode (branch offset) = 0xEA * 2 ^ 24 + offset
encode (call offset) = 0xEB * 2 ^ 24 + offset
encode (call_thumb half offset) = (0xFA + half) * 2 ^ 24 + offset
encode (plain op rn low) = (0xE000 + (op * 16 + rn)) * 2 ^ 16 + low

-- The signed offset of a branch in words, as a 32-bit number of bytes.
unfoldable pub distance : (offset : ℕ) → ℕ
distance offset = if ltb offset (2 ^ 23) then offset * 4 else offset * 4 + (2 ^ 32 - 2 ^ 26)

-- A register is written; a write to the program counter sets the mode by bit 0.
unfoldable pub put : (rd value next : ℕ) → Cpu → Cpu
put rd value next c =
    if rd == 15
    then record c { pc = value - value % 2; thumb = value % 2 == 1 }
    else record c { reg = λ r. if r == rd then value else c.reg r; pc = next }

-- What an instruction does that reads `place + 8` as the program counter, and behind which `next`
-- stands.
unfoldable pub effect : (load : ℕ → ℕ) → Instr → (place next : ℕ) → Cpu → Cpu
unfolding put distance encode
effect load (load_up rd imm) place next c = put rd (load (u32 (place + 8 + imm))) next c
effect load (load_down rd imm) place next c = put rd (load (u32 (place + 8 + 2 ^ 32 - imm))) next c
effect load (add_pc rd imm) place next c = put rd (u32 (place + 8 + imm)) next c
effect load (sub_pc rd imm) place next c = put rd (u32 (place + 8 + 2 ^ 32 - imm)) next c
effect load (move_pc rd) place next c = put rd (u32 (place + 8)) next c
effect load exchange_pc place next c = put 15 (u32 (place + 8)) next c
effect load (branch offset) place next c = record c { pc = u32 (place + 8 + distance offset) }
effect load (call offset) place next c = record (put 14 next next c) {
  pc = u32 (place + 8 + distance offset);
}
effect load (call_thumb half offset) place next c = record (put 14 next next c) {
  pc = u32 (place + 8 + distance offset + 2 * half);
  thumb = true;
}
effect load (plain op rn low) place next c = record c {
  reg = c.exec (encode (plain op rn low)) c.reg;
  pc = next;
}

-- One instruction, fetched from where the program counter points.
pub data Step (load : ℕ → ℕ) : Cpu → Cpu → Type 0 where
  fetch :
      (i : Instr) (c : Cpu)
      → IsEncodable i
      → c.thumb ≡ false
      → load c.pc ≡ encode i
      → Step load c (effect load i c.pc (u32 (c.pc + 4)) c)

pub data Steps (load : ℕ → ℕ) : Cpu → Cpu → Type 0 where
  stop : (c : Cpu) → Steps load c c
  go : (c d e : Cpu) → Step load c d → Steps load d e → Steps load c e
