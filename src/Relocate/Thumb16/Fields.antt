-- ===== src/Relocate/Thumb16/Fields.antt =====
-- Which type `getTypeInThumb16` of relocate.c gives to the instructions that read the program
-- counter, and which fields its masks take out of them, tried on every word.
use unity_game_localization.Prelude.{
  ℕ, ◌+◌, ◌*◌, ◌<◌, ◌≡◌, refl, ◌==◌, ◌&&◌, ◌||◌, bit_and, bit_or, Bool, true, false, all_below,
  all_below_lem, eq_of_==,
}
use unity_game_localization.Prelude.Bits.{◌<<◌, ◌>>◌}
use unity_game_localization.Relocate.Classify.{
  InstructionType, b1_thumb16, b2_thumb16, mov_thumb16, ldr_thumb16, cb_thumb16, undefine,
  get_type_in_thumb16,
}
use unity_game_localization.Relocate.Thumb16.{sign_extend}
use unity_game_localization.Relocate.Thumb16.Machine.{distance, involves_pc}

-- The types in question as numbers.
tag : InstructionType → ℕ
tag b1_thumb16 = 1
tag b2_thumb16 = 2
tag mov_thumb16 = 3
tag ldr_thumb16 = 4
tag cb_thumb16 = 5
tag undefine = 6
tag _ = 0

of_b1 : (t : InstructionType) → (tag t == 1) ≡ true → t ≡ b1_thumb16
unfolding tag
of_b1 b1_thumb16 e = refl
of_b1 _ e = absurd (cc e)

of_b2 : (t : InstructionType) → (tag t == 2) ≡ true → t ≡ b2_thumb16
unfolding tag
of_b2 b2_thumb16 e = refl
of_b2 _ e = absurd (cc e)

of_mov : (t : InstructionType) → (tag t == 3) ≡ true → t ≡ mov_thumb16
unfolding tag
of_mov mov_thumb16 e = refl
of_mov _ e = absurd (cc e)

of_ldr : (t : InstructionType) → (tag t == 4) ≡ true → t ≡ ldr_thumb16
unfolding tag
of_ldr ldr_thumb16 e = refl
of_ldr _ e = absurd (cc e)

of_cb : (t : InstructionType) → (tag t == 5) ≡ true → t ≡ cb_thumb16
unfolding tag
of_cb cb_thumb16 e = refl
of_cb _ e = absurd (cc e)

of_undefine : (t : InstructionType) → (tag t == 6) ≡ true → t ≡ undefine
unfolding tag
of_undefine undefine e = refl
of_undefine _ e = absurd (cc e)

or_right : (a b : Bool) → a ≡ false → a || b ≡ true → b ≡ true
or_right true b e h = absurd (cc e)
or_right false b e h = h

both : (a b : Bool) → a && b ≡ true → (a ≡ true) × (b ≡ true)
both true b e = (refl, e)
both false b e = absurd (cc e)

-- LDR: its type, its fields, and the emitted LDR.
abbrev load_fields : (rd imm : ℕ) → Bool
load_fields rd imm =
    let w = 0x4800 + rd * 256 + imm in
    (tag (get_type_in_thumb16 w) == 4)
    && ((bit_and w 0x700 >> 8 == rd)
        && ((bit_and w 0xFF == imm) && (bit_or 0x4800 (rd << 8) == 0x4800 + rd * 256 + 0)))

load_fields_all : all_below 8 (λ rd. all_below 256 (load_fields rd)) ≡ true
unfolding all_below tag get_type_in_thumb16
load_fields_all = refl

pub load-fields :
    (rd imm : ℕ)
    → rd < 8
    → imm < 256
    → (get_type_in_thumb16 (0x4800 + rd * 256 + imm) ≡ ldr_thumb16)
      × (bit_and (0x4800 + rd * 256 + imm) 0x700 >> 8 ≡ rd)
      × (bit_and (0x4800 + rd * 256 + imm) 0xFF ≡ imm)
      × (bit_or 0x4800 (rd << 8) ≡ 0x4800 + rd * 256 + 0)
load-fields rd imm r i =
    let h =
      all_below_lem 256 (load_fields rd) imm
        (all_below_lem 8 (λ rd. all_below 256 (load_fields rd)) rd load_fields_all r) i in
    let (a, b) = both _ _ h in
    let (b, c) = both _ _ b in
    let (c, d) = both _ _ c in (of_ldr _ a, eq_of_== _ _ b, eq_of_== _ _ c, eq_of_== _ _ d)

-- MOV from the program counter.
abbrev move_fields : ℕ → Bool
move_fields rd =
    let w = 0x4678 + rd in
    (tag (get_type_in_thumb16 w) == 3)
    && ((bit_and w 0x7 == rd) && (bit_or 0x4800 (rd << 8) == 0x4800 + rd * 256 + 0))

move_fields_all : all_below 8 move_fields ≡ true
unfolding all_below tag get_type_in_thumb16
move_fields_all = refl

pub move-fields :
    (rd : ℕ)
    → rd < 8
    → (get_type_in_thumb16 (0x4678 + rd) ≡ mov_thumb16)
      × (bit_and (0x4678 + rd) 0x7 ≡ rd)
      × (bit_or 0x4800 (rd << 8) ≡ 0x4800 + rd * 256 + 0)
move-fields rd r =
    let (a, b) = both _ _ (all_below_lem 8 move_fields rd move_fields_all r) in
    let (b, c) = both _ _ b in (of_mov _ a, eq_of_== _ _ b, eq_of_== _ _ c)

-- B.
abbrev branch_fields : ℕ → Bool
branch_fields offset =
    let w = 0xE000 + offset in
    (tag (get_type_in_thumb16 w) == 2)
    && (sign_extend (bit_and w 0x7FF << 1) 11 == distance 1024 offset)

branch_fields_all : all_below 2048 branch_fields ≡ true
unfolding all_below tag get_type_in_thumb16
branch_fields_all = refl

pub branch-fields :
    (offset : ℕ)
    → offset < 2048
    → (get_type_in_thumb16 (0xE000 + offset) ≡ b2_thumb16)
      × (sign_extend (bit_and (0xE000 + offset) 0x7FF << 1) 11 ≡ distance 1024 offset)
branch-fields offset l =
    let (a, b) = both _ _ (all_below_lem 2048 branch_fields offset branch_fields_all l) in
    (of_b2 _ a, eq_of_== _ _ b)

-- B with a condition.
abbrev branch_if_fields : (condition offset : ℕ) → Bool
branch_if_fields condition offset =
    let w = 0xD000 + condition * 256 + offset in
    (tag (get_type_in_thumb16 w) == 1)
    && ((sign_extend (bit_and w 0xFF << 1) 8 == distance 128 offset)
        && (bit_and w 0xFF00 == 0xD000 + condition * 256 + 0))

branch_if_fields_all : all_below 14 (λ c. all_below 256 (branch_if_fields c)) ≡ true
unfolding all_below tag get_type_in_thumb16
branch_if_fields_all = refl

pub branch_if-fields :
    (c offset : ℕ)
    → c < 14
    → offset < 256
    → (get_type_in_thumb16 (0xD000 + c * 256 + offset) ≡ b1_thumb16)
      × (sign_extend (bit_and (0xD000 + c * 256 + offset) 0xFF << 1) 8 ≡ distance 128 offset)
      × (bit_and (0xD000 + c * 256 + offset) 0xFF00 ≡ 0xD000 + c * 256 + 0)
branch_if-fields c offset l m =
    let h =
      all_below_lem 256 (branch_if_fields c) offset
        (all_below_lem 14 (λ c. all_below 256 (branch_if_fields c)) c branch_if_fields_all l) m in
    let (a, b) = both _ _ h in
    let (b, d) = both _ _ b in (of_b1 _ a, eq_of_== _ _ b, eq_of_== _ _ d)

-- CBZ and CBNZ.
abbrev pub compare_word : (nonzero high offset rn : ℕ) → ℕ
compare_word nonzero high offset rn = 0xB100 + nonzero * 0x800 + high * 0x200 + offset * 8 + rn

abbrev compare_fields : (nonzero high offset rn : ℕ) → Bool
compare_fields nonzero high offset rn =
    let w = compare_word nonzero high offset rn in
    (tag (get_type_in_thumb16 w) == 5)
    && ((bit_or (bit_and w 0x200 >> 3) (bit_and w 0xF8 >> 2) == high * 64 + offset * 2)
        && (bit_and w 0xFD07 == compare_word nonzero 0 0 rn))

abbrev compare_fields_from : (nonzero high : ℕ) → Bool
compare_fields_from n h = all_below 32 (λ o. all_below 8 (compare_fields n h o))

compare_fields_all : all_below 2 (λ n. all_below 2 (compare_fields_from n)) ≡ true
unfolding all_below tag get_type_in_thumb16
compare_fields_all = refl

pub compare-fields :
    (n h o rn : ℕ)
    → n < 2
    → h < 2
    → o < 32
    → rn < 8
    → (get_type_in_thumb16 (compare_word n h o rn) ≡ cb_thumb16)
      × (bit_or
            (bit_and (compare_word n h o rn) 0x200 >> 3)
            (bit_and (compare_word n h o rn) 0xF8 >> 2)
          ≡ h * 64 + o * 2)
      × (bit_and (compare_word n h o rn) 0xFD07 ≡ compare_word n 0 0 rn)
compare-fields n h o rn l l' m k =
    let p =
      all_below_lem 2 (compare_fields_from n) h
        (all_below_lem 2 (λ n. all_below 2 (compare_fields_from n)) n compare_fields_all l) l' in
    let q =
      all_below_lem 8 (compare_fields n h o) rn
        (all_below_lem 32 (λ o. all_below 8 (compare_fields n h o)) o p m) k in
    let (a, b) = both _ _ q in
    let (b, c) = both _ _ b in (of_cb _ a, eq_of_== _ _ b, eq_of_== _ _ c)

plain_all :
    all_below 256 (λ high.
      all_below 256
        (λ low. involves_pc high low || (tag (get_type_in_thumb16 (high * 256 + low)) == 6)))
    ≡ true
unfolding all_below tag get_type_in_thumb16
plain_all = refl

pub plain-fields :
    (high low : ℕ)
    → high < 256
    → low < 256
    → involves_pc high low ≡ false
    → get_type_in_thumb16 (high * 256 + low) ≡ undefine
plain-fields high low h l p =
    let e =
      all_below_lem 256
        (λ l. involves_pc high l || (tag (get_type_in_thumb16 (high * 256 + l)) == 6)) low
        (all_below_lem 256
          (λ h.
            all_below 256 (λ l. involves_pc h l || (tag (get_type_in_thumb16 (h * 256 + l)) == 6)))
          high plain_all h)
        l in
    of_undefine _ (or_right _ _ p e)
