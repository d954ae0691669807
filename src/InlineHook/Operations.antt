-- ===== src/InlineHook/Operations.antt =====
-- The five operations of inlineHook.c. What the system returns is a parameter: the mapped regions
-- of `/proc/self/maps`, the page that `mmap` gives for a trampoline, and whether a child process
-- is forked. `mprotect`, `malloc`, `free`, `munmap` and the signals to the child have no effect
-- on what is modelled.
pub mod Patch
pub mod Hook
pub mod Table
pub mod UnHook
pub mod RoundTrip
pub mod Register
pub mod All
pub mod Fill
pub mod Absent
pub mod Bytes
pub mod Placed
pub mod Halves
pub mod HookAll
use unity_game_localization.Prelude.{
  ℕ, zero, suc, ◌+◌, ◌-◌, ◌%◌, ◌/◌, ◌==◌, leb, ltb, ◌&&◌, if◌then◌else◌, bit_and, bit_or, Bool,
  true, false, List, [], ◌∷◌, ◌++◌, Option, none, some, get_elem?, set, not, ◌||◌, ◌*◌,
}
use unity_game_localization.Prelude.Bits.{◌>>◌}
use unity_game_localization.Run
use unity_game_localization.Run.{Run, fault, null_pointer, overflow, out_of_fuel, ◌>>=◌}
use unity_game_localization.Relocate.Boundaries.{Boundaries}
use unity_game_localization.Relocate.Thumb.{Relocated}
use unity_game_localization.Relocate.Entry.{relocate_instruction}
use unity_game_localization.InlineHook.World.{
  Status, error_unknown, error_not_executable, error_not_registered, error_not_hooked,
  error_already_registered, error_already_hooked, registered, hooked, Item, Info, Memory, World,
  set_bit0, clear_bit0, test_bit0, read, write, bytes16, bytes32, read16, read32,
}
use unity_game_localization.InlineHook.Threads.{enable, disable, freeze}
use unity_game_localization.InlineHook.Items.{
  find_inline_hook_item, add_inline_hook_item, delete_inline_hook_item,
}

-- A line of `/proc/self/maps`: its addresses, and whether it has `r-xp` or `rwxp` in it.
pub record Region : Type 0 where
  pub start : ℕ
  pub end_addr : ℕ
  pub executable : Bool

unfoldable pub is_executable_addr : List Region → (addr : ℕ) → Bool
is_executable_addr [] addr = false
is_executable_addr (r ∷ maps) addr =
    let rest = is_executable_addr maps addr in
    if r.executable && leb r.start addr && leb addr r.end_addr then true else rest

-- The copied bytes as the words that the relocation reads, and its words as bytes.
unfoldable pub halfwords : List ℕ → List ℕ
halfwords (a ∷ b ∷ bs) = (a + 256 * b) ∷ halfwords bs
halfwords _ = []

unfoldable pub words : List ℕ → List ℕ
words (a ∷ b ∷ c ∷ d ∷ bs) = (a + 256 * b + 65536 * c + 16777216 * d) ∷ words bs
words _ = []

unfoldable pub bytes_of_halfwords : List ℕ → List ℕ
bytes_of_halfwords [] = []
bytes_of_halfwords (w ∷ ws) = bytes16 w ++ bytes_of_halfwords ws

unfoldable pub bytes_of_words : List ℕ → List ℕ
bytes_of_words [] = []
bytes_of_words (w ∷ ws) = bytes32 w ++ bytes_of_words ws

-- The item that `registerInlineHook` fills into a slot, and what it writes to the trampoline.
-- `count` and the boundaries start as the slot's last item left them.
unfoldable pub fill_item :
    (mmap_result target_addr new_addr : ℕ) (proto_addr : Option ℕ) (slot : Item)
    → Memory
    → Run (Item × Memory)
fill_item mmap_result target_addr new_addr proto_addr slot memory =
    let thumb = test_bit0 target_addr in
    let length = if thumb then 12 else 8 in
    let orig = read memory (clear_bit0 target_addr) length in
    do
      r ←
          relocate_instruction (read32 memory) target_addr
            (if thumb then halfwords orig else words orig) length slot.boundaries
      Run.ok (
        record {
          target_addr = target_addr;
          new_addr = new_addr;
          proto_addr = proto_addr;
          orig_instructions = orig;
          boundaries = r.bounds;
          trampoline_instructions = mmap_result;
          length = length;
          status = registered;
        },
        write memory mmap_result
            (if thumb then bytes_of_halfwords r.trampoline else bytes_of_words r.trampoline),
      )

already : (status : ℕ) → Status
already status =
    if status == registered
    then error_already_registered
    else if status == hooked
    then error_already_hooked
    else error_unknown

-- In a full table the new item is NULL, and is written to.
unfoldable pub register_inline_hook :
    (maps : List Region) (mmap_result target_addr new_addr : ℕ) (proto_addr : Option ℕ)
    → World
    → Run (Status × World)
unfolding already
register_inline_hook maps mmap_result target_addr new_addr proto_addr w =
    if not (is_executable_addr maps target_addr) || not (is_executable_addr maps new_addr)
    then Run.ok (error_not_executable, w)
    else elim (find_inline_hook_item w.info target_addr) [
      | some pos ↦ elim (get_elem? w.info.item pos) [
        | none ↦ fault overflow
        | some item ↦ Run.ok (already item.status, w)
      ]
      | none ↦ elim (add_inline_hook_item w.info) [
        | none ↦ fault null_pointer
        | some (pos, info) ↦ elim (get_elem? info.item pos) [
          | none ↦ fault overflow
          | some slot ↦ do
            (item, memory) ← fill_item mmap_result target_addr new_addr proto_addr slot w.memory
            Run.ok (
              Status.ok,
              record w { info = record info { item = set info.item pos item }; memory = memory },
            )
        ]
      ]
    ]

-- The jump to the new function: in Thumb mode behind a NOP if the target is not aligned to 4.
unfoldable pub patch : Item → List ℕ
unfolding bytes_of_halfwords bytes_of_words
patch item =
    let jump = 0xF8DF ∷ 0xF000 ∷ bit_and item.new_addr 0xFFFF ∷ (item.new_addr >> 16) ∷ [] in
    if test_bit0 item.target_addr
    then bytes_of_halfwords (if clear_bit0 item.target_addr % 4 == 0 then jump else 0xBF00 ∷ jump)
    else bytes_of_words (0xE51FF004 ∷ item.new_addr ∷ [])

-- Where the caller finds the original function: the trampoline, with bit 0 set in Thumb mode.
abbrev pub proto_value : Item → ℕ
proto_value item =
    if test_bit0 item.target_addr
    then set_bit0 item.trampoline_instructions
    else item.trampoline_instructions

unfoldable pub store_proto : Item → Memory → Memory
store_proto item memory = elim item.proto_addr [
  | none ↦ memory
  | some p ↦ write memory p (bytes32 (proto_value item))
]

abbrev pub flush_range : Item → ℕ × ℕ
flush_range item = (clear_bit0 item.target_addr, clear_bit0 item.target_addr + item.length)

unfoldable pub do_inline_hook : (pos : ℕ) → Item → World → World
unfolding store_proto patch
do_inline_hook pos item w = record w {
  info = record w.info { item = set w.info.item pos (record item { status = hooked }) };
  memory = write (store_proto item w.memory) (clear_bit0 item.target_addr) (patch item);
  flushed = flush_range item ∷ w.flushed;
}

unfoldable pub inline_hook : (forks : Bool) (target_addr : ℕ) → World → Run (Status × World)
inline_hook forks target_addr w = elim (find_inline_hook_item w.info target_addr) [
  | none ↦ Run.ok (error_not_registered, w)
  | some pos ↦ elim (get_elem? w.info.item pos) [
    | none ↦ fault overflow
    | some item ↦
        if item.status == registered
        then Run.ok (Status.ok, do_inline_hook pos item (freeze forks (some item) enable w))
        else if item.status == hooked
        then Run.ok (error_already_hooked, w)
        else Run.ok (error_unknown, w)
  ]
]

-- `item` is the slot `pos`. The call of `cacheflush` reads that slot again, after another item
-- may have been moved into it.
unfoldable pub do_inline_un_hook : (pos : ℕ) → Item → World → Run World
do_inline_un_hook pos item w = do
  info ← delete_inline_hook_item pos w.info
  elim (get_elem? info.item pos) [
    | none ↦ fault overflow
    | some moved ↦ Run.ok (record w {
      info = info;
      memory = write w.memory (clear_bit0 item.target_addr) item.orig_instructions;
      flushed = flush_range moved ∷ w.flushed;
    })
  ]

-- The first of the slots `i`, `i + 1`, .. that is hooked at the target.
unfoldable pub find_hooked : (target_addr i left : ℕ) → List Item → Option (ℕ × Item)
find_hooked target_addr i zero items = none
find_hooked target_addr i (suc left) [] = none
find_hooked target_addr i (suc left) (x ∷ items) =
    let next = find_hooked target_addr (i + 1) left items in
    if (x.target_addr == target_addr) && (x.status == hooked) then some (i, x) else next

unfoldable pub inline_un_hook : (forks : Bool) (target_addr : ℕ) → World → Run (Status × World)
unfolding find_hooked
inline_un_hook forks target_addr w = elim (find_hooked target_addr 0 w.info.size w.info.item) [
  | none ↦ Run.ok (error_not_hooked, w)
  | some (pos, item) ↦ do
    w' ← do_inline_un_hook pos item (freeze forks (some item) disable w)
    Run.ok (Status.ok, w')
]

-- The loop of `inlineHookAll` from slot `i` on, `left` slots before the end.
unfoldable pub hook_loop : (i left : ℕ) → World → World
hook_loop i zero w = w
hook_loop i (suc left) w = elim (get_elem? w.info.item i) [
  | none ↦ w
  | some item ↦
      hook_loop (i + 1) left (if item.status == registered then do_inline_hook i item w else w)
]

unfoldable pub inline_hook_all : (forks : Bool) → World → World
unfolding hook_loop
inline_hook_all forks w = let w' = freeze forks none enable w in hook_loop 0 w'.info.size w'

-- The loop of `inlineUnHookAll`: a slot that was emptied is looked at again. Each round lowers
-- the number of slots from `i` to the end, so `size` rounds are enough.
unfoldable pub un_hook_loop : (fuel i : ℕ) → World → Run World
un_hook_loop zero i w = fault out_of_fuel
un_hook_loop (suc fuel) i w = elim (ltb i w.info.size) [
  | false ↦ Run.ok w
  | true ↦ elim (get_elem? w.info.item i) [
    | none ↦ fault overflow
    | some item ↦ elim (item.status == hooked) [
      | true ↦ do w' ← do_inline_un_hook i item w; un_hook_loop fuel i w'
      | false ↦ un_hook_loop fuel (i + 1) w
    ]
  ]
]

unfoldable pub inline_un_hook_all : (forks : Bool) → World → Run World
unfolding un_hook_loop
inline_un_hook_all forks w =
    let w' = freeze forks none disable w in un_hook_loop (w'.info.size + 1) 0 w'
