-- ===== src/InlineHook/Operations/Hook.antt =====
-- The outcomes of `doInlineHook` and `inlineHook` of inlineHook.c.
use unity_game_localization.Prelude.{
  ℕ, ◌+◌, ◌%◌, ◌≤◌, ◌<◌, ◌≡◌, ◌≢◌, ◌⊎◌, ◌∙◌, refl, sym, subst, Bool, true, false, some,
  Option-cases, Bool-cases, inl, inr, ==_of_eq, ==_of_ne, arith, length, List, [], ◌∷◌, bit_and,
  get_elem?-set_self, get_elem?-set_ne,
}
use unity_game_localization.Prelude.Bits.{◌>>◌}
use unity_game_localization.Run.{Run}
use unity_game_localization.InlineHook.World.{
  Status, error_not_registered, error_already_hooked, registered, hooked, Item, Memory, World, read,
  write, bytes32, clear_bit0, test_bit0,
}
use unity_game_localization.InlineHook.Threads.{freeze, enable}
use unity_game_localization.InlineHook.Items.{find_inline_hook_item}
use unity_game_localization.InlineHook.Items.Laws.{Used, IsTable, find-some, find-none}
use unity_game_localization.InlineHook.Operations.{
  bytes_of_halfwords, bytes_of_words, patch, proto_value, store_proto, flush_range, do_inline_hook,
  inline_hook,
}
use unity_game_localization.InlineHook.Operations.Patch.{read-write, write-outside, read-agree}
use unity_game_localization.InlineHook.Operations.RoundTrip.{length-patch}
use unity_game_localization.InlineHook.Operations.Table.{freeze_keeps, do_inline_hook-IsTable}

-- The address is outside the bytes that hooking the item may write: 12 at the target, and four
-- where the caller wants the trampoline's address.
pub record IsBeside (x : Item) (a : ℕ) : Type 0 where
  pub target_apart : (a < clear_bit0 x.target_addr) ⊎ (clear_bit0 x.target_addr + 12 ≤ a)
  pub proto_apart : (p : ℕ) → x.proto_addr ≡ some p → (a < p) ⊎ (p + 4 ≤ a)

-- The bytes of the jump to the new function stand at the target: LDR PC, [PC, #-4] and the address
-- in Arm mode, and in Thumb mode LDR.W PC, [PC] and the address, behind a NOP if the target is not
-- aligned to 4.
pub record Jumps (x : Item) (memory : Memory) : Type 0 where
  pub in_arm :
      test_bit0 x.target_addr ≡ false
      → read memory (clear_bit0 x.target_addr) 8 ≡ bytes_of_words (0xE51FF004 ∷ x.new_addr ∷ [])
  pub in_thumb :
      test_bit0 x.target_addr ≡ true
      → clear_bit0 x.target_addr % 4 ≡ 0
      → read memory (clear_bit0 x.target_addr) 8
        ≡ bytes_of_halfwords (0xF8DF ∷ 0xF000 ∷ bit_and x.new_addr 0xFFFF ∷ (x.new_addr >> 16) ∷ [])
  pub in_thumb_odd :
      test_bit0 x.target_addr ≡ true
      → clear_bit0 x.target_addr % 4 ≢ 0
      → read memory (clear_bit0 x.target_addr) 10
        ≡ bytes_of_halfwords
            (0xBF00 ∷ 0xF8DF ∷ 0xF000 ∷ bit_and x.new_addr 0xFFFF ∷ (x.new_addr >> 16) ∷ [])

-- What `do_inline_hook` leaves behind, of an item that is in use.
pub record IsActive (pos : ℕ) (x : Item) (w w' : World) : Type 0 where
  pub table : IsTable w'.info
  pub size : w'.info.size ≡ w.info.size
  pub here : Used w'.info pos (record x { status = hooked })
  pub others : (i : ℕ) (y : Item) → i ≢ pos → Used w.info i y → Used w'.info i y
  pub jumps : Jumps x w'.memory
  -- the caller's variable, where it is apart from the jump
  pub stored :
      (p : ℕ)
      → x.proto_addr ≡ some p
      → (p + 4 ≤ clear_bit0 x.target_addr) ⊎ (clear_bit0 x.target_addr + 12 ≤ p)
      → read w'.memory p 4 ≡ bytes32 (proto_value x)
  pub outside : (a : ℕ) → IsBeside x a → w'.memory a ≡ w.memory a
  pub threads : w'.threads ≡ w.threads
  pub flushed : w'.flushed ≡ flush_range x ∷ w.flushed

module _ (x : Item) (m : Memory) where
  abbrev start : ℕ
  start = clear_bit0 x.target_addr

  abbrev hooked_memory : Memory
  hooked_memory = write (store_proto x m) start (patch x)

  patch-read : (bs : List ℕ) → patch x ≡ bs → read hooked_memory start (length bs) ≡ bs
  patch-read bs e =
      subst (λ (p : List ℕ). read (write (store_proto x m) start p) start (length bs) ≡ bs) (sym e)
        (read-write (store_proto x m) start bs)

  hooked-Jumps : Jumps x hooked_memory
  unfolding patch bytes_of_words bytes_of_halfwords
  hooked-Jumps = record {
    in_arm = λ n. patch-read (bytes_of_words (0xE51FF004 ∷ x.new_addr ∷ [])) (rw n refl);
    in_thumb = λ y e.
        patch-read
          (bytes_of_halfwords
            (0xF8DF ∷ 0xF000 ∷ bit_and x.new_addr 0xFFFF ∷ (x.new_addr >> 16) ∷ []))
          (rw (y, ==_of_eq (start % 4) 0 e) refl);
    in_thumb_odd = λ y e.
        patch-read
          (bytes_of_halfwords
            (0xBF00 ∷ 0xF8DF ∷ 0xF000 ∷ bit_and x.new_addr 0xFFFF ∷ (x.new_addr >> 16) ∷ []))
          (rw (y, ==_of_ne (start % 4) 0 e) refl);
  }

  patch_fits : length (patch x) ≤ 12
  patch_fits = elim (Bool-cases (test_bit0 x.target_addr)) [
    | inl y ↦ rw y at (length-patch x)
    | inr n ↦ omega (arith, rw n at (length-patch x))
  ]

  beside_patch :
      (a : ℕ) → (a < start) ⊎ (start + 12 ≤ a) → (a < start) ⊎ (start + length (patch x) ≤ a)
  beside_patch a (inl l) = inl l
  beside_patch a (inr l) = inr (omega (arith, patch_fits))

  store_proto-outside :
      (a : ℕ) → ((p : ℕ) → x.proto_addr ≡ some p → (a < p) ⊎ (p + 4 ≤ a)) → store_proto x m a ≡ m a
  unfolding store_proto
  store_proto-outside a apart = elim (Option-cases x.proto_addr) [
    | inl e ↦ rw (e, store_proto) refl
    | inr (p, e) ↦ rw (e, store_proto) (write-outside m p (bytes32 (proto_value x)) a (apart p e))
  ]

  hooked-outside : (a : ℕ) → IsBeside x a → hooked_memory a ≡ m a
  hooked-outside a b =
      write-outside (store_proto x m) start (patch x) a (beside_patch a b.target_apart)
      ∙ store_proto-outside a b.proto_apart

  hooked-stored :
      (p : ℕ)
      → x.proto_addr ≡ some p
      → (p + 4 ≤ start) ⊎ (start + 12 ≤ p)
      → read hooked_memory p 4 ≡ bytes32 (proto_value x)
  unfolding store_proto
  hooked-stored p e apart =
      read-agree (store_proto x m) hooked_memory p 4 (λ a l h.
        write-outside (store_proto x m) start (patch x) a (beside_patch a (beside a l h apart)))
      ∙ rw (e, store_proto) (read-write m p (bytes32 (proto_value x)))
    where
      beside :
          (a : ℕ)
          → p ≤ a
          → a < p + 4
          → (p + 4 ≤ start) ⊎ (start + 12 ≤ p)
          → (a < start) ⊎ (start + 12 ≤ a)
      beside a l h (inl b) = inl (omega arith)
      beside a l h (inr b) = inr (omega arith)

-- Hooking an item in use.
pub do_inline_hook-IsActive :
    (pos : ℕ) (x : Item) (w : World)
    → IsTable w.info
    → Used w.info pos x
    → IsActive pos x w (do_inline_hook pos x w)
unfolding do_inline_hook
do_inline_hook-IsActive pos x w t u = record {
  table = do_inline_hook-IsTable pos x w t u;
  size = refl;
  here = record {
    below = u.below;
    here =
        get_elem?-set_self w.info.item pos (record x { status = hooked })
          (omega (arith, t.slots, t.fits, u.below));
  };
  others = λ i y ne v. record {
    below = v.below;
    here =
        get_elem?-set_ne w.info.item pos i (record x { status = hooked }) (λ e. ne (sym e))
        ∙ v.here;
  };
  jumps = hooked-Jumps x w.memory;
  stored = hooked-stored x w.memory;
  outside = hooked-outside x w.memory;
  threads = refl;
  flushed = refl;
}

-- Where an item's jump stands, and the address of its trampoline, if that is apart from the jump.
pub record IsPatched (x : Item) (memory : Memory) : Type 0 where
  pub jumps : Jumps x memory
  pub stored :
      (p : ℕ)
      → x.proto_addr ≡ some p
      → (p + 4 ≤ clear_bit0 x.target_addr) ⊎ (clear_bit0 x.target_addr + 12 ≤ p)
      → read memory p 4 ≡ bytes32 (proto_value x)

-- The bytes that an item's hook writes.
pub data IsOwned (x : Item) (a : ℕ) : Type 0 where
  in_jump : clear_bit0 x.target_addr ≤ a → a < clear_bit0 x.target_addr + 12 → IsOwned x a
  in_proto : (p : ℕ) → x.proto_addr ≡ some p → p ≤ a → a < p + 4 → IsOwned x a

pub agree-IsPatched :
    (x : Item) (m m' : Memory)
    → ((a : ℕ) → IsOwned x a → m' a ≡ m a)
    → IsPatched x m
    → IsPatched x m'
agree-IsPatched x m m' same h = record {
  jumps = record {
    in_arm = λ n.
        read-agree m m' (clear_bit0 x.target_addr) 8 (λ a l b. same a (in_jump l (omega arith)))
        ∙ h.jumps.in_arm n;
    in_thumb = λ y e.
        read-agree m m' (clear_bit0 x.target_addr) 8 (λ a l b. same a (in_jump l (omega arith)))
        ∙ h.jumps.in_thumb y e;
    in_thumb_odd = λ y e.
        read-agree m m' (clear_bit0 x.target_addr) 10 (λ a l b. same a (in_jump l (omega arith)))
        ∙ h.jumps.in_thumb_odd y e;
  };
  stored =
      λ p e apart. read-agree m m' p 4 (λ a l b. same a (in_proto p e l b)) ∙ h.stored p e apart;
}

-- The outcomes of a call, each with what the table holds of the target.
pub data Hooks (forks : Bool) (target_addr : ℕ) (w : World) : Run (Status × World) → Type 0 where
  unregistered :
      ((i : ℕ) (x : Item) → Used w.info i x → x.target_addr ≢ target_addr)
      → Hooks forks target_addr w (Run.ok (error_not_registered, w))
  twice :
      (pos : ℕ) (x : Item)
      → Used w.info pos x
      → x.target_addr ≡ target_addr
      → x.status ≡ hooked
      → Hooks forks target_addr w (Run.ok (error_already_hooked, w))
  done :
      (pos : ℕ) (x : Item) (w' : World)
      → Used w.info pos x
      → x.target_addr ≡ target_addr
      → x.status ≡ registered
      → IsActive pos x (freeze forks (some x) enable w) w'
      → Hooks forks target_addr w (Run.ok (Status.ok, w'))

-- On a well-formed table a call of `inlineHook` ends in one of three ways: no used item has the
-- target, or the one that has it is hooked already, the status that says so is returned and nothing
-- changes; or the item with the target is registered, and after the threads are stopped the call
-- returns ok. Then the item's status is hooked, the other used items stay, and the table stays well
-- formed; at the target stands the jump to the new function, LDR PC and the address, in Thumb mode
-- LDR.W PC and the address, behind a NOP if the target is not aligned to 4; the caller's variable,
-- where it is apart from the jump, holds the trampoline's address, with the Thumb bit in Thumb
-- mode; no byte outside that variable and 12 bytes at the target changes, nor does a thread once
-- all are stopped, and the target's range is flushed.
pub inline_hook-Hooks :
    (forks : Bool) (target_addr : ℕ) (w : World)
    → IsTable w.info
    → Hooks forks target_addr w (inline_hook forks target_addr w)
unfolding inline_hook
inline_hook-Hooks forks target_addr w t =
    elim (Option-cases (find_inline_hook_item w.info target_addr)) [
      | inl e ↦ rw (e, inline_hook) (unregistered (find-none w.info target_addr e))
      | inr (pos, e) ↦
          let (x, u, m) = find-some w.info target_addr pos e in
          let same = sym (freeze_keeps forks (some x) enable w).0 in
          rw (e, inline_hook)
            (rw (u.here, inline_hook)
              (elim (t.known pos x u) [
                | inl r ↦ rw (==_of_eq x.status registered r) (
                    done pos x _ u m r (
                      do_inline_hook-IsActive pos x (freeze forks (some x) enable w)
                        (subst IsTable same t) (subst (λ i. Used i pos x) same u)))
                | inr h ↦ rw h (twice pos x u m h)
              ]))
    ]
