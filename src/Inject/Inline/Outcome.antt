-- ===== src/Inject/Inline/Outcome.antt =====
-- The world that one hook of inject_inlinehook.cpp leaves: `registerInlineHook` puts an item behind
-- the last one, and `inlineHook` hooks it.
use unity_game_localization.Prelude.{
  ℕ, suc, ◌+◌, ◌≤◌, ◌<◌, ◌≡◌, ◌≢◌, ◌⊎◌, refl, sym, subst, ap, ◌∙◌, Bool, true, false, List, Option,
  some, arith, length, set, inl, inr, get_elem?-set_self, get_elem?-set_ne, get_elem?, length-set,
  Bool-cases,
}
use unity_game_localization.InlineHook.World.{
  hooked, Item, Info, Thread, Memory, World, read, write, clear_bit0, bytes32, test_bit0,
}
use unity_game_localization.InlineHook.Threads.{Action, freeze}
use unity_game_localization.InlineHook.Items.Laws.{Used, IsTable, extend-IsTable, updated-cases}
use unity_game_localization.InlineHook.Operations.{proto_value, patch, do_inline_hook, store_proto}
use unity_game_localization.InlineHook.Operations.Patch.{read-write, write-outside}
use unity_game_localization.InlineHook.Operations.RoundTrip.{length-patch}
use unity_game_localization.InlineHook.Operations.Table.{do_inline_hook-IsTable}
use unity_game_localization.InlineHook.Operations.Fill.{Fills}
use unity_game_localization.InlineHook.Operations.Absent.{IsAbsent, CanGrow}

-- The function at an address is hooked, to lead to another.
pub record IsHooked (target_addr new_addr : ℕ) (w : World) : Type 0 where
  pub pos : ℕ
  pub item : Item
  pub used : Used w.info pos item
  pub target : item.target_addr ≡ target_addr
  pub leads : item.new_addr ≡ new_addr
  pub done : item.status ≡ hooked

-- A byte that hooking a function does not write: it is outside the page of the trampoline, the
-- stored address and the bytes at the target.
pub record IsOutside (page old_func func a : ℕ) : Type 0 where
  pub page_apart : (a < page) ⊎ (page + 104 ≤ a)
  pub old_apart : (a < old_func) ⊎ (old_func + 4 ≤ a)
  pub func_apart : (a < clear_bit0 func) ⊎ (clear_bit0 func + 12 ≤ a)

-- What hooking `func` leaves behind.
pub record IsInstalled (func new_addr page old_func : ℕ) (w w' : World) : Type 0 where
  pub hooks : IsHooked func new_addr w'
  pub patched : read w'.memory (clear_bit0 func) (length (patch hooks.item)) ≡ patch hooks.item
  -- the earlier items stay, and there is no other new one
  pub kept : (i : ℕ) (x : Item) → Used w.info i x → Used w'.info i x
  pub only : (i : ℕ) (x : Item) → Used w'.info i x → (x.target_addr ≡ func) ⊎ Used w.info i x
  pub untouched : (a : ℕ) → IsOutside page old_func func a → w'.memory a ≡ w.memory a

-- What is outside a range is outside a shorter one.
outside_shorter : (a to n m : ℕ) → m ≤ n → (a < to) ⊎ (to + n ≤ a) → (a < to) ⊎ (to + m ≤ a)
outside_shorter a to n m le (inl l) = inl l
outside_shorter a to n m le (inr l) = inr (omega arith)

-- `freeze` changes nothing but the threads.
pub freeze-threads :
    (forks : Bool) (item : Option Item) (action : Action) (w : World)
    → freeze forks item action w ≡ record w { threads = (freeze forks item action w).threads }
unfolding freeze
freeze-threads true item action w = refl
freeze-threads false item action w = refl

-- The world after both calls: the item is put behind the last one and hooked.
module _ (func new_addr page old_func : ℕ) (slot x : Item) (w : World) (memory' : Memory)
    (threads : List Thread) (f : Fills page func new_addr (some old_func) slot w.memory x memory')
    (absent : IsAbsent func w) where
  abbrev pub extended_info : Info
  extended_info = record { item = set w.info.item w.info.size x; size = w.info.size + 1 }

  abbrev world₁ : World
  world₁ = record w { info = extended_info; memory = memory'; threads = threads }

  abbrev pub world₂ : World
  world₂ = do_inline_hook w.info.size x world₁

  abbrev hooked_item : Item
  hooked_item = record x { status = hooked }

  module _ (n : ℕ) (g : CanGrow (suc n) w) where
    pub extended-IsTable : IsTable extended_info
    extended-IsTable =
        extend-IsTable w.info x g.table (omega (arith, g.room))
          (λ i y u. subst (λ (t : ℕ). y.target_addr ≢ t) (sym f.target) (absent i y u)) f.waiting

    pub extended-Used : Used extended_info w.info.size x
    extended-Used = record {
      below = omega arith;
      here = get_elem?-set_self w.info.item w.info.size x (omega (arith, g.table.slots, g.room));
    }

    item_at : (i : ℕ) → i ≢ w.info.size → get_elem? world₂.info.item i ≡ get_elem? w.info.item i
    unfolding do_inline_hook
    item_at i ne =
        get_elem?-set_ne extended_info.item w.info.size i hooked_item (λ e. ne (sym e))
        ∙ get_elem?-set_ne w.info.item w.info.size i x (λ e. ne (sym e))

    pub world₂-CanGrow : CanGrow n world₂
    unfolding do_inline_hook
    world₂-CanGrow = record {
      table = do_inline_hook-IsTable w.info.size x world₁ extended-IsTable extended-Used;
      room = omega (arith, g.room);
      unmarked = λ i y l at. g.unmarked i y (omega arith) (sym (item_at i (omega arith)) ∙ at);
    }

    world₂-only :
        (i : ℕ) (y : Item)
        → Used world₂.info i y
        → (y.target_addr ≡ x.target_addr) ⊎ Used w.info i y
    unfolding do_inline_hook
    world₂-only i y u =
        elim (updated-cases extended_info w.info.size x hooked_item extended-IsTable extended-Used
          refl (inr refl) i y u) [
            | inl (at, is) ↦ inl (ap (λ (z : Item). z.target_addr) is)
            | inr (ne, here) ↦ inr (record {
              below = let b = u.below in omega arith;
              here = sym (get_elem?-set_ne w.info.item w.info.size i x (λ e. ne (sym e))) ∙ here;
            })
          ]

    pub world₂-Used : Used world₂.info w.info.size hooked_item
    unfolding do_inline_hook
    world₂-Used = record {
      below = omega arith;
      here =
          get_elem?-set_self extended_info.item w.info.size hooked_item
            (omega (arith, length-set w.info.item w.info.size x, g.table.slots, g.room));
    }

    world₂-kept : (i : ℕ) (y : Item) → Used w.info i y → Used world₂.info i y
    unfolding do_inline_hook
    world₂-kept i y u = record {
      below = omega (arith, u.below);
      here = item_at i (omega (arith, u.below)) ∙ u.here;
    }

  patch_fits : length (patch hooked_item) ≤ 12
  patch_fits = elim (Bool-cases (test_bit0 x.target_addr)) [
    | inl y ↦ rw y at (length-patch hooked_item)
    | inr n ↦ omega (arith, rw n at (length-patch hooked_item))
  ]

  pub stores_proto : store_proto x memory' ≡ write memory' old_func (bytes32 (proto_value x))
  unfolding store_proto
  stores_proto = rw (f.stores, store_proto) refl

  -- What is outside the page, the stored address and the jump stays.
  pub world₂-unpatched :
      (a : ℕ)
      → (a < page) ⊎ (page + 104 ≤ a)
      → (a < old_func) ⊎ (old_func + 4 ≤ a)
      → (a < clear_bit0 x.target_addr) ⊎ (clear_bit0 x.target_addr + length (patch x) ≤ a)
      → world₂.memory a ≡ w.memory a
  unfolding do_inline_hook patch
  world₂-unpatched a outside_page outside_old outside_patch =
      write-outside (store_proto x memory') (clear_bit0 x.target_addr) (patch x) a outside_patch
      ∙ (ap (λ (m : Memory). m a) stores_proto
          ∙ (write-outside memory' old_func (bytes32 (proto_value x)) a outside_old
              ∙ (ap (λ (m : Memory). m a) f.written
                  ∙ write-outside w.memory page f.trampoline a
                      (outside_shorter a page 104 (length f.trampoline) f.short outside_page))))

  world₂-untouched :
      (a : ℕ) → IsOutside page old_func x.target_addr a → world₂.memory a ≡ w.memory a
  unfolding patch
  world₂-untouched a o =
      world₂-unpatched a o.page_apart o.old_apart
        (outside_shorter a (clear_bit0 x.target_addr) 12 (length (patch x)) patch_fits o.func_apart)

  world₂-IsInstalled :
      (n : ℕ) → CanGrow (suc n) w → IsInstalled x.target_addr x.new_addr page old_func w world₂
  unfolding do_inline_hook patch
  world₂-IsInstalled n g = record {
    hooks = record {
      pos = w.info.size;
      item = hooked_item;
      used = world₂-Used n g;
      target = refl;
      leads = refl;
      done = refl;
    };
    patched = read-write (store_proto x memory') (clear_bit0 x.target_addr) (patch x);
    kept = world₂-kept n g;
    only = world₂-only n g;
    untouched = world₂-untouched;
  }

  pub func-IsInstalled :
      (n : ℕ) → CanGrow (suc n) w → IsInstalled func new_addr page old_func w world₂
  func-IsInstalled n g =
      subst (λ (t : ℕ). IsInstalled t new_addr page old_func w world₂) f.target
        (subst (λ (a : ℕ). IsInstalled x.target_addr a page old_func w world₂) f.leads
          (world₂-IsInstalled n g))
