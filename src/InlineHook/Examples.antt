-- ===== src/InlineHook/Examples.antt =====
-- The theorems on the hook table at a table of two items.
use unity_game_localization.InlineHook.Operations.{inline_hook_all}
use unity_game_localization.InlineHook.Operations.HookAll.{
  AreApart, HooksFrom, inline_hook_all-HooksFrom,
}
use unity_game_localization.Prelude.{subst}
use unity_game_localization.Prelude.{
  ℕ, zero, suc, ◌-◌, ◌≡◌, ◌⊎◌, inl, inr, refl, ap, sym, true, false, [], ◌∷◌, Option, none, some,
  arith, length, replicate,
}
use unity_game_localization.Run.{ok}
use unity_game_localization.InlineHook.World.{read, Item, Info, World, registered, hooked}
use unity_game_localization.InlineHook.Items.Laws.{Used, IsTable}
use unity_game_localization.InlineHook.Operations.{
  register_inline_hook, store_proto, do_inline_un_hook, inline_hook, inline_un_hook,
  inline_un_hook_all,
}
use unity_game_localization.InlineHook.Operations.Register.{
  Registers, register_inline_hook-Registers,
}
use unity_game_localization.InlineHook.Operations.Hook.{
  IsBeside, IsOwned, in_jump, in_proto, Hooks, inline_hook-Hooks,
}
use unity_game_localization.InlineHook.Operations.UnHook.{
  IsUnhooked, do_inline_un_hook-IsUnhooked, UnHooks, inline_un_hook-UnHooks,
}
use unity_game_localization.InlineHook.Operations.All.{NoneBelow, inline_un_hook_all-NoneBelow}

abbrev item_at : (target status : ℕ) → Item
item_at target status = record {
  target_addr = target;
  new_addr = 0x9000;
  proto_addr = none;
  orig_instructions = 1 ∷ 2 ∷ 3 ∷ 4 ∷ 5 ∷ 6 ∷ 7 ∷ 8 ∷ [];
  boundaries = record { cells = replicate 24 0; count = 2 };
  trampoline_instructions = 0xA000;
  length = 8;
  status = status;
}

abbrev info : Info
info = record {
  item = item_at 0x1000 registered ∷ item_at 0x2000 hooked ∷ replicate 1022 (item_at 0 0);
  size = 2;
}

abbrev world : World
world = record { info = info; memory = λ a. a - 0xFFF; threads = []; flushed = [] }

slots_1024 : length info.item ≡ 1024
slots_1024 = refl

known_items :
    (i : ℕ) (x : Item)
    → Used info i x
    → ((i ≡ 0) × (x.target_addr ≡ 0x1000) × (x.status ≡ registered))
      ⊎ ((i ≡ 1) × (x.target_addr ≡ 0x2000) × (x.status ≡ hooked))
known_items zero x u =
    let e : ◌≡◌ {A = Option Item} (some x) (some (item_at 0x1000 registered)) = sym u.here in
    let e' : x ≡ item_at 0x1000 registered = cc e in
    inl (refl, ap (λ (y : Item). y.target_addr) e', ap (λ (y : Item). y.status) e')
known_items (suc zero) x u =
    let e : ◌≡◌ {A = Option Item} (some x) (some (item_at 0x2000 hooked)) = sym u.here in
    let e' : x ≡ item_at 0x2000 hooked = cc e in
    inr (refl, ap (λ (y : Item). y.target_addr) e', ap (λ (y : Item). y.status) e')
known_items (suc (suc i)) x u = absurd (omega (arith, u.below))

info-IsTable : IsTable info
info-IsTable = record {
  slots = slots_1024;
  fits = omega arith;
  unique = λ i j x y ux uy e. elim (known_items i x ux) [
    | inl a ↦ elim (known_items j y uy) [ inl c ↦ omega arith | inr c ↦ omega arith ]
    | inr a ↦ elim (known_items j y uy) [ inl c ↦ omega arith | inr c ↦ omega arith ]
  ];
  known = λ i x u. elim (known_items i x u) [ inl a ↦ inl a.2 | inr a ↦ inr a.2 ];
}

second-Used : Used info 1 (item_at 0x2000 hooked)
second-Used = record { below = omega arith; here = refl }

inline_hook-Hooks_example : Hooks true 0x1000 world (inline_hook true 0x1000 world)
inline_hook-Hooks_example = inline_hook-Hooks true 0x1000 world info-IsTable

do_inline_un_hook-IsUnhooked_example :
    (w' : World) × (do_inline_un_hook 1 (item_at 0x2000 hooked) world ≡ ok w')
    × IsUnhooked 1 (item_at 0x2000 hooked) world w'
do_inline_un_hook-IsUnhooked_example =
    do_inline_un_hook-IsUnhooked 1 (item_at 0x2000 hooked) world info-IsTable second-Used

inline_un_hook-UnHooks_example : UnHooks false 0x2000 world (inline_un_hook false 0x2000 world)
inline_un_hook-UnHooks_example = inline_un_hook-UnHooks false 0x2000 world info-IsTable

inline_un_hook_all-NoneBelow_example :
    (w' : World) × (inline_un_hook_all false world ≡ ok w')
    × IsTable w'.info
    × NoneBelow hooked w' w'.info.size
inline_un_hook_all-NoneBelow_example = inline_un_hook_all-NoneBelow false world info-IsTable

register_inline_hook-Registers_example :
    Registers
      (record { start = 0x1000; end_addr = 0x9FFF; executable = true } ∷ [])
      0xB000
      0x3000
      0x9000
      none
      world
      (register_inline_hook
        (record { start = 0x1000; end_addr = 0x9FFF; executable = true } ∷ [])
        0xB000
        0x3000
        0x9000
        none
        world)
register_inline_hook-Registers_example =
    register_inline_hook-Registers
      (record { start = 0x1000; end_addr = 0x9FFF; executable = true } ∷ []) 0xB000 0x3000 0x9000
      none world info-IsTable

first-Used : Used info 0 (item_at 0x1000 registered)
first-Used = record { below = omega arith; here = refl }

first_saved :
    (item_at 0x1000 registered).orig_instructions
    ≡ read (store_proto (item_at 0x1000 registered) world.memory) 0x1000 8
unfolding read store_proto
first_saved = refl

info-AreApart : AreApart 0 info
info-AreApart zero (suc zero) x y le l u v a own =
    let e : ◌≡◌ {A = Option Item} (some (item_at 0x1000 registered)) (some x) = u.here in
    let e' : ◌≡◌ {A = Option Item} (some (item_at 0x2000 hooked)) (some y) = v.here in
    let e₁ : item_at 0x1000 registered ≡ x = cc e in
    let e₂ : item_at 0x2000 hooked ≡ y = cc e' in
    subst (λ z. IsBeside z a) e₂ (first_beside a (subst (λ z. IsOwned z a) (sym e₁) own))
  where
    first_beside :
        (a : ℕ) → IsOwned (item_at 0x1000 registered) a → IsBeside (item_at 0x2000 hooked) a
    first_beside a (in_jump m n) = record {
      target_apart = inl (omega arith);
      proto_apart = λ p h. absurd (cc h);
    }
    first_beside a (in_proto p h m n) = absurd (cc h)
info-AreApart zero zero x y le l u v a own = absurd (omega arith)
info-AreApart zero (suc (suc k)) x y le l u v a own = absurd (omega (arith, v.below))
info-AreApart (suc j) zero x y le l u v a own = absurd (omega arith)
info-AreApart (suc j) (suc k) x y le l u v a own = absurd (omega (arith, v.below))

inline_hook_all-HooksFrom_example : HooksFrom 0 info world.memory (inline_hook_all false world)
inline_hook_all-HooksFrom_example = inline_hook_all-HooksFrom false world info-IsTable info-AreApart
