-- ===== src/InlineHook/Operations/HookAll.antt =====
-- The loop of `inlineHookAll` of inlineHook.c.
use unity_game_localization.Prelude.{
  ℕ, zero, suc, ◌+◌, ◌≤◌, ◌<◌, ◌≡◌, ◌≢◌, refl, ap, sym, subst, ◌∙◌, Bool, Option, none, some, arith,
  ◌==◌, if◌then◌else◌, Bool-cases, get_elem?-set_ne, inl, inr, ne_of_==, eq_of_==,
}
use native.Mathlib.Decide.{ℕ_discrete}
use mathlib.Core.Path.{subst₂}
use unity_game_localization.InlineHook.World.{registered, hooked, Item, Info, Memory, World}
use unity_game_localization.InlineHook.Threads.{freeze, enable}
use unity_game_localization.InlineHook.Items.Laws.{Used, IsTable}
use unity_game_localization.InlineHook.Operations.{do_inline_hook, hook_loop, inline_hook_all}
use unity_game_localization.InlineHook.Operations.Table.{freeze_keeps}
use unity_game_localization.InlineHook.Operations.Hook.{
  IsBeside, IsOwned, IsPatched, agree-IsPatched, do_inline_hook-IsActive,
}
use unity_game_localization.InlineHook.Operations.All.{used_at}

-- What becomes of an item: it keeps its target and its new function, and is hooked.
pub record IsNowHooked (x y : Item) : Type 0 where
  pub target : y.target_addr ≡ x.target_addr
  pub leads : y.new_addr ≡ x.new_addr
  pub done : y.status ≡ hooked

-- From slot `i` on, no hook writes to the bytes of a hook in an earlier slot.
abbrev pub AreApart : (i : ℕ) → Info → Type 0
AreApart i info =
    (j k : ℕ) (x y : Item)
    → i ≤ j
    → j < k
    → Used info j x
    → Used info k y
    → (a : ℕ) → IsOwned x a
    → IsBeside y a

-- The items from slot `i` on are hooked, those of them that were registered with their jump and
-- the stored address in memory; the items before stay, and so does the rest of memory.
pub record HooksFrom (i : ℕ) (info : Info) (memory : Memory) (w' : World) : Type 0 where
  pub table : IsTable w'.info
  pub size : w'.info.size ≡ info.size
  pub from_here :
      (j : ℕ) (x : Item) → i ≤ j → Used info j x → (y : Item) × Used w'.info j y × IsNowHooked x y
  pub patched :
      (j : ℕ) (x : Item) → i ≤ j → Used info j x → x.status ≡ registered → IsPatched x w'.memory
  pub before_here : (j : ℕ) (x : Item) → j < i → Used info j x → Used w'.info j x
  pub outside :
      (a : ℕ)
      → ((j : ℕ) (x : Item) → i ≤ j → Used info j x → x.status ≡ registered → IsBeside x a)
      → w'.memory a ≡ memory a

-- One round: the item in slot `i` is hooked if it is registered.
abbrev round : (i : ℕ) → Item → World → World
round i x w = if x.status == registered then do_inline_hook i x w else w

module _ (i : ℕ) (x : Item) (w : World) (t : IsTable w.info) (u : Used w.info i x) where
  record IsRound (w' : World) : Type 0 where
    pub table : IsTable w'.info
    pub size : w'.info.size ≡ w.info.size
    pub here : (y : Item) × Used w'.info i y × IsNowHooked x y
    pub others : (j : ℕ) (y : Item) → j ≢ i → Used w.info j y → Used w'.info j y
    pub known : (j : ℕ) (y : Item) → j ≢ i → Used w'.info j y → Used w.info j y
    pub patched : x.status ≡ registered → IsPatched x w'.memory
    pub outside : (a : ℕ) → (x.status ≡ registered → IsBeside x a) → w'.memory a ≡ w.memory a

  hooked-IsRound : x.status ≡ registered → IsRound (do_inline_hook i x w)
  unfolding do_inline_hook
  hooked-IsRound waiting =
      let d = do_inline_hook-IsActive i x w t u in
      record {
        table = d.table;
        size = d.size;
        here = (
          record x { status = hooked },
          d.here,
          record { target = refl; leads = refl; done = refl },
        );
        others = d.others;
        known = λ j y ne v. record {
          below = v.below;
          here =
              sym
                (get_elem?-set_ne w.info.item i j (record x { status = hooked }) (λ e. ne (sym e)))
              ∙ v.here;
        };
        patched = λ _. record { jumps = d.jumps; stored = d.stored };
        outside = λ a beside. d.outside a (beside waiting);
      }

  round-IsRound : IsRound (round i x w)
  round-IsRound = elim (Bool-cases (x.status == registered)) [
    | inl y ↦ rw y (hooked-IsRound (eq_of_== _ _ y))
    | inr n ↦
        let is_hooked : x.status ≡ hooked = elim (t.known i x u) [
          | inl r ↦ absurd (ne_of_== _ _ n r)
          | inr h ↦ h
        ] in
        rw n (record {
          table = t;
          size = refl;
          here = (x, u, record { target = refl; leads = refl; done = is_hooked });
          others = λ j y ne v. v;
          known = λ j y ne v. v;
          patched = λ r. absurd (ne_of_== _ _ n r);
          outside = λ a beside. refl;
        })
  ]

used_unique : (info : Info) (i : ℕ) (x y : Item) → Used info i x → Used info i y → x ≡ y
used_unique info i x y u v =
    let same : ◌≡◌ {A = Option Item} (some x) (some y) = sym u.here ∙ v.here in cc same

hook_loop-HooksFrom :
    (i left : ℕ) (w : World)
    → i + left ≡ w.info.size
    → IsTable w.info
    → AreApart i w.info
    → HooksFrom i w.info w.memory (hook_loop i left w)
unfolding hook_loop
hook_loop-HooksFrom i zero w e t apart = record {
  table = t;
  size = refl;
  from_here = λ j x le u. absurd (omega (arith, u.below));
  patched = λ j x le u. absurd (omega (arith, u.below));
  before_here = λ j x l u. u;
  outside = λ a h. refl;
}
hook_loop-HooksFrom i (suc left) w e t apart =
    let (x, u) = used_at w i t (omega arith) in
    let r = round-IsRound i x w t u in
    let still_apart : AreApart (i + 1) (round i x w).info = λ j k y z le l v v' a own.
      apart j k y z (omega arith) l (r.known j y (omega arith) v) (r.known k z (omega arith) v') a
        own in
    let rest =
      hook_loop-HooksFrom (i + 1) left (round i x w) (omega (arith, r.size)) r.table still_apart in
    rw (u.here, hook_loop)
      (record {
        table = rest.table;
        size = rest.size ∙ r.size;
        from_here = λ j y le v. elim (ℕ_discrete j i) [
          | no ne ↦ rest.from_here j y (omega arith) (r.others j y ne v)
          | yes at ↦
              let (x', u', now) = r.here in
              let v' : Used w.info i y = subst (λ n. Used w.info n y) at v in
              let same = used_unique w.info i x y u v' in
              subst
                (λ n.
                  (z : Item) × Used (hook_loop (i + 1) left (round i x w)).info n z
                  × IsNowHooked y z)
                (sym at)
                (x', rest.before_here i x' (omega arith) u', subst (λ z. IsNowHooked z x') same now)
        ];
        patched = λ j y le v waiting. elim (ℕ_discrete j i) [
          | no ne ↦ rest.patched j y (omega arith) (r.others j y ne v) waiting
          | yes at ↦
              let v' : Used w.info i y = subst (λ n. Used w.info n y) at v in
              let same = used_unique w.info i x y u v' in
              subst (λ z. IsPatched z (hook_loop (i + 1) left (round i x w)).memory) same
                (agree-IsPatched x (round i x w).memory
                  (hook_loop (i + 1) left (round i x w)).memory
                  (λ a own. rest.outside a (λ k z l v₁ _.
                    apart i k x z (omega arith) (omega arith) u (r.known k z (omega arith) v₁) a
                      own))
                  (r.patched (ap (λ (z : Item). z.status) same ∙ waiting)))
        ];
        before_here = λ j y l v. rest.before_here j y (omega arith) (r.others j y (omega arith) v);
        outside = λ a h.
            rest.outside a
              (λ k z l v waiting. h k z (omega arith) (r.known k z (omega arith) v) waiting)
            ∙ r.outside a (λ waiting. h i x (omega arith) u waiting);
      })

-- Take a well-formed table where no item's hook writes to the bytes of the hook of an item in an
-- earlier slot: 12 at the target and the four of the caller's variable. `inlineHookAll` keeps the
-- table well formed and the number of used slots, and afterwards every slot that was in use holds
-- an item with the target and the new function of the one it held, which is hooked. Of every item
-- that was registered the jump to its new function stands at the target, as in `inline_hook-Hooks`,
-- and its variable, where it is apart from the jump, holds the trampoline's address. No byte
-- outside the bytes of these hooks changes.
pub inline_hook_all-HooksFrom :
    (forks : Bool) (w : World)
    → IsTable w.info
    → AreApart 0 w.info
    → HooksFrom 0 w.info w.memory (inline_hook_all forks w)
unfolding inline_hook_all
inline_hook_all-HooksFrom forks w t apart =
    let w₁ = freeze forks none enable w in
    let (same, same') = freeze_keeps forks none enable w in
    subst₂ (λ info memory. HooksFrom 0 info memory (hook_loop 0 w₁.info.size w₁)) same same'
      (hook_loop-HooksFrom 0 w₁.info.size w₁ (omega arith) (subst IsTable (sym same) t)
        (subst (AreApart 0) (sym same) apart))
