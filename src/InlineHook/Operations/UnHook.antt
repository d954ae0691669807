-- ===== src/InlineHook/Operations/UnHook.antt =====
-- The outcomes of `doInlineUnHook` and `inlineUnHook` of inlineHook.c.
use unity_game_localization.Prelude.{
  ℕ, zero, suc, ◌+◌, ◌≤◌, ◌<◌, ◌≡◌, ◌≢◌, ◌⊎◌, ap, sym, subst, Bool, List, [], ◌∷◌, Option, none,
  some, arith, length, get_elem?, ◌&&◌, ◌==◌, Bool-cases, Option-cases, get_elem?-some, inl, inr,
}
use unity_game_localization.Run.{Run, ◌>>=◌}
use unity_game_localization.InlineHook.World.{
  Status, error_not_hooked, hooked, Item, World, read, write, clear_bit0,
}
use unity_game_localization.InlineHook.Threads.{freeze, disable}
use unity_game_localization.InlineHook.Items.Laws.{Used, IsTable, delete-IsTable}
use unity_game_localization.InlineHook.Operations.Patch.{read-write, write-outside}
use unity_game_localization.InlineHook.Operations.{
  flush_range, do_inline_un_hook, find_hooked, inline_un_hook,
}
use unity_game_localization.InlineHook.Operations.Table.{freeze_keeps}

-- What `do_inline_un_hook` leaves behind, of an item that is in use.
pub record IsUnhooked (pos : ℕ) (x : Item) (w w' : World) : Type 0 where
  pub table : IsTable w'.info
  pub smaller : w'.info.size + 1 ≡ w.info.size
  pub gone : (i : ℕ) (y : Item) → Used w'.info i y → y.target_addr ≢ x.target_addr
  -- no other slot gets a new item
  pub kept : (i : ℕ) (y : Item) → i ≢ pos → Used w'.info i y → Used w.info i y
  -- the copied bytes are back in their place, and nothing else is written
  pub restored :
      read w'.memory (clear_bit0 x.target_addr) (length x.orig_instructions) ≡ x.orig_instructions
  pub outside :
      (a : ℕ)
      → (a < clear_bit0 x.target_addr) ⊎ (clear_bit0 x.target_addr + length x.orig_instructions ≤ a)
      → w'.memory a ≡ w.memory a

-- Of a well-formed table and an item that is in use, `doInlineUnHook` ends without a fault: the
-- table stays well formed and has one used slot less, none of which has the item's target, no slot
-- but the item's own gets a new item, the saved bytes are back at the target, and no byte outside
-- them changes.
pub do_inline_un_hook-IsUnhooked :
    (pos : ℕ) (x : Item) (w : World)
    → IsTable w.info
    → Used w.info pos x
    → (w' : World) × (do_inline_un_hook pos x w ≡ Run.ok w') × IsUnhooked pos x w w'
unfolding do_inline_un_hook
do_inline_un_hook-IsUnhooked pos x w t u =
    let (info', e, t', s, g, k) = delete-IsTable w.info pos x t u in
    let (moved, e') = get_elem?-some info'.item pos (omega (arith, t'.slots, t.fits, u.below)) in
    (
      record w {
        info = info';
        memory = write w.memory (clear_bit0 x.target_addr) x.orig_instructions;
        flushed = flush_range moved ∷ w.flushed;
      },
      rw (e, ◌>>=◌) (rw e'),
      record {
        table = t';
        smaller = s;
        gone = g;
        kept = k;
        restored = read-write w.memory (clear_bit0 x.target_addr) x.orig_instructions;
        outside = λ a h. write-outside w.memory (clear_bit0 x.target_addr) x.orig_instructions a h;
      },
    )

find_hooked-some :
    (t i left : ℕ) (items : List Item) (k : ℕ) (x : Item)
    → find_hooked t i left items ≡ some (k, x)
    → (j : ℕ) × (k ≡ i + j)
      × (j < left)
      × (get_elem? items j ≡ some x)
      × (x.target_addr ≡ t)
      × (x.status ≡ hooked)
unfolding find_hooked
find_hooked-some t i zero items k x h = absurd (cc)
find_hooked-some t i (suc left) [] k x h = absurd (cc)
find_hooked-some t i (suc left) (y ∷ items) k x h =
    elim (Bool-cases ((y.target_addr == t) && (y.status == hooked))) [
      | inl hit ↦
          let e : ◌≡◌ {A = Option (ℕ × Item)} (some (i, y)) (some (k, x)) = rw hit at h in
          let e₁ : y ≡ x = cc e in
          (
            0,
            ground arith,
            omega arith,
            ap some e₁,
            subst (λ (z : Item). z.target_addr ≡ t) e₁ (ground arith),
            subst (λ (z : Item). z.status ≡ hooked) e₁ (ground arith),
          )
      | inr miss ↦
          let (j, e, l, g, m, s) = find_hooked-some t (i + 1) left items k x (rw miss at h) in
          (suc j, omega arith, omega arith, g, m, s)
    ]

find_hooked-none :
    (t i left : ℕ) (items : List Item)
    → find_hooked t i left items ≡ none
    → (j : ℕ) (x : Item) → j < left
    → get_elem? items j ≡ some x
    → x.target_addr ≡ t
    → x.status ≢ hooked
unfolding find_hooked
find_hooked-none t i zero items h j x l g m = absurd (omega arith)
find_hooked-none t i (suc left) [] h j x l g m = absurd (cc)
find_hooked-none t i (suc left) (y ∷ items) h zero x l g m = ground arith
find_hooked-none t i (suc left) (y ∷ items) h (suc j) x l g m =
    find_hooked-none t (i + 1) left items (ground arith) j x (omega arith) g m

-- The item and the world that the unhooking of a frozen world works on.
abbrev frozen : (forks : Bool) → Item → World → World
frozen forks x w = freeze forks (some x) disable w

-- The outcomes of a call, each with what the table holds of the target.
pub data UnHooks (forks : Bool) (target_addr : ℕ) (w : World) : Run (Status × World) → Type 0 where
  not_hooked :
      ((i : ℕ) (x : Item) → Used w.info i x → x.target_addr ≡ target_addr → x.status ≢ hooked)
      → UnHooks forks target_addr w (Run.ok (error_not_hooked, w))
  un_hooked :
      (pos : ℕ) (x : Item) (w' : World)
      → Used w.info pos x
      → x.target_addr ≡ target_addr
      → x.status ≡ hooked
      → IsUnhooked pos x (freeze forks (some x) disable w) w'
      → UnHooks forks target_addr w (Run.ok (Status.ok, w'))

-- On a well-formed table a call of `inlineUnHook` ends in one of two ways: no used item with the
-- target is hooked, `error_not_hooked` is returned and nothing changes; or a used item with the
-- target is hooked, and after the threads are stopped it is unhooked, which keeps the table well
-- formed, puts its saved bytes back and changes no byte outside them.
pub inline_un_hook-UnHooks :
    (forks : Bool) (target_addr : ℕ) (w : World)
    → IsTable w.info
    → UnHooks forks target_addr w (inline_un_hook forks target_addr w)
unfolding inline_un_hook
inline_un_hook-UnHooks forks target_addr w t =
    elim (Option-cases (find_hooked target_addr 0 w.info.size w.info.item)) [
      | inl e ↦
          rw (e, inline_un_hook)
            (not_hooked λ i x u m.
              find_hooked-none target_addr 0 w.info.size w.info.item e i x u.below u.here m)
      | inr ((k, x), e) ↦
          let (j, at, l, g, m, s) = find_hooked-some target_addr 0 w.info.size w.info.item k x e in
          let at' : j ≡ k = omega arith in
          let u : Used w.info k x =
            subst (λ n. Used w.info n x) at' (record { below = l; here = g }) in
          let same = (freeze_keeps forks (some x) disable w).0 in
          let (w', done, un) =
            do_inline_un_hook-IsUnhooked k x (frozen forks x w) (subst IsTable (sym same) t)
              (subst (λ i. Used i k x) (sym same) u) in
          rw (e, inline_un_hook) (rw (done, ◌>>=◌) (un_hooked k x w' u m s un))
    ]
