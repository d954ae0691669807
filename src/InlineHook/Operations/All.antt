-- ===== src/InlineHook/Operations/All.antt =====
-- The loop of `inlineUnHookAll` of inlineHook.c.
use unity_game_localization.Prelude.{
  ℕ, zero, suc, ◌+◌, ◌≤◌, ◌<◌, ◌≡◌, ◌≢◌, ap, sym, subst, ◌∙◌, Bool, true, false, Option, none, some,
  arith, get_elem?, ◌==◌, Bool-cases, get_elem?-some, inl, inr, lt_of_ltb, le_of_ltb, ltb, ne_of_==,
}
use native.Mathlib.Decide.{ℕ_discrete}
use unity_game_localization.Run.{Run, ◌>>=◌}
use unity_game_localization.InlineHook.World.{hooked, Item, World}
use unity_game_localization.InlineHook.Threads.{freeze, disable}
use unity_game_localization.InlineHook.Items.Laws.{Used, IsTable}
use unity_game_localization.InlineHook.Operations.{
  do_inline_un_hook, un_hook_loop, inline_un_hook_all,
}
use unity_game_localization.InlineHook.Operations.Table.{freeze_keeps}
use unity_game_localization.InlineHook.Operations.UnHook.{do_inline_un_hook-IsUnhooked}

-- None of the first `i` slots that are in use has this status.
abbrev pub NoneBelow : (status : ℕ) → World → ℕ → Type 0
NoneBelow status w i = (j : ℕ) (x : Item) → Used w.info j x → j < i → x.status ≢ status

un_hook_loop_end :
    (fuel i : ℕ) (w : World) → w.info.size ≤ i → un_hook_loop (suc fuel) i w ≡ Run.ok w
unfolding un_hook_loop
un_hook_loop_end fuel i w h =
    let e : ltb i w.info.size ≡ false = ground arith in rw (e, un_hook_loop)

un_hook_loop_skip :
    (fuel i : ℕ) (w : World) (x : Item)
    → Used w.info i x
    → (x.status == hooked) ≡ false
    → un_hook_loop (suc fuel) i w ≡ un_hook_loop fuel (i + 1) w
unfolding un_hook_loop
un_hook_loop_skip fuel i w x u e =
    let l : ltb i w.info.size ≡ true = let b = u.below in ground arith in
    rw (l, un_hook_loop) (rw (u.here, un_hook_loop) (rw (e, un_hook_loop)))

un_hook_loop_delete :
    (fuel i : ℕ) (w w' : World) (x : Item)
    → Used w.info i x
    → (x.status == hooked) ≡ true
    → do_inline_un_hook i x w ≡ Run.ok w'
    → un_hook_loop (suc fuel) i w ≡ un_hook_loop fuel i w'
unfolding un_hook_loop
un_hook_loop_delete fuel i w w' x u e d =
    let l : ltb i w.info.size ≡ true = let b = u.below in ground arith in
    rw (l, un_hook_loop) (rw (u.here, un_hook_loop) (rw (e, un_hook_loop) (rw (d, ◌>>=◌))))

pub used_at : (w : World) (i : ℕ) → IsTable w.info → i < w.info.size → (x : Item) × Used w.info i x
used_at w i t l =
    let (x, e) = get_elem?-some w.info.item i (omega (arith, t.slots, t.fits)) in
    (x, record { below = l; here = e })

un_hook_loop-NoneBelow :
    (fuel i : ℕ) (w : World)
    → w.info.size < i + fuel
    → i ≤ w.info.size
    → IsTable w.info
    → NoneBelow hooked w i
    → (w' : World) × (un_hook_loop fuel i w ≡ Run.ok w')
      × IsTable w'.info
      × NoneBelow hooked w' w'.info.size
un_hook_loop-NoneBelow zero i w f le t n = absurd (omega arith)
un_hook_loop-NoneBelow (suc fuel) i w f le t n = elim (Bool-cases (ltb i w.info.size)) [
  | inr over ↦ (
    w,
    un_hook_loop_end fuel i w (le_of_ltb _ _ over),
    t,
    λ j x u l. n j x u (omega (arith, le_of_ltb _ _ over)),
  )
  | inl more ↦
      let (x, u) = used_at w i t (lt_of_ltb _ _ more) in
      elim (Bool-cases (x.status == hooked)) [
        | inr e ↦
            let (w', r, t', n') =
              un_hook_loop-NoneBelow fuel (i + 1) w (omega arith)
                (omega (arith, lt_of_ltb _ _ more)) t (next x u e) in
            (w', un_hook_loop_skip fuel i w x u e ∙ r, t', n')
        | inl e ↦
            let (w₁, d, un) = do_inline_un_hook-IsUnhooked i x w t u in
            let (w', r, t', n') =
              un_hook_loop-NoneBelow fuel i w₁ (omega (arith, un.smaller))
                (omega (arith, un.smaller, lt_of_ltb _ _ more)) un.table
                (λ j y uy l. n j y (un.kept j y (omega arith) uy) l) in
            (w', un_hook_loop_delete fuel i w w₁ x u e d ∙ r, t', n')
      ]
]
  where
    next : (x : Item) → Used w.info i x → (x.status == hooked) ≡ false → NoneBelow hooked w (i + 1)
    next x u e j y uy l = elim (ℕ_discrete j i) [
      | yes at ↦
          let same : ◌≡◌ {A = Option Item} (some y) (some x) =
            sym uy.here ∙ (ap (λ n. get_elem? w.info.item n) at ∙ u.here) in
          let same' : y ≡ x = cc same in
          subst (λ (z : Item). z.status ≢ hooked) (sym same') (ne_of_== x.status hooked e)
      | no ne ↦ n j y uy (omega arith)
    ]

-- On a well-formed table `inlineUnHookAll` ends without a fault, keeps the table well formed and
-- leaves no used item hooked.
pub inline_un_hook_all-NoneBelow :
    (forks : Bool) (w : World)
    → IsTable w.info
    → (w' : World) × (inline_un_hook_all forks w ≡ Run.ok w')
      × IsTable w'.info
      × NoneBelow hooked w' w'.info.size
unfolding inline_un_hook_all
inline_un_hook_all-NoneBelow forks w t =
    let w₁ = freeze forks none disable w in
    un_hook_loop-NoneBelow (w₁.info.size + 1) 0 w₁ (omega arith) (omega arith)
      (subst IsTable (sym (freeze_keeps forks none disable w).0) t)
      (λ j x u l. absurd (omega arith))
