-- ===== src/InlineHook/Items/Laws.antt =====
-- The table of inlineHook.c: what a well-formed one is, and the laws of its three operations.
use unity_game_localization.Prelude.{
  ℕ, zero, suc, ◌+◌, ◌-◌, ◌≤◌, ◌<◌, ◌≡◌, ◌≢◌, ◌⊎◌, refl, ap, sym, subst, ◌∙◌, List, [], ◌∷◌, none,
  some, arith, length, get_elem?, set, length-set, get_elem?-set_self, get_elem?-set_ne,
  get_elem?-some, ◌==◌, Bool-cases, inl, inr, eq_of_==,
}
use native.Mathlib.Decide.{ℕ_discrete}
use unity_game_localization.Run.{ok}
use unity_game_localization.InlineHook.World.{Item, Info, registered, hooked}
use unity_game_localization.InlineHook.Items.{
  find_from, find_inline_hook_item, delete_inline_hook_item,
}

-- The item in slot `i`, which is in use.
pub record Used (info : Info) (i : ℕ) (x : Item) : Type 0 where
  pub below : i < info.size
  pub here : get_elem? info.item i ≡ some x

-- There are 1024 slots, no two used ones have one target, and a used one is registered or hooked.
pub record IsTable (info : Info) : Type 0 where
  pub slots : length info.item ≡ 1024
  pub fits : info.size ≤ 1024
  pub unique :
      (i j : ℕ) (x y : Item) → Used info i x → Used info j y → x.target_addr ≡ y.target_addr → i ≡ j
  pub known : (i : ℕ) (x : Item) → Used info i x → (x.status ≡ registered) ⊎ (x.status ≡ hooked)

find_from-some :
    (t i left : ℕ) (items : List Item) (k : ℕ)
    → find_from t i left items ≡ some k
    → (j : ℕ) × (x : Item) × (k ≡ i + j)
      × (j < left)
      × (get_elem? items j ≡ some x)
      × (x.target_addr ≡ t)
unfolding find_from
find_from-some t i zero items k h = absurd (cc)
find_from-some t i (suc left) [] k h = absurd (cc)
find_from-some t i (suc left) (x ∷ items) k h = elim (Bool-cases (x.target_addr == t)) [
  | inl hit ↦ (0, x, ground arith, omega arith, refl, eq_of_== _ _ hit)
  | inr miss ↦
      let (j, y, e, l, g, m) = find_from-some t (i + 1) left items k (rw miss at h) in
      (suc j, y, omega arith, omega arith, g, m)
]

find_from-none :
    (t i left : ℕ) (items : List Item)
    → find_from t i left items ≡ none
    → (j : ℕ) (x : Item) → j < left
    → get_elem? items j ≡ some x
    → x.target_addr ≢ t
unfolding find_from
find_from-none t i zero items h j x l g = absurd (omega arith)
find_from-none t i (suc left) [] h j x l g = absurd (cc)
find_from-none t i (suc left) (y ∷ items) h zero x l g = ground arith
find_from-none t i (suc left) (y ∷ items) h (suc j) x l g =
    find_from-none t (i + 1) left items (ground arith) j x (omega arith) g

-- An item that is found is in use and has the target; if none is found, no used one has it.
pub find-some :
    (info : Info) (t k : ℕ)
    → find_inline_hook_item info t ≡ some k
    → (x : Item) × Used info k x × (x.target_addr ≡ t)
unfolding find_inline_hook_item
find-some info t k h =
    let (j, x, e, l, g, m) = find_from-some t 0 info.size info.item k h in
    let e' : k ≡ j = omega arith in
    (x, subst (λ n. Used info n x) (sym e') (record { below = l; here = g }), m)

pub find-none :
    (info : Info) (t : ℕ)
    → find_inline_hook_item info t ≡ none
    → (i : ℕ) (x : Item) → Used info i x
    → x.target_addr ≢ t
unfolding find_inline_hook_item
find-none info t h i x u = find_from-none t 0 info.size info.item h i x u.below u.here

-- What stands in a slot after a write to one.
get_elem?-set-cases :
    (xs : List Item) (pos i : ℕ) (v x : Item)
    → pos < length xs
    → get_elem? (set xs pos v) i ≡ some x
    → ((i ≡ pos) × (x ≡ v)) ⊎ ((i ≢ pos) × (get_elem? xs i ≡ some x))
get_elem?-set-cases xs pos i v x l h = elim (ℕ_discrete i pos) [
  | yes e ↦
      let at_pos : get_elem? (set xs pos v) pos ≡ some x =
        subst (λ n. get_elem? (set xs pos v) n ≡ some x) e h in
      inl (e, cc (get_elem?-set_self xs pos v l))
  | no ne ↦ inr (ne, sym (get_elem?-set_ne xs pos i v (λ e. ne (sym e))) ∙ h)
]

-- A used slot may be given a new item with the old target and a known status.
module _ (info : Info) (pos : ℕ) (old new : Item) (t : IsTable info) (u : Used info pos old)
    (e : new.target_addr ≡ old.target_addr)
    (s : (new.status ≡ registered) ⊎ (new.status ≡ hooked)) where
  abbrev updated : Info
  updated = record info { item = set info.item pos new }

  pub updated-cases :
      (i : ℕ) (x : Item)
      → Used updated i x
      → ((i ≡ pos) × (x ≡ new)) ⊎ ((i ≢ pos) × (get_elem? info.item i ≡ some x))
  updated-cases i x ux =
      get_elem?-set-cases info.item pos i new x (omega (arith, t.slots, t.fits, u.below)) ux.here

  before :
      (i : ℕ) (x : Item)
      → Used updated i x
      → (x' : Item) × Used info i x' × (x.target_addr ≡ x'.target_addr)
  before i x ux = elim (updated-cases i x ux) [
    | inl (at, is) ↦
        (old, subst (λ n. Used info n old) (sym at) u, ap (λ (y : Item). y.target_addr) is ∙ e)
    | inr (ne, g) ↦ (x, record { below = ux.below; here = g }, refl)
  ]

  pub update-IsTable : IsTable (record info { item = set info.item pos new })
  update-IsTable = record {
    slots = length-set info.item pos new ∙ t.slots;
    fits = t.fits;
    unique = λ i j x y ux uy same.
        let (x', ux', ex) = before i x ux in
        let (y', uy', ey) = before j y uy in t.unique i j x' y' ux' uy' (sym ex ∙ (same ∙ ey));
    known = λ i x ux. elim (updated-cases i x ux) [
      | inl (at, is) ↦
          subst (λ (y : Item). (y.status ≡ registered) ⊎ (y.status ≡ hooked)) (sym is) s
      | inr (ne, g) ↦ t.known i x (record { below = ux.below; here = g })
    ];
  }

-- A new item with a target that no used one has may be put behind the last.
module _ (info : Info) (new : Item) (t : IsTable info) (room : info.size < 1024)
    (absent : (i : ℕ) (x : Item) → Used info i x → x.target_addr ≢ new.target_addr)
    (s : new.status ≡ registered) where
  abbrev extended : Info
  extended = record { item = set info.item info.size new; size = info.size + 1 }

  pub extended-cases :
      (i : ℕ) (x : Item) → Used extended i x → ((i ≡ info.size) × (x ≡ new)) ⊎ Used info i x
  extended-cases i x ux =
      elim (get_elem?-set-cases info.item info.size i new x (omega (arith, t.slots)) ux.here) [
        | inl at ↦ inl at
        | inr (ne, g) ↦ inr (record { below = omega (arith, ux.below); here = g })
      ]

  pub extend-IsTable : IsTable extended
  extend-IsTable = record {
    slots = length-set info.item info.size new ∙ t.slots;
    fits = omega arith;
    unique = λ i j x y ux uy same. elim (extended-cases i x ux) [
      | inl (at, is) ↦ elim (extended-cases j y uy) [
        | inl (at', is') ↦ at ∙ sym at'
        | inr old ↦ absurd (absent j y old (sym same ∙ ap (λ (z : Item). z.target_addr) is))
      ]
      | inr old ↦ elim (extended-cases j y uy) [
        | inl (at', is') ↦ absurd (absent i x old (same ∙ ap (λ (z : Item). z.target_addr) is'))
        | inr old' ↦ t.unique i j x y old old' same
      ]
    ];
    known = λ i x ux. elim (extended-cases i x ux) [
      | inl (at, is) ↦ inl (ap (λ (z : Item). z.status) is ∙ s)
      | inr old ↦ t.known i x old
    ];
  }

-- A used item may be deleted: the last one takes its slot.
module _ (info : Info) (pos : ℕ) (old : Item) (t : IsTable info) (u : Used info pos old) where
  last-Used : (last : Item) × Used info (info.size - 1) last
  last-Used =
      let (x, e) =
        get_elem?-some info.item (info.size - 1) (omega (arith, t.slots, t.fits, u.below)) in
      (x, record { below = omega (arith, u.below); here = e })

  abbrev shrunk : Item → Info
  shrunk last = record { item = set info.item pos last; size = info.size - 1 }

  -- Every item that is left was in use before, at the same slot or at the last.
  shrunk-cases :
      (last : Item)
      → Used info (info.size - 1) last
      → (i : ℕ) (x : Item) → Used (shrunk last) i x
      → ((i ≡ pos) × (x ≡ last)) ⊎ ((i ≢ pos) × Used info i x)
  shrunk-cases last ul i x ux =
      elim (get_elem?-set-cases info.item pos i last x (omega (arith, t.slots, t.fits, u.below))
        ux.here) [
          | inl at ↦ inl at
          | inr (ne, g) ↦ inr (ne, record { below = omega (arith, ux.below); here = g })
        ]

  shrunk_unique :
      (last : Item)
      → Used info (info.size - 1) last
      → (i j : ℕ) (x y : Item) → Used (shrunk last) i x
      → Used (shrunk last) j y
      → x.target_addr ≡ y.target_addr
      → i ≡ j
  shrunk_unique last ul i j x y ux uy same = elim (shrunk-cases last ul i x ux) [
    | inl (at, is) ↦ elim (shrunk-cases last ul j y uy) [
      | inl (at', is') ↦ at ∙ sym at'
      | inr (ne, uy') ↦
          let e =
            t.unique (info.size - 1) j last y ul uy'
              (sym (ap (λ (z : Item). z.target_addr) is) ∙ same) in
          absurd (omega (arith, uy.below))
    ]
    | inr (ne, ux') ↦ elim (shrunk-cases last ul j y uy) [
      | inl (at', is') ↦
          let e =
            t.unique i (info.size - 1) x last ux' ul
              (same ∙ ap (λ (z : Item). z.target_addr) is') in
          absurd (omega (arith, ux.below))
      | inr (ne', uy') ↦ t.unique i j x y ux' uy' same
    ]
  ]

  -- Deleting a used item of a well-formed table ends without a fault, leaves a well-formed table
  -- with one used slot less, none of which has the item's target, and puts no new item into any
  -- slot but the deleted one's.
  pub delete-IsTable :
      (info' : Info) × (delete_inline_hook_item pos info ≡ ok info')
      × IsTable info'
      × (info'.size + 1 ≡ info.size)
      × ((i : ℕ) (x : Item) → Used info' i x → x.target_addr ≢ old.target_addr)
      × ((i : ℕ) (x : Item) → i ≢ pos → Used info' i x → Used info i x)
  unfolding delete_inline_hook_item
  delete-IsTable =
      let (last, ul) = last-Used in
      (
        shrunk last,
        rw (ul.here, delete_inline_hook_item),
        record {
          slots = length-set info.item pos last ∙ t.slots;
          fits = omega (arith, t.fits);
          unique = shrunk_unique last ul;
          known = λ i x ux. elim (shrunk-cases last ul i x ux) [
            | inl (at, is) ↦
                subst (λ (y : Item). (y.status ≡ registered) ⊎ (y.status ≡ hooked)) (sym is)
                  (t.known (info.size - 1) last ul)
            | inr (ne, ux') ↦ t.known i x ux'
          ];
        },
        omega (arith, u.below),
        gone last ul,
        kept last ul,
      )
    where
      kept :
          (last : Item)
          → Used info (info.size - 1) last
          → (i : ℕ) (x : Item) → i ≢ pos
          → Used (shrunk last) i x
          → Used info i x
      kept last ul i x ne ux = elim (shrunk-cases last ul i x ux) [
        | inl (at, is) ↦ absurd (ne at)
        | inr (ne', ux') ↦ ux'
      ]

      gone :
          (last : Item)
          → Used info (info.size - 1) last
          → (i : ℕ) (x : Item) → Used (shrunk last) i x
          → x.target_addr ≢ old.target_addr
      gone last ul i x ux same = elim (shrunk-cases last ul i x ux) [
        | inl (at, is) ↦
            let e =
              t.unique (info.size - 1) pos last old ul u
                (sym (ap (λ (z : Item). z.target_addr) is) ∙ same) in
            omega (arith, ux.below)
        | inr (ne, ux') ↦ ne (t.unique i pos x old ux' u same)
      ]
