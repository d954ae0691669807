-- ===== src/Inject/Startup/Methods.antt =====
-- `hook_get_methods` and `new_func_get_methods` of inject_dobby.cpp: the methods of the game's
-- classes.
use unity_game_localization.Prelude.{
  ℕ, ◌+◌, ◌-◌, ◌/◌, ◌%◌, ◌^◌, ◌≤◌, ◌<◌, ◌≡◌, ◌≢◌, refl, ap, ap₂, ◌∙◌, ◌++◌, ==_of_ne, true, false,
  List, [], ◌∷◌, some, arith,
}
use unity_game_localization.Prelude.Bits.{u32}
use unity_game_localization.Inject.Startup.{
  System, Replacement, at_get, at_set, App, Method, unity_ui, get_text, set_text, strcmp_equal,
  branch_target, hook_get_set, new_func_get_methods,
}

-- The Arm branch at `address` to `target`, the condition `always`.
abbrev pub branch_to : (address target : ℕ) → ℕ
branch_to address target = 0xEA000000 + (target + 2 ^ 32 - address - 8) / 4 % 2 ^ 24

-- From the Arm instruction `b` at one aligned address to another, below 2 ^ 32 (the first one by 8
-- at least) and in the branch's range of 2 ^ 25 bytes to either side, `hook_get_methods` computes
-- the address that it branches to.
pub branch_target-branch_to :
    (address target : ℕ)
    → address % 4 ≡ 0
    → target % 4 ≡ 0
    → (address < 2 ^ 32 - 8) × (target < 2 ^ 32)
    → (target < address + 8 + 2 ^ 25) × (address + 8 ≤ target + 2 ^ 25)
    → branch_target address (branch_to address target) ≡ target
unfolding branch_target
branch_target-branch_to address target h₁ h₂ h₃ h₄ = ground arith

-- Methods of classes in other namespaces.
abbrev pub Foreign : List Method → Type 0
Foreign [] = Unit {0}
Foreign (m ∷ ms) = (strcmp_equal m.namespace unity_ui ≡ false) × Foreign ms

module _ {Code : Type 0} (sys : System) (dobby_hook : ℕ → Replacement → Code → Code) where
  abbrev pub visit : List Method → App Code → App Code
  visit [] app = app
  visit (m ∷ ms) app = visit ms (new_func_get_methods sys dobby_hook (some m) app)

  visit-once_step :
      (m : Method) (app : App Code)
      → app.is_got_get_and_set ≡ true
      → ((new_func_get_methods sys dobby_hook (some m) app).code ≡ app.code)
        × ((new_func_get_methods sys dobby_hook (some m) app).is_got_get_and_set ≡ true)
  unfolding new_func_get_methods
  visit-once_step m app h = ground arith

  -- Once both functions are hooked, no method that is visited later changes the code again.
  pub visit-once :
      (ms : List Method) (app : App Code)
      → app.is_got_get_and_set ≡ true
      → (visit ms app).code ≡ app.code
  visit-once [] app h = refl
  visit-once (m ∷ ms) app h = let (e, got) = visit-once_step m app h in visit-once ms _ got ∙ e

  visit-Foreign :
      (ms rest : List Method) (app : App Code)
      → Foreign ms
      → visit (ms ++ rest) app ≡ visit rest app
  unfolding new_func_get_methods
  visit-Foreign [] rest app h = refl
  visit-Foreign (m ∷ ms) rest app h = rw (h.0, visit) (visit-Foreign ms rest app h.1)

  -- Both hooks at two offsets of the library.
  pub hook_get_set-both :
      (app : App Code) (p q : ℕ)
      → 0 < app.libil2cpp_base
      → (app.address_get ≢ 0) × (app.address_set ≢ 0)
      → (u32 (app.libil2cpp_base + app.address_get) ≡ p)
        × (u32 (app.libil2cpp_base + app.address_set) ≡ q)
      → hook_get_set sys dobby_hook app ≡ record app {
        func_get = p;
        func_set = q;
        code = dobby_hook q at_set (dobby_hook p at_get app.code);
      }
  unfolding hook_get_set
  hook_get_set-both app p q based set at =
      rw (==_of_ne app.libil2cpp_base 0 (omega arith), hook_get_set)
        (rw (==_of_ne app.address_get 0 set.0)
          (rw (==_of_ne app.address_set 0 set.1, at.0, at.1) refl))

  module _ (app : App Code) (p q : ℕ)
      (unset : (app.address_set ≡ 0) × (app.is_got_get_and_set ≡ false))
      (based : 0 < app.libil2cpp_base) (above : (app.libil2cpp_base < p) × (app.libil2cpp_base < q))
      (small : (p < 2 ^ 32) × (q < 2 ^ 32)) where
    abbrev getter : Method
    getter = record { pointer = p; name = get_text; namespace = unity_ui }

    abbrev setter : Method
    setter = record { pointer = q; name = set_text; namespace = unity_ui }

    visit-getter :
        new_func_get_methods sys dobby_hook (some getter) app ≡ record app { address_get = p }
    unfolding new_func_get_methods strcmp_equal
    visit-getter = rw unset.0 (rw (==_of_ne p 0 (omega (arith, above.0))) refl)

    abbrev noted : App Code
    noted = record app { address_get = p; address_set = q }

    abbrev offsets : (a b : ℕ) → App Code
    offsets a b = record app { address_get = a; address_set = b }

    visit-setter_step :
        new_func_get_methods sys dobby_hook (some setter) (record app { address_get = p })
        ≡ record (hook_get_set sys dobby_hook (
            offsets
              (u32 (p + 2 ^ 32 - app.libil2cpp_base))
              (u32 (q + 2 ^ 32 - app.libil2cpp_base)))) { is_got_get_and_set = true }
    unfolding new_func_get_methods strcmp_equal
    visit-setter_step =
        rw (unset.1, ==_of_ne p 0 (omega (arith, above.0)), ==_of_ne q 0 (omega (arith, above.1)))
          refl

    abbrev hooked_both : App Code
    hooked_both = record app {
      address_get = p - app.libil2cpp_base;
      address_set = q - app.libil2cpp_base;
      func_get = p;
      func_set = q;
      is_got_get_and_set = true;
      code = dobby_hook q at_set (dobby_hook p at_get app.code);
    }

    visit-setter :
        new_func_get_methods sys dobby_hook (some setter) (record app { address_get = p })
        ≡ hooked_both
    visit-setter =
        let e₁ : u32 (p + 2 ^ 32 - app.libil2cpp_base) ≡ p - app.libil2cpp_base =
          omega (arith, above.0, small.0) in
        let e₂ : u32 (q + 2 ^ 32 - app.libil2cpp_base) ≡ q - app.libil2cpp_base =
          omega (arith, above.1, small.1) in
        visit-setter_step
        ∙ ap (λ (r : App Code). record r { is_got_get_and_set = true })
            (ap₂ (λ a b. hook_get_set sys dobby_hook (offsets a b)) e₁ e₂
              ∙ hook_get_set-both (offsets (p - app.libil2cpp_base) (q - app.libil2cpp_base)) p q
                  based (omega (arith, above.0), omega (arith, above.1))
                  (omega (arith, above.0, small.0), omega (arith, above.1, small.1)))

    -- Let the library be found at a base other than 0, the address of `set_text` not be set, and
    -- the two functions not be found yet. When il2cpp hands out `get_text` and later `set_text` of
    -- UnityEngine.UI, with code above the base and below 2 ^ 32, and only methods of other
    -- namespaces before and between them, then both are hooked at their code, `get_text` first, and
    -- no method that is handed out later changes the code again.
    pub visit-hooks :
        (before between after : List Method)
        → Foreign before
        → Foreign between
        → (visit (before ++ (getter ∷ (between ++ (setter ∷ after)))) app).code
          ≡ dobby_hook q at_set (dobby_hook p at_get app.code)
    visit-hooks before between after f₁ f₂ =
        ap (λ (x : App Code). x.code)
          (visit-Foreign before _ app f₁
            ∙ ap (visit (between ++ setter ∷ after)) visit-getter
            ∙ visit-Foreign between _ (record app { address_get = p }) f₂
            ∙ ap (visit after) visit-setter)
        ∙ visit-once after hooked_both refl
