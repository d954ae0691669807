-- ===== src/Tools/Rate/Spaced.antt =====
-- How far apart the calls of tools.cpp show something.
use unity_game_localization.Prelude.{
  ℕ, ◌+◌, ◌≤◌, ◌<◌, ◌≡◌, ◌⊎◌, refl, ltb, true, false, List, [], ◌∷◌, arith, Bool-cases, inl, inr,
  lt_of_ltb, ==_of_eq,
}
use unity_game_localization.Tools.Rate.{
  Rates, Times, Show, sa, toast, show_sa, show_toast, show, shown, since, get_current_time,
}

-- The clock does not run backwards, from a time on and within each call.
unfoldable pub InOrder : (now : ℕ) → List (Show × Times) → Type 0
InOrder now [] = now ≤ now
InOrder now ((what, t) ∷ calls) =
    (now ≤ t.starting)
    × (t.starting ≤ t.testing)
    × (t.testing ≤ t.setting)
    × InOrder t.setting calls

-- Each time is more than three seconds behind the one before it.
unfoldable pub Spaced : (last : ℕ) → List ℕ → Type 0
Spaced last [] = last ≤ last
Spaced last (t ∷ ts) = (last + 3000 < t) × Spaced t ts

apart :
    (testing setting last noted : ℕ)
    → noted ≡ get_current_time last
    → last ≤ testing
    → testing ≤ setting
    → ltb 3000 (since testing noted) ≡ true
    → last + 3000 < setting
apart testing setting last noted e l m late = omega (arith, lt_of_ltb _ _ late)

-- What a call does: it shows nothing and leaves the time of the last display, or it shows
-- something, more than three seconds after a display at `last`, and notes the time.
show-cases :
    (what : Show) (t : Times) (s : Rates) (last : ℕ)
    → s.last_milles ≡ get_current_time last
    → last ≤ t.testing
    → t.testing ≤ t.setting
    → (((show what t s).1 ≡ false) × ((show what t s).0.last_milles ≡ get_current_time last))
      ⊎ (((show what t s).1 ≡ true)
          × ((show what t s).0.last_milles ≡ get_current_time t.setting)
          × (last + 3000 < t.setting))
unfolding show show_sa show_toast
show-cases sa t s last e l m = elim (Bool-cases (ltb (since t.starting s.start_time) 1000)) [
  | inl early ↦ rw (early, show_sa) (inl (refl, e))
  | inr started ↦ elim (Bool-cases (ltb 3000 (since t.testing s.last_milles))) [
    | inl late ↦
        rw (started, late, show_sa)
          (inr (
            ==_of_eq _ 0 (omega arith),
            refl,
            apart t.testing t.setting last s.last_milles e l m late,
          ))
    | inr soon ↦ rw (started, soon, show_sa) (inl (refl, e))
  ]
]
show-cases toast t s last e l m = elim (Bool-cases (ltb 3000 (since t.testing s.last_milles))) [
  | inl late ↦
      rw (late, show_toast)
        (inr (refl, refl, apart t.testing t.setting last s.last_milles e l m late))
  | inr soon ↦ rw (soon, show_toast) (inl (refl, e))
]

-- Let the global `last_milles` be the clock, which counts milliseconds modulo 2 ^ 32, at a time
-- `last`, and let the readings of a sequence of calls of `show_sa10`, `show_sa11` and `show_toast`
-- not run backwards from that time on. Then whatever the calls show is shown more than 3000
-- milliseconds after `last`, and more than 3000 milliseconds after what was shown before it,
-- however often the clock wraps around.
pub shown-Spaced :
    (calls : List (Show × Times)) (s : Rates) (last now : ℕ)
    → s.last_milles ≡ get_current_time last
    → last ≤ now
    → InOrder now calls
    → Spaced last (shown calls s)
unfolding shown Spaced InOrder
shown-Spaced [] s last now e l o = omega arith
shown-Spaced ((what, t) ∷ calls) s last now e l o =
    elim (show-cases what t s last e (omega (arith, o.0, o.1)) o.2) [
      | inl (quiet, kept) ↦ rw quiet (
          shown-Spaced calls (show what t s).0 last t.setting kept (omega (arith, o.0, o.1, o.2))
            o.3)
      | inr (loud, noted, far) ↦
          rw loud
            (far, shown-Spaced calls (show what t s).0 t.setting t.setting noted (omega arith) o.3)
    ]
