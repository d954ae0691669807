-- ===== src/Tools/Junk.antt =====
-- Tools/junk.h: functions without any effect, which the macros `_JUNK_FUN_..` call between the
-- statements of inject_dobby.cpp. All their numbers stay between 0 and 2 ^ 31.
use unity_game_localization.Prelude.{
  ℕ, zero, suc, ◌+◌, ◌-◌, ◌*◌, ◌/◌, ◌%◌, ◌==◌, ltb, if◌then◌else◌, List, [], ◌∷◌, ◌++◌,
}
use unity_game_localization.Run.{Run, ok, fault, out_of_fuel, ◌>>=◌}

-- The two volatile variables.
pub record Vars : Type 0 where
  pub i : ℕ
  pub j : ℕ

-- `while (i++ < limit) ...`: the test reads `i` before it is counted up, once more at the end.
unfoldable pub while_below : (fuel limit : ℕ) → (Vars → Vars) → Vars → Run Vars
while_below zero limit body v = fault out_of_fuel
while_below (suc fuel) limit body v =
    let counted = record v { i = v.i + 1 } in
    let rest = while_below fuel limit body (body counted) in
    if ltb v.i limit then rest else ok counted

-- The function bodies up to the loop share a shape: `i` is counted by one, `j` is multiplied by it
-- if the old `i` is not a multiple of `n`.
abbrev pub start : (n old_i new_i j : ℕ) → Vars
start n old_i new_i j = record { i = new_i; j = if ltb 0 (old_i % n) then j * new_i else j }

-- `j < 0` is never so.
unfoldable pub junk_fun0 : Run ℕ
unfolding while_below
junk_fun0 =
    let v = start 2 138 139 1949 in
    let looped =
      while_below 4 2 (λ v. record { i = v.i + 1; j = v.j / v.i + 1 }) (record v { i = 1 })
      >>= (λ v. ok v.i) in
    if ltb v.j 0 then looped else ok 0

unfoldable pub junk_fun1 : Run ℕ
unfolding while_below
junk_fun1 =
    let v = start 3 21 20 75 in
    let looped =
      while_below 4 3 (λ v. record { i = v.i + 1; j = v.j / v.i - 1 }) (record v { i = 1 })
      >>= (λ v. ok v.j) in
    if ltb 1 v.j then looped else ok 1

unfoldable pub junk_fun2 : Run ℕ
unfolding while_below
junk_fun2 =
    let v = start 5 56 55 17 in
    let looped =
      while_below 4 5 (λ v. record { i = v.i + 3; j = v.j * v.i + 3 }) (record v { i = 1 })
      >>= (λ v. ok v.i) in
    if ltb 2 v.j then looped else ok 0

unfoldable pub junk_fun3 : Run ℕ
unfolding while_below
junk_fun3 =
    let v = start 7 1909 1908 131 in
    let looped =
      while_below 4 7 (λ v. record { i = v.i + 5; j = v.j / v.i - 5 }) (record v { i = 1 })
      >>= (λ v. ok v.i) in
    if ltb 3 v.j then looped else ok 1

-- One of the functions, by its number.
unfoldable pub junk_fun : ℕ → Run ℕ
unfolding junk_fun0 junk_fun1 junk_fun2 junk_fun3
junk_fun zero = junk_fun0
junk_fun (suc zero) = junk_fun1
junk_fun (suc (suc zero)) = junk_fun2
junk_fun _ = junk_fun3

run : ℕ → Run (List ℕ)
run g = do result ← junk_fun g; ok (g ∷ [])

-- `if (junk_fun..()) junk_fun..();` for each of the pairs; the list has the functions called.
unfoldable pub statements : List (ℕ × ℕ) → Run (List ℕ)
unfolding junk_fun run
statements [] = ok []
statements ((f, g) ∷ fs) = do
  tested ← junk_fun f
  called ← (if tested == 0 then ok [] else run g)
  rest ← statements fs
  ok (f ∷ called ++ rest)

unfoldable pub junk_fun_0 : Run (List ℕ)
unfolding statements
junk_fun_0 = statements ((2, 1) ∷ (0, 3) ∷ (1, 2) ∷ (3, 1) ∷ (1, 0) ∷ (2, 3) ∷ (3, 1) ∷ (1, 0) ∷ [])

unfoldable pub junk_fun_1 : Run (List ℕ)
unfolding statements
junk_fun_1 = statements ((3, 1) ∷ (1, 2) ∷ (2, 0) ∷ (0, 1) ∷ (2, 1) ∷ (0, 3) ∷ (1, 2) ∷ (3, 1) ∷ [])

unfoldable pub junk_fun_2 : Run (List ℕ)
unfolding statements
junk_fun_2 = statements ((1, 0) ∷ (2, 3) ∷ (3, 1) ∷ (1, 0) ∷ (0, 2) ∷ (3, 0) ∷ (0, 3) ∷ (2, 3) ∷ [])

unfoldable pub junk_fun_3 : Run (List ℕ)
unfolding statements
junk_fun_3 = statements ((0, 2) ∷ (3, 0) ∷ (0, 3) ∷ (2, 3) ∷ (3, 1) ∷ (1, 2) ∷ (2, 0) ∷ (0, 1) ∷ [])
