-- ===== src/Tools/Rate.antt =====
-- `show_sa10`, `show_sa11` and `show_toast` of tools.cpp, which share the globals that say when
-- something was shown last. A call reads the clock up to three times; the readings are given as
-- milliseconds, and cut to 32 bits as `unsigned long` is.
pub mod Spaced
use unity_game_localization.Prelude.{
  ℕ, zero, suc, ◌+◌, ◌-◌, ◌%◌, ◌^◌, ◌==◌, ltb, if◌then◌else◌, Bool, true, false, List, [], ◌∷◌,
}
use unity_game_localization.Prelude.Bits.{u32}

abbrev pub display_advertising_interval : ℕ
display_advertising_interval = 3000

abbrev pub start_time_delay : ℕ
start_time_delay = 1000

abbrev pub times_delay_s : ℕ
times_delay_s = 1

-- The globals that change, and the one that is set when the library is loaded.
pub record Rates : Type 0 where
  pub last_milles : ℕ
  pub times_delay : ℕ
  pub start_time : ℕ

-- `getCurrentTime` at a time in milliseconds.
abbrev pub get_current_time : ℕ → ℕ
get_current_time milliseconds = u32 milliseconds

abbrev pub since : (now before : ℕ) → ℕ
since now before = u32 (get_current_time now + 2 ^ 32 - before)

-- The three clock readings of a call: at the start-up delay, at the interval, and at the update.
pub record Times : Type 0 where
  pub starting : ℕ
  pub testing : ℕ
  pub setting : ℕ

-- `show_sa10` and `show_sa11` differ in the method that they call. The flag says whether it is
-- called.
unfoldable pub show_sa : Times → Rates → Rates × Bool
show_sa t s =
    let s' = record s {
      last_milles = get_current_time t.setting;
      times_delay = u32 (s.times_delay + 1);
    } in
    if ltb (since t.starting s.start_time) start_time_delay
    then (s, false)
    else if ltb display_advertising_interval (since t.testing s.last_milles)
    then (s', s'.times_delay % times_delay_s == 0)
    else (s, false)

unfoldable pub show_toast : Times → Rates → Rates × Bool
show_toast t s =
    if ltb display_advertising_interval (since t.testing s.last_milles)
    then (record s { last_milles = get_current_time t.setting }, true)
    else (s, false)

pub data Show : Type 0 where
  sa toast : Show

-- One call of the three functions.
unfoldable pub show : Show → Times → Rates → Rates × Bool
unfolding show_sa show_toast
show sa t s = show_sa t s
show toast t s = show_toast t s

-- The times at which a sequence of calls shows something.
unfoldable pub shown : List (Show × Times) → Rates → List ℕ
unfolding show
shown [] s = []
shown ((what, t) ∷ calls) s =
    let r = show what t s in let rest = shown calls r.0 in if r.1 then t.setting ∷ rest else rest
