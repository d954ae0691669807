-- ===== src/Inject/Experiment.antt =====
-- The experiments inject_test.cpp and inject_test_dobby.cpp: hooks at fixed offsets of a game's
-- library. They have the same text but for the offsets, the name that `dlopen` is watched for, and
-- the way that functions are hooked.
pub mod Dobby
mod Tests
use unity_game_localization.Prelude.{
  ℕ, ◌+◌, ◌^◌, ◌==◌, ◌&&◌, not, if◌then◌else◌, Bool, true, false, List, [], ◌∷◌, Option, some,
}
use unity_game_localization.Prelude.Bits.{u32}
use unity_game_localization.Run.{Run, ok, ◌>>=◌}
use unity_game_localization.Tools.Hex.{contains, find_module_by_name}
use unity_game_localization.Tools.Rate.{Times, Rates, show_sa}
use unity_game_localization.InlineHook.World.{World}
use unity_game_localization.InlineHook.Operations.{
  Region, register_inline_hook, inline_hook, inline_hook_all,
}
use unity_game_localization.Inject.Startup.{lib_name, libil2cpp}

-- The functions that hooks lead to.
pub data Entry : Type 0 where
  at_dlopen at_y_6 at_y_5 at_y_4 at_y_3 at_y_2 at_y_1 : Entry

-- The globals, and the code that hooks change.
pub record Bench (Code : Type 0) : Type 0 where
  pub func_dlopen : ℕ
  pub func_dlsym : ℕ
  pub func_y_6 : ℕ
  pub func_y_5 : ℕ
  pub func_y_4 : ℕ
  pub func_y_3 : ℕ
  pub func_y_2 : ℕ
  pub func_y_1 : ℕ
  pub base : ℕ
  pub code : Code

-- What the linker and the kernel answer.
pub record Host : Type 0 where
  pub maps : List (List ℕ)
  pub dlopen : ℕ
  pub dlsym : ℕ
  pub regions : List Region
  pub page : (target_addr : ℕ) → ℕ
  pub new_func : Entry → ℕ
  pub old_func : Entry → ℕ
  pub forks : Bool

-- The name of the library that both look for at first.
abbrev pub kjihgf : List ℕ
kjihgf = b'K' ∷ b'J' ∷ b'I' ∷ b'H' ∷ b'G' ∷ b'F' ∷ []

abbrev pub lib_kjihgf : List ℕ
lib_kjihgf = b'l' ∷ b'i' ∷ b'b' ∷ kjihgf

-- The start of both: `dlopen` is noted, and the library is looked for.
unfoldable pub note_dlopen : {Code : Type 0} → Host → Bench Code → Bench Code
note_dlopen host b = record b { func_dlopen = host.dlopen; func_dlsym = host.dlsym }

-- What a replacement of a game's function returns: a text of its own, or what the old function
-- returns.
pub data Answer : Type 0 where
  own_text call_old : Answer

-- inject_test.cpp, on top of inlineHook.c.
module _ (host : Host) where
  -- One of the six blocks: an offset of 0 stands for no function.
  unfoldable pub register_y : (func : ℕ) → Entry → Bench World → Run (Bench World)
  register_y func to b =
      let registered =
        register_inline_hook host.regions (host.page func) func (host.new_func to)
          (some (host.old_func to)) b.code
        >>= (λ r. ok (record b { code = r.1 })) in
      if func == b.base then ok b else registered

  unfoldable pub hook : Bench World → Run (Bench World)
  unfolding register_y
  hook b =
      let b = record b {
        func_y_6 = u32 (b.base + 0x3794);
        func_y_5 = u32 (b.base + 0x0);
        func_y_4 = u32 (b.base + 0x0);
        func_y_3 = u32 (b.base + 0x0);
        func_y_2 = u32 (b.base + 0x0);
        func_y_1 = u32 (b.base + 0x0);
      } in
      do
        b ← register_y b.func_y_6 at_y_6 b
        b ← register_y b.func_y_5 at_y_5 b
        b ← register_y b.func_y_4 at_y_4 b
        b ← register_y b.func_y_3 at_y_3 b
        b ← register_y b.func_y_2 at_y_2 b
        b ← register_y b.func_y_1 at_y_1 b
        ok (record b { code = inline_hook_all host.forks b.code })

  unfoldable pub jni_on_load : Bench World → Run (Bench World)
  unfolding hook note_dlopen
  jni_on_load b =
      let b = note_dlopen host b in
      do
        (registered, w) ←
            register_inline_hook host.regions (host.page b.func_dlopen) b.func_dlopen
              (host.new_func at_dlopen) (some (host.old_func at_dlopen)) b.code
        base ← find_module_by_name host.maps lib_kjihgf
        let b = record b { code = w; base = base }
        elim (base == 0) [
          | false ↦ hook b
          | true ↦ do
            (hooked, w) ← inline_hook host.forks b.func_dlopen b.code
            ok (record b { code = w })
        ]

  -- The library that is looked for here is `lib_name` of tools.cpp, not the one that was loaded.
  unfoldable pub new_func_dlopen :
      (filename : List ℕ) (caller_addr : ℕ) → Bench World → Run (Bench World)
  unfolding hook
  new_func_dlopen filename caller_addr b =
      let found =
        find_module_by_name host.maps lib_name >>= (λ base. hook (record b { base = base })) in
      if contains kjihgf filename && not (caller_addr == 0) then found else ok b

-- The replacements in inject_test.cpp; they show something before they call the old function.
unfoldable pub new_func_y : Entry → Times → Rates → Rates × Answer
unfolding show_sa
new_func_y at_y_6 t s = (s, own_text)
new_func_y at_y_4 t s = ((show_sa t s).0, call_old)
new_func_y at_y_2 t s = ((show_sa t s).0, call_old)
new_func_y at_y_1 t s = ((show_sa t s).0, call_old)
new_func_y _ t s = (s, call_old)
