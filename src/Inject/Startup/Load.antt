-- ===== src/Inject/Startup/Load.antt =====
-- `JNI_OnLoad` of inject_dobby.cpp with a dictionary file and a loaded game.
use unity_game_localization.Prelude.{
  ℕ, ◌+◌, ◌-◌, ◌^◌, ◌≤◌, ◌<◌, ◌≡◌, ◌≢◌, refl, ap, ◌∙◌, leb, ==_of_eq, ==_of_ne, true, false, List,
  [], ◌∷◌, ◌++◌, none, some, arith, length, take-all,
}
use unity_game_localization.Prelude.Bits.{u32}
use unity_game_localization.Run.{ok}
use unity_game_localization.Tools.Hex.{find_module_by_name}
use unity_game_localization.Tools.Hex.Laws.{
  digits, Plain, Plain-digits, length-digits, strtol16-digits,
}
use unity_game_localization.Localize.Dictionary.{lines}
use unity_game_localization.Localize.Dictionary.Format.{
  joined, render, render-joined, AllLines, NoBar, lines-render, split_line-bar,
}
use unity_game_localization.Inject.Startup.{
  System, Replacement, at_get, at_set, App, lib_name, read_file, init_address_from_file,
  hook_get_set, jni_on_load,
}
use unity_game_localization.Inject.Startup.Methods.{hook_get_set-both}

NoBar-Plain : (s : List ℕ) → Plain s → NoBar s
NoBar-Plain [] p = tt
NoBar-Plain (b ∷ s) p = (omega (arith, p.1), NoBar-Plain s p.3)

-- A file's first line, with two addresses in hexadecimal.
abbrev pub address_line : (w a b : ℕ) → List ℕ
address_line w a b = digits w a ++ b'|' ∷ digits w b

module _ {Code : Type 0} (sys : System) (dobby_hook : ℕ → Replacement → Code → Code)
    (app : App Code) (name : List ℕ) (file_lines : List (List ℕ))
    (named : (sys.package_name ≡ some name) × (length name < 170))
    (file : app.file ≡ some (joined file_lines))
    (delivered : length (joined file_lines) ≤ sys.readable) where
  -- The globals behind `readFile`.
  abbrev pub loaded : App Code
  loaded = record app {
    file_size = length (joined file_lines);
    buffer = render file_lines;
    file = none;
  }

  read_file-loaded : read_file sys app ≡ ok (loaded, true)
  unfolding read_file
  read_file-loaded =
      let e₁ : leb 200 (30 + length name) ≡ false = let h = named.1 in ground arith in
      let e₂ : length (joined file_lines) + 4 - length (joined file_lines) ≡ 4 = omega arith in
      rw (named.0, read_file)
        (rw (e₁, file, read_file)
          (rw (take-all (joined file_lines) sys.readable delivered)
            (rw (==_of_eq (length (joined file_lines)) _ refl, e₂, render-joined file_lines) refl)))

  module _ (w a b base : ℕ) (more : List (List ℕ)) (starts : file_lines ≡ address_line w a b ∷ more)
      (well_formed : AllLines file_lines) (short : w < 50)
      (written : (a < 16 ^ w) × (b < 16 ^ w) × (a < 2 ^ 31) × (b < 2 ^ 31))
      (there : find_module_by_name sys.maps lib_name ≡ ok base) (set : (a ≢ 0) × (b ≢ 0)) where
    init_address_from_file-loaded :
        (app' : App Code)
        → lines app'.buffer ≡ address_line w a b ∷ more
        → init_address_from_file app' ≡ ok (record app' { address_get = a; address_set = b })
    unfolding init_address_from_file
    init_address_from_file-loaded app' e =
        let sides =
          split_line-bar 50 (digits w a) (digits w b) (NoBar-Plain (digits w a) (Plain-digits w a))
            (omega (arith, length-digits w a)) (omega (arith, length-digits w b)) in
        rw (e, init_address_from_file)
          (rw
            (
              sides,
              strtol16-digits w a written.0 written.2,
              strtol16-digits w b written.1 written.3,
            )
            refl)

    abbrev found : App Code
    found = record loaded { address_get = a; address_set = b; libil2cpp_base = base }

    -- Let the package name be known and have fewer than 170 bytes; let the dictionary file be
    -- delivered as a whole, consist of lines that are not empty and hold no NUL, CR or LF, and
    -- begin with a line `a|b` of two hexadecimal numbers of the same number of digits, fewer than
    -- 50, other than 0 and below 2 ^ 31; and let the game's library be found at `base`, which is
    -- not 0. Then `JNI_OnLoad` hooks the get function at `base + a` and then the set function at
    -- `base + b`, as 32-bit addresses, and nothing else, removes the file, and leaves its lines in
    -- the buffer.
    pub jni_on_load-hooks :
        base ≢ 0
        → (app' : App Code) × (jni_on_load sys dobby_hook app ≡ ok app')
          × (app'.code
              ≡ dobby_hook (u32 (base + b)) at_set (dobby_hook (u32 (base + a)) at_get app.code))
          × (app'.file ≡ none)
          × (lines app'.buffer ≡ file_lines)
    unfolding jni_on_load
    jni_on_load-hooks based =
        let e =
          hook_get_set-both sys dobby_hook found (u32 (base + a)) (u32 (base + b)) (omega arith) set
            (refl, refl) in
        (
          hook_get_set sys dobby_hook found,
          rw (read_file-loaded, jni_on_load)
              (rw
                (
                  init_address_from_file-loaded loaded
                      (lines-render file_lines well_formed ∙ starts),
                  jni_on_load,
                )
                (rw (there, jni_on_load)
                  (rw (==_of_ne base 0 based) (rw (==_of_ne a 0 set.0) refl)))),
          ap (λ (x : App Code). x.code) e,
          ap (λ (x : App Code). x.file) e,
          ap (λ (x : App Code). lines x.buffer) e ∙ lines-render file_lines well_formed,
        )
