-- ===== src/Inject/Inline/Load.antt =====
-- `JNI_OnLoad` of inject_inlinehook.cpp: which of its ways a start takes.
use unity_game_localization.Prelude.{zero, suc, ◌<◌, eq_of_==}
use unity_game_localization.Tools.Hex.{strtol16}
use unity_game_localization.Prelude.{
  ℕ, ◌+◌, ◌≤◌, ◌≡◌, ◌≢◌, refl, sym, subst, ◌⊎◌, inl, inr, true, List, [], ◌∷◌, leb, Option, none,
  some, arith, length, take, Bool-cases, Option-cases, ne_of_==, ap, ◌==◌, ◌-◌, ◌++◌, replicate,
}
use unity_game_localization.Run.{Run, Run-cases, Fault, ok, fault, null_pointer, overflow, ◌>>=◌}
use unity_game_localization.InlineHook.World.{World}
use unity_game_localization.InlineHook.Operations.Absent.{CanGrow}
use unity_game_localization.Localize.Dictionary.{lines, split_line}
use unity_game_localization.Inject.Startup.{
  System, App, at_dlopen, read_file, init_address_from_file,
}
use unity_game_localization.Inject.Inline.{Engine, hook_dlopen, jni_on_load}
use unity_game_localization.Inject.Inline.Install.{hook_at-IsInstalled}
use unity_game_localization.Inject.Inline.Outcome.{IsInstalled}
use unity_game_localization.Inject.Inline.Hooks.{IsHookable}

List-cases :
    (xs : List (List ℕ)) → (xs ≡ []) ⊎ ((p : List ℕ) × (ps : List (List ℕ)) × (xs ≡ p ∷ ps))
List-cases [] = inl refl
List-cases (p ∷ ps) = inr (p, ps, refl)

take-whole : (n : ℕ) (xs : List ℕ) → length (take n xs) ≡ length xs → take n xs ≡ xs
take-whole zero [] h = refl
take-whole zero (x ∷ xs) h = absurd (omega arith)
take-whole (suc n) [] h = refl
take-whole (suc n) (x ∷ xs) h = ap (λ ys. x ∷ ys) (take-whole n xs (omega arith))

-- The addresses that a start notes: those of the first line of the buffer, if it has a line.
pub data Notes (address_get address_set : ℕ) (app' : App World) : Type 0 where
  no_line :
      lines app'.buffer ≡ []
      → app'.address_get ≡ address_get
      → app'.address_set ≡ address_set
      → Notes address_get address_set app'
  first_line :
      (p : List ℕ) (ps : List (List ℕ)) (left right : List ℕ)
      → lines app'.buffer ≡ p ∷ ps
      → split_line 50 p ≡ ok (left, right)
      → app'.address_get ≡ strtol16 left
      → app'.address_set ≡ strtol16 right
      → Notes address_get address_set app'

-- The globals when the file is read as a whole and removed.
abbrev pub file_read : List ℕ → App World → App World
file_read content app = record app {
  file_size = length content;
  buffer = content ++ replicate 4 0;
  file = none;
}

-- What reading the addresses out of the buffer comes to.
init_address_from_file-cases :
    (app : App World)
    → ((app' : App World) × (init_address_from_file app ≡ ok app')
        × (app' ≡ record app { address_get = app'.address_get; address_set = app'.address_set })
        × Notes app.address_get app.address_set app')
      ⊎ ((p : List ℕ) × (ps : List (List ℕ)) × (e : Fault) × (lines app.buffer ≡ p ∷ ps)
          × (split_line 50 p ≡ fault e)
          × (init_address_from_file app ≡ fault e))
unfolding init_address_from_file
init_address_from_file-cases app = elim (List-cases (lines app.buffer)) [
  | inl e ↦ inl (app, rw (e, init_address_from_file) refl, refl, no_line e refl refl)
  | inr (p, ps, e) ↦ elim (Run-cases (split_line 50 p)) [
    | inl ((left, right), s) ↦ inl (
      record app { address_get = strtol16 left; address_set = strtol16 right },
      rw (e, init_address_from_file) (rw (s, ◌>>=◌) refl),
      refl,
      first_line p ps left right e s refl refl,
    )
    | inr (f, s) ↦ inr (p, ps, f, e, s, rw (e, init_address_from_file) (rw (s, ◌>>=◌) refl))
  ]
]

-- What a start with a whole file leaves: its bytes with four NULs in the buffer, no file, the
-- addresses of its first line, the functions that the hook of `dlopen` calls, and that hook.
pub record IsStarted (sys : System) (env : Engine) (content : List ℕ) (app app' : App World)
    : Type 0 where
  pub notes : Notes app.address_get app.address_set app'
  pub installed :
      IsInstalled sys.dlopen
        (env.new_func at_dlopen)
        (env.page sys.dlopen)
        (env.old_func at_dlopen)
        app.code
        app'.code
  -- nothing else changes
  pub globals : app' ≡ record app {
    func_dlopen = sys.dlopen;
    func_dlsym = sys.dlsym;
    address_get = app'.address_get;
    address_set = app'.address_set;
    buffer = content ++ replicate 4 0;
    file_size = length content;
    file = none;
    code = app'.code;
  }

-- The package name is known, and the path fits into its buffer.
abbrev pub IsNamed : System → Type 0
IsNamed sys = (name : List ℕ) × (sys.package_name ≡ some name) × (30 + length name < 200)

-- The ways a start takes, with what decides between them.
pub data Starts (sys : System) (env : Engine) (app : App World) : Run (App World) → Type 0 where
  nameless : sys.package_name ≡ none → Starts sys env app (fault null_pointer)
  overlong :
      (name : List ℕ)
      → sys.package_name ≡ some name
      → 200 ≤ 30 + length name
      → Starts sys env app (fault overflow)
  missing : IsNamed sys → app.file ≡ none → Starts sys env app (ok app)
  cut :
      (content : List ℕ) (app' : App World)
      → IsNamed sys
      → app.file ≡ some content
      → length (take sys.readable content) ≢ length content
      → app'.file ≡ app.file
      → app'.code ≡ app.code
      → Starts sys env app (ok app')
  malformed :
      (content p : List ℕ) (ps : List (List ℕ)) (e : Fault)
      → IsNamed sys
      → app.file ≡ some content
      → take sys.readable content ≡ content
      → lines (content ++ replicate 4 0) ≡ p ∷ ps
      → split_line 50 p ≡ fault e
      → Starts sys env app (fault e)
  hooks :
      (content : List ℕ) (app' : App World)
      → IsNamed sys
      → app.file ≡ some content
      → take sys.readable content ≡ content
      → IsStarted sys env content app app'
      → Starts sys env app (ok app')

module _ (sys : System) (env : Engine) (app : App World) (g : CanGrow 1 app.code)
    (h : IsHookable env sys.dlopen at_dlopen app.code) where
  abbrev call : Run (App World)
  call = jni_on_load sys env app

  by_run : (r : Run (App World)) → call ≡ r → Starts sys env app r → Starts sys env app call
  by_run r e s = subst (Starts sys env app) (sym e) s

  -- The hook of `dlopen` keeps the noted addresses.
  hooked-Notes :
      (get set : ℕ) (app₂ : App World) {w' : World}
      → Notes get set app₂
      → Notes get set (record app₂ { func_dlopen = sys.dlopen; func_dlsym = sys.dlsym; code = w' })
  hooked-Notes get set app₂ (no_line a b c) = no_line a b c
  hooked-Notes get set app₂ (first_line p ps l r a b c d) = first_line p ps l r a b c d

  -- With a file that is read as a whole.
  with_file :
      (content : List ℕ)
      → IsNamed sys
      → app.file ≡ some content
      → take sys.readable content ≡ content
      → read_file sys app ≡ ok (file_read content app, true)
      → Starts sys env app call
  unfolding jni_on_load hook_dlopen
  with_file content named there whole e =
      let app₁ = file_read content app in
      elim (init_address_from_file-cases app₁) [
        | inr (p, ps, f, starts, splits, broken) ↦
            by_run (fault f) (rw (e, jni_on_load) (rw (broken, ◌>>=◌) refl))
              (malformed content p ps f named there whole starts splits)
        | inl (app₂, done, same, notes) ↦
            let code : app₂.code ≡ app.code = ap (λ (x : App World). x.code) same in
            let (w', hooked, g', d) =
              hook_at-IsInstalled env sys.dlopen at_dlopen app.code 0 h.reachable h.replaceable g
                h.absent in
            let app' = record app₂ {
              func_dlopen = sys.dlopen;
              func_dlsym = sys.dlsym;
              code = w';
            } in
            by_run (ok app')
              (rw (e, jni_on_load) (rw (done, ◌>>=◌) (rw code (rw (hooked, ◌>>=◌) refl))))
              (hooks content app' named there whole (record {
                notes = hooked-Notes _ _ app₂ notes;
                installed = d;
                globals =
                    ap
                      (λ (x : App World). record x {
                        func_dlopen = sys.dlopen;
                        func_dlsym = sys.dlsym;
                        code = w';
                      })
                      same;
              }))
      ]

  -- The globals with what is delivered of the file, and zeros behind it.
  abbrev buffered : List ℕ → App World
  buffered content = record app {
    file_size = length content;
    buffer =
        take sys.readable content
        ++ replicate (length content + 4 - length (take sys.readable content)) 0;
  }

  -- Let `dlopen` and its replacement be executable, no used item have `dlopen`, and the table be
  -- well formed with room for it, as for `hook_at-IsInstalled`. `JNI_OnLoad` of
  -- inject_inlinehook.cpp then goes one of six ways: without a package name a NULL pointer is read;
  -- a package name of 170 bytes or more overruns the path; without a dictionary file nothing
  -- changes; a file that is not delivered as a whole is kept, and the code does not change; a file
  -- that is delivered as a whole and whose first line does not split into two sides faults as the
  -- split does; and otherwise the start comes back, and of the globals these change: the buffer
  -- holds the file and four NULs, the file is removed, its size is noted, the two addresses are the
  -- hexadecimal numbers on both sides of the first line's bar, or as before if there is no line,
  -- `dlopen` and `dlsym` are noted, and `dlopen` is hooked, as `hook_at-IsInstalled` states.
  pub jni_on_load-Starts : Starts sys env app (jni_on_load sys env app)
  unfolding jni_on_load read_file
  jni_on_load-Starts = elim (Option-cases sys.package_name) [
    | inl e ↦ by_run (fault null_pointer) (rw (e, read_file) refl) (nameless e)
    | inr (name, e) ↦ elim (Bool-cases (leb 200 (30 + length name))) [
      | inl long ↦
          by_run (fault overflow) (rw (e, read_file) (rw (long, read_file) refl))
            (overlong name e (ground arith))
      | inr short ↦
          let named : IsNamed sys = (name, e, ground arith) in
          elim (Option-cases app.file) [
            | inl no_file ↦
                by_run (ok app) (rw (e, read_file) (rw (short, read_file) (simp (no_file) refl)))
                  (missing named no_file)
            | inr (content, there) ↦
                elim (Bool-cases (length (take sys.readable content) == length content)) [
                  | inl same ↦
                      let whole = take-whole sys.readable content (eq_of_== _ _ same) in
                      let four : length content + 4 - length content ≡ 4 = omega arith in
                      with_file content named there whole (
                        rw (e, read_file)
                          (rw (short, there, read_file) (rw same (rw (whole, four) refl))))
                  | inr part ↦
                      by_run (ok (buffered content))
                        (rw (e, read_file)
                          (rw (short, there, read_file)
                            (rw (part, ◌>>=◌)
                              (ap
                                (λ (f : Option (List ℕ)).
                                  ok (record (buffered content) { file = f }))
                                there))))
                        (cut content (buffered content) named there (ne_of_== _ _ part) refl refl)
                ]
          ]
    ]
  ]
