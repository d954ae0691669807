-- ===== src/Inject/Startup.antt =====
-- inject_dobby.cpp from `JNI_OnLoad` to `new_func_dlopen`, and `new_func_get_methods`. The
-- functions of the system and of Dobby are parameters: `System` holds what the system answers,
-- and `dobby_hook` is what `DobbyHook` does to the process's code. Debug output and the junk
-- macros are left out.
pub mod Load
pub mod Methods
use unity_game_localization.Prelude.{
  ℕ, zero, suc, ◌+◌, ◌-◌, ◌*◌, ◌/◌, ◌%◌, ◌^◌, ◌==◌, ltb, leb, ◌&&◌, not, if◌then◌else◌, Bool, true,
  false, List, [], ◌∷◌, ◌++◌, Option, none, some, length, take, replicate,
}
use unity_game_localization.Prelude.Bits.{u32}
use unity_game_localization.Run.{Run, ok, fault, null_pointer, overflow, ◌>>=◌}
use unity_game_localization.Tools.Hex.{strtol16, contains, find_module_by_name}
use unity_game_localization.Localize.Dictionary.{lines, split_line}

pub record System : Type 0 where
  -- the result of `getPackageName`, which is NULL without an application
  pub package_name : Option (List ℕ)
  -- how many bytes of the file `fread` delivers at most
  pub readable : ℕ
  -- the lines of `/proc/self/maps`
  pub maps : List (List ℕ)
  pub dlopen : ℕ
  pub dlsym : ℕ
  -- `dlsym(handle, "il2cpp_class_get_methods")`, or NULL
  pub class_get_methods : (handle : ℕ) → Option ℕ
  -- the 32-bit word at an address
  pub load : ℕ → ℕ

-- The functions that hooks lead to.
pub data Replacement : Type 0 where
  at_dlopen at_get at_set at_get_methods : Replacement

-- The globals, the file in the cache directory, and the code that hooks change.
pub record App (Code : Type 0) : Type 0 where
  pub func_dlopen : ℕ
  pub func_dlsym : ℕ
  pub func_set : ℕ
  pub func_get : ℕ
  pub address_get : ℕ
  pub address_set : ℕ
  pub buffer : List ℕ
  pub file_size : ℕ
  pub libil2cpp_base : ℕ
  pub libil2cpp_handle : ℕ
  pub is_got_get_and_set : Bool
  pub file : Option (List ℕ)
  pub code : Code

-- `lib_name` of tools.cpp.
abbrev pub lib_name : List ℕ
lib_name = b'l' ∷ b'i' ∷ b'b' ∷ b'i' ∷ b'l' ∷ b'2' ∷ b'c' ∷ b'p' ∷ b'p' ∷ b'.' ∷ b's' ∷ b'o' ∷ []

-- What `new_func_dlopen` looks for in a file name.
abbrev pub libil2cpp : List ℕ
libil2cpp = b'l' ∷ b'i' ∷ b'b' ∷ b'i' ∷ b'l' ∷ b'2' ∷ b'c' ∷ b'p' ∷ b'p' ∷ []

-- A method of a class as il2cpp hands it out: its code, its name, and the namespace of its class.
pub record Method : Type 0 where
  pub pointer : ℕ
  pub name : List ℕ
  pub namespace : List ℕ

abbrev pub unity_ui : List ℕ
unity_ui =
    b'U' ∷ b'n' ∷ b'i' ∷ b't' ∷ b'y' ∷ b'E' ∷ b'n' ∷ b'g' ∷ b'i' ∷ b'n' ∷ b'e' ∷ b'.' ∷ b'U' ∷ b'I'
    ∷ []

abbrev pub get_text : List ℕ
get_text = b'g' ∷ b'e' ∷ b't' ∷ b'_' ∷ b't' ∷ b'e' ∷ b'x' ∷ b't' ∷ []

abbrev pub set_text : List ℕ
set_text = b's' ∷ b'e' ∷ b't' ∷ b'_' ∷ b't' ∷ b'e' ∷ b'x' ∷ b't' ∷ []

-- `strcmp(s, t) == 0`.
unfoldable pub strcmp_equal : List ℕ → List ℕ → Bool
strcmp_equal [] [] = true
strcmp_equal (a ∷ s) (b ∷ t) = (a == b) && strcmp_equal s t
strcmp_equal _ _ = false

-- The target of the branch `instruction` at `address`: `(instruction << 8 >> 8) * 4 + 8 + address`.
unfoldable pub branch_target : (address instruction : ℕ) → ℕ
branch_target address instruction =
    let imm = instruction % 2 ^ 24 in
    let signed = if leb (2 ^ 23) imm then imm + (2 ^ 32 - 2 ^ 24) else imm in
    u32 (signed * 4 + 8 + address)

-- The addresses with those of this method, if it is one of the two.
unfoldable pub note_address : {Code : Type 0} → Method → App Code → App Code
note_address ret app = record app {
  address_get = if strcmp_equal get_text ret.name then ret.pointer else app.address_get;
  address_set = if strcmp_equal set_text ret.name then ret.pointer else app.address_set;
}

module _ {Code : Type 0} where
  -- The flag is false where the source returns -1. The path is written into 200 bytes. `malloc`
  -- is taken to succeed; its result is used before it is compared with NULL.
  unfoldable pub read_file : System → App Code → Run (App Code × Bool)
  read_file sys app = elim sys.package_name [
    | none ↦ fault null_pointer
    | some name ↦ if leb 200 (30 + length name) then fault overflow else elim app.file [
      | none ↦ ok (app, false)
      | some content ↦
          let got = take sys.readable content in
          let app' = record app {
            file_size = length content;
            buffer = got ++ replicate (length content + 4 - length got) 0;
          } in
          if length got == length content
          then ok (record app' { file = none }, true)
          else ok (app', false)
    ]
  ]

  -- The loop ends behind the first line.
  unfoldable pub init_address_from_file : App Code → Run (App Code)
  unfolding split_line strtol16 lines
  init_address_from_file app = elim (lines app.buffer) [
    | [] ↦ ok app
    | p ∷ ps ↦ do
      (left, right) ← split_line 50 p
      ok (record app { address_get = strtol16 left; address_set = strtol16 right })
  ]

module _ {Code : Type 0} (sys : System) (dobby_hook : (addr : ℕ) → Replacement → Code → Code) where
  unfoldable pub hook_dlopen : App Code → App Code
  hook_dlopen app = record app {
    func_dlopen = sys.dlopen;
    func_dlsym = sys.dlsym;
    code = dobby_hook sys.dlopen at_dlopen app.code;
  }

  hook_get : App Code → App Code
  hook_get app =
      let func = u32 (app.libil2cpp_base + app.address_get) in
      if app.address_get == 0
      then app
      else record app { func_get = func; code = dobby_hook func at_get app.code }

  hook_set : App Code → App Code
  hook_set app =
      let func = u32 (app.libil2cpp_base + app.address_set) in
      if app.address_set == 0
      then app
      else record app { func_set = func; code = dobby_hook func at_set app.code }

  unfoldable pub hook_get_set : App Code → App Code
  unfolding hook_get hook_set
  hook_get_set app = if app.libil2cpp_base == 0 then app else hook_set (hook_get app)

  -- The function's first instruction is a branch to the one that is hooked.
  unfoldable pub hook_get_methods : App Code → Run (App Code)
  hook_get_methods app = elim (sys.class_get_methods app.libil2cpp_handle) [
    | none ↦ fault null_pointer
    | some func ↦ ok (record app {
      code = dobby_hook (branch_target func (sys.load func)) at_get_methods app.code;
    })
  ]

  -- What follows when the library is found: the hooks at the addresses that the file names, or
  -- the hook that looks for them.
  unfoldable pub hook_library : App Code → Run (App Code)
  unfolding hook_get_methods hook_get_set
  hook_library app =
      if (app.address_get == 0) && (app.address_set == 0)
      then hook_get_methods app
      else ok (hook_get_set app)

  unfoldable pub jni_on_load : App Code → Run (App Code)
  unfolding read_file init_address_from_file hook_dlopen hook_library
  jni_on_load app = do
    (app, found) ← read_file sys app
    elim found [
      | false ↦ ok app
      | true ↦ do
        app ← init_address_from_file app
        base ← find_module_by_name sys.maps lib_name
        let app = record app { libil2cpp_base = base }
        if base == 0 then ok (hook_dlopen app) else hook_library app
    ]

  -- `ret` is what the first call of the old function returned. The hook returns what a second
  -- call returns.
  unfoldable pub new_func_dlopen :
      (filename : List ℕ) (caller_addr ret : ℕ) → App Code → Run (App Code)
  unfolding hook_library
  new_func_dlopen filename caller_addr ret app =
      let found =
        find_module_by_name sys.maps lib_name
        >>= (λ base. hook_library (record app { libil2cpp_handle = ret; libil2cpp_base = base })) in
      if contains libil2cpp filename && not (caller_addr == 0) then found else ok app

  -- `ret` is what the old function returned, `none` for NULL; the hook returns it too.
  unfoldable pub new_func_get_methods : (ret : Option Method) → App Code → App Code
  unfolding note_address hook_get_set
  new_func_get_methods none app = app
  new_func_get_methods (some ret) app =
      let noted = note_address ret app in
      let offsets = record noted {
        address_get = u32 (noted.address_get + 2 ^ 32 - noted.libil2cpp_base);
        address_set = u32 (noted.address_set + 2 ^ 32 - noted.libil2cpp_base);
      } in
      if strcmp_equal ret.namespace unity_ui
      then (if not (noted.address_get == 0)
            && not (noted.address_set == 0)
            && not noted.is_got_get_and_set
          then record (hook_get_set offsets) { is_got_get_and_set = true }
          else noted)
      else app
