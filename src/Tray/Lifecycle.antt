-- ===== src/Tray/Lifecycle.antt =====
-- The start and the end of lib/shell/tray.c: the tray window with its class and data, and the hook
-- into the tray of another shell. What Windows answers is given.
use cereja.Prelude.{◌≡◌, Bool, true, false, not, ◌||◌, Option, none, some, if◌then◌else◌, arith}

-- `s_TrayData`, the window's class, `s_TrayWindow` and `s_HookDLLModule`, as far as they are there;
-- `has_hook` is whether the hook that the library installs is there, `another_shell` is
-- `s_AnotherShellRunP`.
pub record Extension : Type 0 where
  pub another_shell : Bool
  pub has_data : Bool
  pub has_class : Bool
  pub has_window : Bool
  pub has_module : Bool
  pub has_hook : Bool

pub data Failure : Type 0 where
  register_class create_window : Failure
  tray_window_not_found hook_dll_not_found hook_dll_not_loaded : Failure
  hook_dll_invalid failed_to_hook failed_to_unhook : Failure

-- The results of the calls, in the order in which they are made.
pub record Answers : Type 0 where
  pub registers_class : Bool
  pub creates_window : Bool
  pub finds_tray_window : Bool
  pub runs_script : Bool
  pub finds_path : Bool
  pub loads_library : Bool
  pub has_start_hook : Bool
  pub has_end_hook : Bool
  pub starts_hook : Bool
  pub ends_hook : Bool

pub hook_start : Answers → Extension → Extension × Option Failure
hook_start a s =
    let loaded : Extension = record s { has_module = true } in
    let freed : Extension = record loaded { has_module = false } in
    if not a.finds_tray_window
    then (s, some tray_window_not_found)
    else if not a.runs_script
    then (s, some hook_dll_not_found)
    else if not a.finds_path
    then (s, some hook_dll_not_found)
    else if not a.loads_library
    then (record s { has_module = false }, some hook_dll_not_loaded)
    else if not a.has_start_hook || not a.has_end_hook
    then (freed, some hook_dll_invalid)
    else if not a.starts_hook
    then (freed, some failed_to_hook)
    else (record loaded { has_hook = true }, none)

pub hook_end : Answers → Extension → Extension × Option Failure
hook_end a s =
    let freed : Extension = record s { has_module = false } in
    if a.has_end_hook
    then (if a.ends_hook
        then (record freed { has_hook = false }, none)
        else (freed, some failed_to_unhook))
    else (freed, some hook_dll_invalid)

-- The last part of create_tray_window, from the start of the hook on.
pub create_hook : Answers → Extension → Extension × Option Failure
unfolding hook_start
create_hook a s =
    if s.another_shell
    then (let started = hook_start a s in
        elim started.1 [
          | none ↦ (started.0, none)
          | some e ↦ (
            record (started.0) { has_window = false; has_class = false; has_data = false },
            some e,
          )
        ])
    else (s, none)

unfoldable pub create_tray_window : Answers → Extension → Extension × Option Failure
unfolding create_hook
create_tray_window a s =
    let data_made : Extension = record s { has_data = true } in
    let class_made : Extension = record data_made { has_class = true } in
    if not a.registers_class
    then (record data_made { has_data = false }, some register_class)
    else if not a.creates_window
    then (
      record class_made { has_window = false; has_class = false; has_data = false },
      some create_window,
    )
    else create_hook a (record class_made { has_window = true })

unfoldable pub destroy_tray_window : Answers → Extension → Extension × Option Failure
unfolding hook_end
destroy_tray_window a s =
    let ended = if s.another_shell then hook_end a s else (s, none) in
    (record (ended.0) { has_window = false; has_class = false; has_data = false }, ended.1)

-- Nothing is there.
abbrev pub released : Bool → Extension
released another_shell = record {
  another_shell = another_shell;
  has_data = false;
  has_class = false;
  has_window = false;
  has_module = false;
  has_hook = false;
}

abbrev pub is_failure : Option Failure → Bool
is_failure none = false
is_failure (some e) = true

module _ (a : Answers) (another_shell : Bool) where
  -- From a state in which nothing is there, a start of the tray that fails, at any of its calls,
  -- leaves nothing behind.
  pub create_tray_window-releases :
      (e : Failure)
      → (create_tray_window a (released another_shell)).1 ≡ some e
      → (create_tray_window a (released another_shell)).0 ≡ released another_shell
  unfolding create_tray_window
  create_tray_window-releases e h = ground arith
