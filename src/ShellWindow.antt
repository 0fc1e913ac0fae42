-- ===== src/ShellWindow.antt =====
-- lib/shell/window.c: the window that tells shell.window of the windows of other programs and of the power,
-- with its start and end. What Windows answers is given.
pub mod Publishes
pub mod Lifecycle
use cereja.Prelude.{
  ℕ, Bool, true, false, not, ◌||◌, Option, none, some, ◌>>=◌, List, [], ◌∷◌, bit_and, ◌==◌,
  if◌then◌else◌,
}

-- HSHELL_WINDOWCREATED, HSHELL_WINDOWDESTROYED, HSHELL_WINDOWACTIVATED and HSHELL_REDRAW.
abbrev pub names_window : (shell_event : ℕ) → Bool
names_window e = e == 1 || e == 2 || e == 4 || e == 6

abbrev pub hshell_getminrect : ℕ
hshell_getminrect = 5

-- The values PBT_APM of the switch, which are those of Windows but for PBT_APMQUERYSUSPENDFAILED.
abbrev pub is_power_event : ℕ → Bool
is_power_event wp =
    wp == 0
    || wp == 1
    || wp == 3
    || wp == 4
    || wp == 5
    || wp == 6
    || wp == 7
    || wp == 8
    || wp == 10
    || wp == 18

abbrev pub wm_powerbroadcast : ℕ
wm_powerbroadcast = 0x218

-- A message to the window, by the cases of its procedure. `lp` is a handle, or the address of a structure.
pub data WindowMessage : Type 0 where
  create : WindowMessage
  power_broadcast : (wp : ℕ) → WindowMessage
  other : (msg wp lp : ℕ) → WindowMessage

pub record Published : Type 0 where
  pub msg : ℕ
  pub event : ℕ
  pub window : ℕ

-- `publish`, with the static variable L of the window's procedure: a call with NULL is undefined.
pub publish : (has_lua : Bool) → Published → Option (List Published)
publish has_lua p = if has_lua then some (p ∷ []) else none

-- The `hwnd` of a SHELLHOOKINFO at an address.
pub record Memory : Type 0 where
  pub window_at : (address : ℕ) → Option ℕ

-- The inner switch on `shell_event`.
pub on_shell_event : Memory → (has_lua : Bool) → (msg shell_event lp : ℕ) → Option (List Published)
unfolding publish
on_shell_event memory has_lua msg shell_event lp =
    if names_window shell_event
    then publish has_lua (record { msg = msg; event = shell_event; window = lp })
    else if shell_event == hshell_getminrect
    then (memory.window_at lp >>= λ window.
        publish has_lua (record { msg = msg; event = shell_event; window = window }))
    else some []

-- `shell_window_proc`: what is published, and whether L is set after. `unset` is what stands in
-- `shell_event`, which only WM_ShellHook sets.
unfoldable pub shell_window_proc :
    Memory
    → (wm_shell_hook unset : ℕ) → (has_lua : Bool) → WindowMessage
    → Option (List Published × Bool)
unfolding on_shell_event
shell_window_proc memory wm_shell_hook unset has_lua create = some ([], true)
shell_window_proc memory wm_shell_hook unset has_lua (power_broadcast wp) =
    if is_power_event wp
    then (publish has_lua (record { msg = wm_powerbroadcast; event = wp; window = 0 }) >>= λ ps.
        some (ps, has_lua))
    else some ([], has_lua)
shell_window_proc memory wm_shell_hook unset has_lua (other msg wp lp) =
    let shell_event = if msg == wm_shell_hook then bit_and wp 0x7fff else unset in
    on_shell_event memory has_lua msg shell_event lp >>= λ ps. some (ps, has_lua)

-- The class, the window, the function RegisterShellHook, and whether the window is registered by it.
pub record ShellState : Type 0 where
  pub has_class : Bool
  pub has_window : Bool
  pub has_register_shell_hook : Bool
  pub is_registered : Bool
  pub wm_shell_hook : ℕ

pub record Answers : Type 0 where
  pub registers_class : Bool
  pub creates_window : Bool
  pub finds_function : Bool
  pub message : ℕ

pub data Failure : Type 0 where
  register_class create_window_ex : Failure

unfoldable pub create_shell_window : Answers → ShellState → ShellState × Option Failure
create_shell_window a s =
    if not a.registers_class
    then (s, some register_class)
    else if not a.creates_window
    then (record s { has_window = false; has_class = false }, some create_window_ex)
    else (
      record s {
        has_class = true;
        has_window = true;
        has_register_shell_hook = a.finds_function;
        is_registered = a.finds_function || s.is_registered;
        wm_shell_hook = a.message;
      },
      none,
    )

unfoldable pub destroy_shell_window : ShellState → ShellState
destroy_shell_window s = record s {
  has_class = false;
  has_window = false;
  is_registered = if s.has_register_shell_hook then false else s.is_registered;
}
