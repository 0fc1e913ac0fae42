-- ===== src/Tray/Hook.antt =====
-- lib/shell/tray-hook.c: the hook that passes the messages of another shell's tray window on. Its library
-- is loaded into several processes, which share all of its variables but `g_HModule`.
pub mod Runs
use cereja.Prelude.{ℕ, Bool, true, false, not, ◌&&◌, List, [], ◌∷◌, ◌==◌, if◌then◌else◌}

-- Handles are numbers, and NULL is 0.
abbrev pub null : ℕ
null = 0

-- The calls of Windows that install and remove a hook.
pub data HookCall : Type 0 where
  installed : (hook : ℕ) → HookCall
  removed : (hook : ℕ) → HookCall

-- `g_HModule` of each process, the shared variables, and the calls, the last one first.
pub record HookState : Type 0 where
  pub h_module : (process : ℕ) → ℕ
  pub h_hook : ℕ
  pub tray_window : ℕ
  pub callback_window : ℕ
  pub calls : List HookCall

-- `_Crj_ShellTray_StartHook`; `answer` is the answer of SetWindowsHookEx.
pub start_hook : (process tray_window callback_window answer : ℕ) → HookState → Bool × HookState
start_hook process tray_window callback_window answer s =
    if s.h_module process == null
    then (false, s)
    else if not (s.h_hook == null)
    then (false, s)
    else if tray_window == callback_window
    then (false, s)
    else if answer == null
    then (false, record s { h_hook = null })
    else (
      true,
      record s {
        h_hook = answer;
        tray_window = tray_window;
        callback_window = callback_window;
        calls = installed answer ∷ s.calls;
      },
    )

-- `_Crj_ShellTray_EndHook`; `answer` says whether UnhookWindowsHookEx succeeds.
pub end_hook : (answer : Bool) → HookState → Bool × HookState
end_hook answer s = if s.h_hook == null then (false, s) else (
  answer,
  record s {
    h_hook = null;
    tray_window = null;
    callback_window = null;
    calls = if answer then removed s.h_hook ∷ s.calls else s.calls;
  },
)

-- DLL_PROCESS_ATTACH and DLL_PROCESS_DETACH of DllMain, in a process.
pub attach : (process dll_instance : ℕ) → HookState → HookState
attach process dll_instance s = record s {
  h_module = λ p. if p == process then dll_instance else s.h_module p;
}

pub detach : (answer : Bool) → HookState → HookState
unfolding end_hook
detach answer s = (end_hook answer s).1

-- What HookProc does with a message: it passes a copy of WM_COPYDATA on, and calls the next hook.
pub data Pass (A : Type 0) : Type 0 where
  send_message : (window : ℕ) → A → Pass A
  call_next : (hook : ℕ) → Pass A

-- A hooked message; `contents` is its wParam and its lParam.
pub record Hooked (A : Type 0) : Type 0 where
  pub is_action : Bool
  pub window : ℕ
  pub is_copydata : Bool
  pub contents : A

pub hook_proc : {A : Type 0} → Hooked A → HookState → List (Pass A)
hook_proc m s =
    if m.is_action && (m.window == s.tray_window && m.is_copydata)
    then send_message s.callback_window m.contents ∷ call_next s.h_hook ∷ []
    else call_next s.h_hook ∷ []
