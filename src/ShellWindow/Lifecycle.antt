-- ===== src/ShellWindow/Lifecycle.antt =====
-- The start and the end of lib/shell/window.c.
use cereja.Prelude.{◌≡◌, false, Option, none, some, List, [], ◌∷◌, arith}
use cereja.ShellWindow.{ShellState, Answers, Failure, create_shell_window, destroy_shell_window}

-- Nothing is there but the address of the function and the number of the message, which stay.
pub record IsReleased (s : ShellState) : Type 0 where
  pub no_class : s.has_class ≡ false
  pub no_window : s.has_window ≡ false
  pub not_registered : s.is_registered ≡ false

-- The extension is unloaded where its loading succeeded.
abbrev unload : ShellState × Option Failure → ShellState
unload (after, none) = destroy_shell_window after
unload (after, some e) = after

pub load_and_unload : List Answers → ShellState → ShellState
load_and_unload [] s = s
load_and_unload (a ∷ rest) s = load_and_unload rest (unload (create_shell_window a s))

unload-IsReleased :
    (a : Answers) (s : ShellState) → IsReleased s → IsReleased (unload (create_shell_window a s))
unfolding create_shell_window destroy_shell_window
unload-IsReleased a s h = ground arith

pub load_and_unload-IsReleased :
    (given : List Answers) (s : ShellState) → IsReleased s → IsReleased (load_and_unload given s)
unfolding load_and_unload
load_and_unload-IsReleased [] s h = h
load_and_unload-IsReleased (a ∷ rest) s h =
    load_and_unload-IsReleased rest (unload (create_shell_window a s)) (unload-IsReleased a s h)
