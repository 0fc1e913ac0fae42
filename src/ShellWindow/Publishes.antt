-- ===== src/ShellWindow/Publishes.antt =====
-- What the window of lib/shell/window.c publishes.
use cereja.Prelude.{
  ◌↔◌, >>=-eq-some, some_pair, ap, ◌∙◌, ℕ, ◌≡◌, refl, Bool, true, false, ◌||◌, some, [], bit_and,
  ◌==◌, if◌then◌else◌, arith,
}
use cereja.ShellWindow.{
  names_window, hshell_getminrect, other, publish, Memory, on_shell_event, shell_window_proc,
}

-- A value that the inner switch handles.
abbrev pub is_event : (shell_event : ℕ) → Bool
is_event e = names_window e || e == hshell_getminrect

abbrev pub low_bits : ℕ → ℕ
low_bits wp = bit_and wp 0x7fff

quiet_iff :
    (memory : Memory) (msg shell_event lp : ℕ)
    → (on_shell_event memory true msg shell_event lp ≡ some []) ↔ (is_event shell_event ≡ false)
unfolding on_shell_event publish
quiet_iff memory msg shell_event lp = (λ h. ground arith, λ h. ground arith)

-- A message to the shell window, once it has been created, that is not about its creation or the
-- power publishes nothing just where the event is none of the five that the procedure handles; the
-- event is the low 15 bits of wParam for WM_ShellHook, and for every other message what stands in
-- a variable that is not set.
pub shell_window_proc-quiet :
    (memory : Memory) (wm_shell_hook unset msg wp lp : ℕ)
    → (shell_window_proc memory wm_shell_hook unset true (other msg wp lp) ≡ some ([], true))
      ↔ (is_event (if msg == wm_shell_hook then low_bits wp else unset) ≡ false)
unfolding shell_window_proc
shell_window_proc-quiet memory wm_shell_hook unset msg wp lp =
    let event = if msg == wm_shell_hook then low_bits wp else unset in
    let (quiet, none_published) = quiet_iff memory msg event lp in
    (
      λ h.
          let (ps, made, rest) =
            >>=-eq-some (on_shell_event memory true msg event lp) (λ ps. some (ps, true)) h in
          quiet (made ∙ ap some (some_pair rest).0),
      λ h. rw (none_published h) refl,
    )
