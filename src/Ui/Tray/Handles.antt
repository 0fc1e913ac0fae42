-- ===== src/Ui/Tray/Handles.antt =====
-- Events that reach the thread of lib/ui/tray.c and lib/shell/tray.c, with the calls of
-- `shell.tray` and the messages that they post.
use mathlib.Core.Path.{subst}
use cereja.Prelude.{
  ℕ, ◌≡◌, Bool, true, false, not, ◌&&◌, some, List, [], ◌∷◌, ◌++◌, ◌%◌, ◌==◌, arith, refl, sym, inl,
  inr, Bool-cases,
}
use cereja.Prelude.Int.{ℤ, pos, negsuc, ◌+ℤ◌}
use cereja.Prelude.Slices.{get_elem?-lt}
use cereja.Tray.Notify.{CrjTrayIcon}
use cereja.Tray.Live.{live, IsWellFormed, length-live}
use cereja.Tray.Window.Refines.{tray_message_proc-Replies}
use cereja.Ui.Tray.{
  UiTray, is_invalid, drain, command, move_cursor, move_icon, send_click, icon_at, next_cursor,
  prev_cursor, first_cursor, last_cursor,
}
use cereja.Ui.Tray.Commands.{
  UiCommand, show, hide, cursor_next, cursor_prev, cursor_first, cursor_last, send_left_click,
  send_left_double_click, send_right_click, send_right_double_click, send_middle_click,
  send_middle_double_click, icon_move_next, icon_move_prev, icon_move_first, icon_move_last,
  icon_shift_next, icon_shift_prev, unknown, command_of, send_click_message,
}
use cereja.Ui.Tray.Cursor.{
  is_inside, next_cursor-inside, prev_cursor-inside, first_cursor-inside, last_cursor-inside,
}
use cereja.Ui.Tray.Events.{
  UiEvent, command_sent, key_down, activate, window_pos, set_visibility, hotkey_add, hotkey_reset,
  tray_message, window_proc, handle, handle_all,
}
use cereja.Ui.Tray.Keys
use cereja.Ui.Tray.Tells.{clean_Tells, move_Tells, message_Tells}
use cereja.Ui.Tray.Settles.{
  IsSettled, Settles, whichever, inside_Settles, window_pos-Settles, hide-Settles, call_Settles,
  drain-tray, drain-inside,
}

module _ (u : UiTray) (s : IsSettled u) where
  still_Settles : Settles (some u)
  still_Settles = inside_Settles u s.well_formed s.inside

  move_cursor-Settles :
      (is_window : ℕ → Bool) (c : ℤ)
      → is_inside c u.tray.count ≡ true
      → Settles (move_cursor is_window c u)
  unfolding move_cursor
  move_cursor-Settles is_window c inside =
      let moved : UiTray = record u { cursor = c } in
      whichever (not u.visible) still_Settles (
        whichever (is_invalid c) (inside_Settles moved s.well_formed inside)
          (call_Settles moved (clean_Tells is_window u.tray (c +ℤ pos 1) s.well_formed) inside))

  move_icon-Settles : (index dest : ℤ) → Settles (move_icon index dest u)
  unfolding move_icon
  move_icon-Settles index dest = elim (Bool-cases (u.visible && not (is_invalid u.cursor))) [
    | inr off ↦ rw off still_Settles
    | inl on ↦ rw on (call_Settles u (move_Tells u.tray index dest s.well_formed) s.inside)
  ]

  -- A cursor that is inside and not CURSOR_INVALID reads an icon in use.
  reads_icon :
      (c : ℤ)
      → is_inside c u.tray.count ≡ true
      → is_invalid c ≡ false
      → (x : CrjTrayIcon) × (icon_at u.tray c ≡ some x)
  unfolding icon_at
  reads_icon (pos i) inside at =
      get_elem?-lt (live u.tray) i (ground (arith, length-live u.tray s.well_formed.allocated))
  reads_icon (negsuc n) inside at = ground arith

  send_click-Settles : (cmd : UiCommand) → Settles (send_click cmd u)
  unfolding send_click
  send_click-Settles cmd = elim (Bool-cases (u.visible && not (is_invalid u.cursor))) [
    | inr off ↦ rw off still_Settles
    | inl on ↦
        let (icon, read) = reads_icon u.cursor s.inside (ground arith) in
        rw (on, read)
          (hide-Settles (record u { posted = u.posted ++ send_click_message icon cmd })
            (record { well_formed = s.well_formed; inside = s.inside }))
  ]

  command-Settles : (is_window : ℕ → Bool) (cmd : UiCommand) → Settles (command is_window cmd u)
  unfolding command
  command-Settles is_window show =
      inside_Settles (record u { visible = true }) s.well_formed s.inside
  command-Settles is_window hide = hide-Settles u s
  command-Settles is_window cursor_next =
      move_cursor-Settles is_window (next_cursor u.cursor u.tray.count)
        (next_cursor-inside u.cursor u.tray.count s.inside)
  command-Settles is_window cursor_prev =
      move_cursor-Settles is_window (prev_cursor u.cursor u.tray.count)
        (prev_cursor-inside u.cursor u.tray.count s.inside)
  command-Settles is_window cursor_first =
      move_cursor-Settles is_window (first_cursor u.cursor u.tray.count)
        (first_cursor-inside u.cursor u.tray.count s.inside)
  command-Settles is_window cursor_last =
      move_cursor-Settles is_window (last_cursor u.cursor u.tray.count)
        (last_cursor-inside u.cursor u.tray.count s.inside)
  command-Settles is_window send_left_click = send_click-Settles send_left_click
  command-Settles is_window send_left_double_click = send_click-Settles send_left_double_click
  command-Settles is_window send_right_click = send_click-Settles send_right_click
  command-Settles is_window send_right_double_click = send_click-Settles send_right_double_click
  command-Settles is_window send_middle_click = send_click-Settles send_middle_click
  command-Settles is_window send_middle_double_click = send_click-Settles send_middle_double_click
  command-Settles is_window icon_move_next = move_icon-Settles _ _
  command-Settles is_window icon_move_prev = move_icon-Settles _ _
  command-Settles is_window icon_move_first = move_icon-Settles _ _
  command-Settles is_window icon_move_last = move_icon-Settles _ _
  command-Settles is_window icon_shift_next = move_icon-Settles _ _
  command-Settles is_window icon_shift_prev = move_icon-Settles _ _
  command-Settles is_window unknown = still_Settles

  window_proc-Settles : (event : UiEvent) → Settles (window_proc u event)
  unfolding window_proc
  window_proc-Settles (command_sent is_window id) =
      command-Settles is_window (command_of (id % 65536))
  window_proc-Settles (key_down is_window is_pressed vk) =
      let id = Keys.translate u.key_table is_pressed vk in
      elim (Bool-cases (id == 0)) [
        | inl no_command ↦ rw no_command still_Settles
        | inr bound ↦ rw bound (command-Settles is_window (command_of (id % 65_536)))
      ]
  window_proc-Settles (activate inactive hide_when_inactive) =
      elim (Bool-cases (inactive && hide_when_inactive)) [
        | inl hides ↦ rw hides (hide-Settles u s)
        | inr stays ↦ rw stays still_Settles
      ]
  window_proc-Settles (window_pos hides) = window_pos-Settles hides u s
  window_proc-Settles (set_visibility is_window argument) = command-Settles is_window _
  window_proc-Settles (hotkey_add vk modifiers id) =
      inside_Settles (record u { key_table = Keys.add u.key_table vk modifiers id }) s.well_formed
        s.inside
  window_proc-Settles hotkey_reset =
      inside_Settles (record u { key_table = Keys.empty }) s.well_formed s.inside
  window_proc-Settles (tray_message message nid) =
      let r = tray_message_proc-Replies u.tray nid s.well_formed message in
      let t = rw r.ran at (message_Tells u.tray nid s.well_formed message) in
      rw r.ran (call_Settles u t s.inside)

-- From a well-formed tray with the cursor inside, after any event and the messages that it posts
-- the tray is well formed and the cursor is inside again: no command reads an icon that is not in
-- use, and each call of shell.tray returns.
pub handle-IsSettled :
    (u : UiTray)
    → IsSettled u
    → (event : UiEvent) → (next : UiTray) × (handle u event ≡ some next) × IsSettled next
unfolding handle
handle-IsSettled u s event =
    let r = window_proc-Settles u s event in
    let same = drain-tray r.next.queue r.next in
    (
      drain r.next.queue r.next,
      rw r.ran refl,
      record {
        well_formed = subst IsWellFormed (sym same) r.well_formed;
        inside = rw same (drain-inside r.next.queue r.next r.place r.settled);
      },
    )

-- From a well-formed tray with the cursor inside, any sequence of events, each with the messages
-- that it posts, runs to its end and leaves the tray well formed and the cursor inside.
pub handle_all-IsSettled :
    (u : UiTray)
    → IsSettled u
    → (events : List UiEvent) → (last : UiTray) × (handle_all u events ≡ some last) × IsSettled last
unfolding handle_all
handle_all-IsSettled u s [] = (u, refl, s)
handle_all-IsSettled u s (event ∷ events) =
    let (next, ran, settled) = handle-IsSettled u s event in
    let (last, rest, end) = handle_all-IsSettled next settled events in (last, rw ran rest, end)
