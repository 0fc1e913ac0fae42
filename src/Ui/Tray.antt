-- ===== src/Ui/Tray.antt =====
-- The window of lib/ui/tray.c that shows the tray: its cursor, its commands and its key table. It
-- reads the tray data of lib/shell/tray.c and changes them by calls of `shell.tray`, whose events
-- come back as messages posted to the window.
pub mod Commands
pub mod Keys
pub mod Cursor
pub mod Events
pub mod Tells
pub mod Settles
pub mod Handles
use cereja.Prelude.{
  ℕ, zero, suc, ◌+◌, Bool, true, false, not, ◌&&◌, ◌||◌, Option, none, some, ◌>>=◌, List, [], ◌∷◌,
  ◌++◌, ◌%◌, get_elem?, ltb, ◌==◌, if◌then◌else◌,
}
use cereja.Prelude.Int.{ℤ, pos, negsuc, ◌+ℤ◌, ◌-ℤ◌, leb_ℤ, ltb_ℤ}
use cereja.Tray.Notify.{
  CrjNotifyIconData, CrjTrayIcon, CrjTrayData, Effect, post_message, publish, nim_add, nim_modify,
  nim_delete,
}
use cereja.Tray.Live.{live}
use cereja.Tray.Api
use cereja.Tray.Window.{tray_message_proc}
use cereja.Ui.Tray.Commands.{
  UiCommand, show, hide, cursor_next, cursor_prev, cursor_first, cursor_last, icon_move_next,
  icon_move_prev, icon_move_first, icon_move_last, icon_shift_next, icon_shift_prev, unknown,
  send_click_message,
}
use cereja.Ui.Tray.Keys
use cereja.Ui.Tray.Keys.{KeyTable, Key}
use cereja.Tray.Api.{Called, slot}

-- `s_Cursor`, whether the window is visible, the tray data, the UIM_TRAY_UPDATE messages that are
-- posted to the window and not handled yet, and what has been posted to other windows.
pub record UiTray : Type 0 where
  pub cursor : ℤ
  pub visible : Bool
  pub tray : CrjTrayData
  pub queue : List ℕ
  pub posted : List Effect
  pub key_table : KeyTable

-- CURSOR_INVALID, -20061104
abbrev pub cursor_invalid : ℤ
cursor_invalid = negsuc 20_061_103

abbrev pub is_invalid : ℤ → Bool
is_invalid (pos _) = false
is_invalid (negsuc n) = n == 20_061_103

-- The window after WM_CREATE.
abbrev pub new : CrjTrayData → UiTray
new tray = record {
  cursor = cursor_invalid;
  visible = false;
  tray = tray;
  queue = [];
  posted = [];
  key_table = Keys.empty;
}

-- `ui_tray__subscriber`: each event that `shell.tray` publishes is posted as a message.
pub subscriber : List Effect → List ℕ
subscriber [] = []
subscriber (publish event icon_index flags ∷ es) = event ∷ subscriber es
subscriber (_ ∷ es) = subscriber es

-- What a call of a function of `shell.tray` leaves.
abbrev pub after_call : UiTray → Called → UiTray
unfolding subscriber
after_call u called = record u { tray = called.tray; queue = u.queue ++ subscriber called.effects }

-- WM_WINDOWPOSCHANGED
pub window_pos_changed : Bool → UiTray → UiTray
window_pos_changed hide_window u = if hide_window then record u { cursor = cursor_invalid } else u

-- ShowWindow(SW_HIDE) of a visible window sends WM_WINDOWPOSCHANGED with SWP_HIDEWINDOW.
pub hide_window : UiTray → UiTray
unfolding window_pos_changed
hide_window u = window_pos_changed u.visible (record u { visible = false })

-- The new `s_Cursor` of UIC_CURSOR_NEXT, UIC_CURSOR_PREV, UIC_CURSOR_FIRST and UIC_CURSOR_LAST.
unfoldable pub next_cursor : ℤ → ℕ → ℤ
unfolding ◌+ℤ◌ ◌-ℤ◌
next_cursor c count =
    if is_invalid c
    then (if ltb 0 count then pos 0 else cursor_invalid)
    else if leb_ℤ (pos count) (c +ℤ pos 1)
    then c +ℤ pos 1 -ℤ pos count
    else c +ℤ pos 1

unfoldable pub prev_cursor : ℤ → ℕ → ℤ
unfolding ◌+ℤ◌ ◌-ℤ◌
prev_cursor c count =
    if is_invalid c
    then (if ltb 0 count then pos count -ℤ pos 1 else cursor_invalid)
    else if ltb_ℤ (c -ℤ pos 1) (pos 0)
    then c -ℤ pos 1 +ℤ pos count
    else c -ℤ pos 1

unfoldable pub first_cursor : ℤ → ℕ → ℤ
first_cursor c count =
    if is_invalid c then (if ltb 0 count then pos 0 else cursor_invalid) else pos 0

unfoldable pub last_cursor : ℤ → ℕ → ℤ
unfolding ◌-ℤ◌
last_cursor c count =
    if is_invalid c
    then (if ltb 0 count then pos count -ℤ pos 1 else cursor_invalid)
    else pos count -ℤ pos 1

-- `s_TrayData->icons[s_Cursor]`. The slots from `count` on hold pointers to icons that were freed.
pub icon_at : CrjTrayData → ℤ → Option CrjTrayIcon
icon_at tray c = do i ← slot c; get_elem? (live tray) i

pub send_click : UiCommand → UiTray → Option UiTray
unfolding send_click_message icon_at hide_window
send_click cmd u =
    if u.visible && not (is_invalid u.cursor)
    then (icon_at u.tray u.cursor >>= λ icon.
        some (hide_window (record u { posted = u.posted ++ send_click_message icon cmd })))
    else some u

pub move_icon : (index dest : ℤ) → UiTray → Option UiTray
unfolding after_call
move_icon index dest u =
    if u.visible && not (is_invalid u.cursor)
    then (Api.move_icon u.tray index dest >>= λ called. some (after_call u called))
    else some u

module _ (is_window : ℕ → Bool) where
  pub move_cursor : ℤ → UiTray → Option UiTray
  unfolding after_call ◌+ℤ◌
  move_cursor c u =
      if not u.visible then some u else if is_invalid c then some (record u { cursor = c }) else do
        called ← Api.clean_icon is_window u.tray (c +ℤ pos 1)
        some (after_call (record u { cursor = c }) called)

  unfoldable pub command : UiCommand → UiTray → Option UiTray
  unfolding move_cursor send_click move_icon hide_window next_cursor prev_cursor first_cursor
      last_cursor ◌+ℤ◌ ◌-ℤ◌
  command show u = some (record u { visible = true })
  command hide u = some (hide_window u)
  command cursor_next u = move_cursor (next_cursor u.cursor u.tray.count) u
  command cursor_prev u = move_cursor (prev_cursor u.cursor u.tray.count) u
  command cursor_first u = move_cursor (first_cursor u.cursor u.tray.count) u
  command cursor_last u = move_cursor (last_cursor u.cursor u.tray.count) u
  command icon_move_next u = move_icon (u.cursor +ℤ pos 1) (u.cursor +ℤ pos 1 +ℤ pos 1) u
  command icon_move_prev u = move_icon (u.cursor +ℤ pos 1) (u.cursor -ℤ pos 1 +ℤ pos 1) u
  command icon_move_first u = move_icon (u.cursor +ℤ pos 1) (pos 1) u
  command icon_move_last u = move_icon (u.cursor +ℤ pos 1) (negsuc 0) u
  command icon_shift_next u = move_icon (negsuc 0) (pos 1) u
  command icon_shift_prev u = move_icon (pos 1) (negsuc 0) u
  command unknown u = some u
  command cmd u = send_click cmd u

-- UIM_TRAY_UPDATE
unfoldable pub update_cursor : ℕ → ℤ → ℕ → ℤ
unfolding ◌-ℤ◌
update_cursor event c count =
    if event == nim_delete && not (is_invalid c)
    then (if count == 0
        then cursor_invalid
        else if leb_ℤ (pos count) c
        then pos count -ℤ pos 1
        else c)
    else c

-- The messages that were posted are handled in their order.
pub drain : List ℕ → UiTray → UiTray
unfolding update_cursor
drain [] u = record u { queue = [] }
drain (event ∷ events) u =
    drain events (record u { cursor = update_cursor event u.cursor u.tray.count })
