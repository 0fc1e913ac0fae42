-- ===== src/Ui/Tray/Events.antt =====
-- The messages that `ui_window_proc` of lib/ui/tray.c handles, with those that reach the tray window
-- of lib/shell/tray.c in the same thread.
use cereja.Prelude.{
  ℕ, Bool, not, ◌&&◌, Option, none, some, ◌>>=◌, List, [], ◌∷◌, ◌%◌, ◌==◌, if◌then◌else◌,
}
use cereja.Tray.Notify.{CrjNotifyIconData}
use cereja.Tray.Window.{tray_message_proc}
use cereja.Ui.Tray.Commands.{show, hide, command_of}
use cereja.Ui.Tray.Keys
use cereja.Ui.Tray.Keys.{KeyTable, Key}
use cereja.Ui.Tray.{UiTray, command, after_call, hide_window, window_pos_changed, drain}

-- What reaches the thread of the window: a message to the window itself, a call of a function of
-- `ui.tray`, or a message to the tray window.
-- What Windows answers meanwhile is given: which windows are there, which keys are down, and
-- `ui.tray.hide_when_inactivep`.
pub data UiEvent : Type 0 where
  command_sent : (is_window : ℕ → Bool) → (id : ℕ) → UiEvent
  key_down : (is_window : ℕ → Bool) → (is_pressed : Key → Bool) → (vk : ℕ) → UiEvent
  activate : (inactive hide_when_inactive : Bool) → UiEvent
  window_pos : (hides : Bool) → UiEvent
  set_visibility : (is_window : ℕ → Bool) → (argument : Option Bool) → UiEvent
  hotkey_add : (vk modifiers command : ℕ) → UiEvent
  hotkey_reset : UiEvent
  tray_message : (message : ℕ) → CrjNotifyIconData → UiEvent

unfoldable pub window_proc : UiTray → UiEvent → Option UiTray
unfolding command command_of hide_window window_pos_changed Keys.translate after_call
window_proc u (command_sent is_window id) = command is_window (command_of (id % 65_536)) u
window_proc u (key_down is_window is_pressed vk) =
    let id = Keys.translate u.key_table is_pressed vk in
    let sent = command is_window (command_of (id % 65_536)) u in if id == 0 then some u else sent
window_proc u (activate inactive hide_when_inactive) =
    some (if inactive && hide_when_inactive then hide_window u else u)
window_proc u (window_pos hides) = some (window_pos_changed hides u)
window_proc u (set_visibility is_window argument) =
    let is_visible : Bool = elim argument [ none ↦ not u.visible | some b ↦ b ] in
    command is_window (if is_visible then show else hide) u
window_proc u (hotkey_add vk modifiers id) =
    some (record u { key_table = Keys.add u.key_table vk modifiers id })
window_proc u hotkey_reset = some (record u { key_table = Keys.empty })
window_proc u (tray_message message nid) = do
  reply ← tray_message_proc u.tray message nid
  some (after_call u (record { tray = reply.tray; effects = reply.effects }))

-- An event, and then the messages that it posted.
unfoldable pub handle : UiTray → UiEvent → Option UiTray
unfolding window_proc drain
handle u event = do next ← window_proc u event; some (drain next.queue next)

unfoldable pub handle_all : UiTray → List UiEvent → Option UiTray
unfolding handle
handle_all u [] = some u
handle_all u (event ∷ events) = do next ← handle u event; handle_all next events
