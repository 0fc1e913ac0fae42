-- ===== src/Ui/Tray/Commands.antt =====
-- The commands `UIC_*` of lib/ui/tray.c and the mouse messages that those for clicks send.
use cereja.Prelude.{ℕ, ◌+◌, Bool, true, false, List, [], ◌∷◌, ◌==◌, if◌then◌else◌}
use cereja.Tray.Notify.{CrjTrayIcon, Effect, post_message}

-- The commands `UIC_*` of WM_COMMAND.
pub data UiCommand : Type 0 where
  show hide : UiCommand
  cursor_next cursor_prev cursor_first cursor_last : UiCommand
  send_left_click send_left_double_click : UiCommand
  send_right_click send_right_double_click : UiCommand
  send_middle_click send_middle_double_click : UiCommand
  icon_move_next icon_move_prev icon_move_first icon_move_last : UiCommand
  icon_shift_next icon_shift_prev : UiCommand
  unknown : UiCommand

-- `LOWORD(wp)` of WM_COMMAND.
unfoldable pub command_of : ℕ → UiCommand
command_of id =
    if id == 1
    then show
    else if id == 2
    then hide
    else if id == 3
    then cursor_next
    else if id == 4
    then cursor_prev
    else if id == 5
    then cursor_first
    else if id == 6
    then cursor_last
    else if id == 7
    then send_left_click
    else if id == 8
    then send_left_double_click
    else if id == 9
    then send_right_click
    else if id == 10
    then send_right_double_click
    else if id == 11
    then send_middle_click
    else if id == 12
    then send_middle_double_click
    else if id == 13
    then icon_move_next
    else if id == 14
    then icon_move_prev
    else if id == 15
    then icon_move_first
    else if id == 16
    then icon_move_last
    else if id == 17
    then icon_shift_next
    else if id == 18
    then icon_shift_prev
    else unknown

abbrev wm_left_down : ℕ
wm_left_down = 0x201

abbrev wm_right_down : ℕ
wm_right_down = 0x204

abbrev wm_middle_down : ℕ
wm_middle_down = 0x207

-- A button's messages are consecutive: down, up and double click.
clicks : CrjTrayIcon → (down : ℕ) → (double : Bool) → List Effect
clicks icon down double =
    let post = λ (msg : ℕ). post_message icon.h_wnd icon.u_callback_message icon.u_id msg in
    if double
    then post down ∷ post (down + 1) ∷ post (down + 2) ∷ post (down + 1) ∷ []
    else post down ∷ post (down + 1) ∷ []

unfoldable pub send_click_message : CrjTrayIcon → UiCommand → List Effect
unfolding clicks
send_click_message icon send_left_click = clicks icon wm_left_down false
send_click_message icon send_left_double_click = clicks icon wm_left_down true
send_click_message icon send_right_click = clicks icon wm_right_down false
send_click_message icon send_right_double_click = clicks icon wm_right_down true
send_click_message icon send_middle_click = clicks icon wm_middle_down false
send_click_message icon send_middle_double_click = clicks icon wm_middle_down true
send_click_message icon _ = []
