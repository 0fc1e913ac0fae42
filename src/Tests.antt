-- ===== src/Tests.antt =====
-- Concrete trays and messages, on which the definitions run and the theorems are applied.
use cereja.Prelude.{
  ℕ, ◌≡◌, Bool, true, false, some, ◌>>=◌, List, [], ◌∷◌, length, arith, refl, ◌==◌, if◌then◌else◌,
}
use cereja.Prelude.Int.{pos, negsuc, ◌-ℤ◌}
use cereja.Tray.Notify.{
  CrjNotifyIconData, CrjTrayIcon, CrjTrayData, nim_add, nim_modify, nim_delete,
}
use cereja.Tray.TrayData
use cereja.Tray.TrayData.Cleans.{Cleans, clean_icon-Cleans}
use cereja.Tray.Live.{live, IsWellFormed}
use cereja.Tray.Window.{copy_data, tray_message_proc}
use cereja.Tray.Window.Refines.{Replies, tray_message_proc-Replies, spec_message, is_handled}
use cereja.Tray.History.{Request, message, clean, move, Ends, run, run-new, spec_run}
use cereja.Tray.Api.{bad_table_length, reorder_icons}
use cereja.Tray.Api.Reorders.{gather, reordered, reorder_icons-gather}
use cereja.Ui.Tray.{UiTray}
use cereja.Ui.Tray.Keys.{Key, control, add, translate}
use cereja.Ui.Tray.Events.{UiEvent, command_sent, tray_message, handle, handle_all}
use cereja.Ui.Tray.Settles.{IsSettled}
use cereja.Ui.Tray.Handles.{handle_all-IsSettled}
use cereja.Tray.Api.Moves.{Moves, move_icon-Moves}

abbrev icon : ℕ → ℕ → CrjTrayIcon
icon w i = record {
  h_wnd = w;
  u_id = i;
  u_callback_message = 1024;
  h_icon = 9;
  sz_tip = [];
  sz_info = [];
  u_timeout = 0;
  sz_info_title = [];
  dw_info_flags = 0;
}

-- A notification about the icon `i` of the window `w`: its image and its tip.
abbrev notice : ℕ → ℕ → CrjNotifyIconData
notice w i = record {
  cb_size = 952;
  h_wnd = w;
  u_id = i;
  u_flags = 6;
  u_callback_message = 1024;
  h_icon = 9;
  sz_tip = 104 ∷ 105 ∷ 0 ∷ [];
  dw_state = 0;
  dw_state_mask = 0;
  sz_info = [];
  u_timeout = 0;
  sz_info_title = [];
  dw_info_flags = 0;
}

-- Three icons in an array of four slots, of which the last is not in use.
abbrev three : CrjTrayData
three = record { count = 3; icons = icon 5 1 ∷ icon 5 2 ∷ icon 7 1 ∷ icon 8 8 ∷ [] }

three-IsWellFormed : IsWellFormed three
three-IsWellFormed = record { allocated = omega arith; distinct = (refl, (refl, (refl, tt))) }

abbrev is_five : ℕ → Bool
is_five w = w == 5

clean_icon-Cleans_example : Cleans is_five three (pos 2)
clean_icon-Cleans_example = clean_icon-Cleans is_five three three-IsWellFormed (pos 2)

tray_message_proc-Replies_example :
    Replies
      (tray_message_proc three nim_delete (notice 5 2))
      (spec_message (live three) nim_delete (notice 5 2))
      (is_handled nim_delete (notice 5 2))
tray_message_proc-Replies_example =
    tray_message_proc-Replies three (notice 5 2) three-IsWellFormed nim_delete

move_icon-Moves_example : Moves three (pos 1) (negsuc 0)
move_icon-Moves_example = move_icon-Moves three three-IsWellFormed (pos 1) (negsuc 0)

abbrev requests : List Request
requests =
    message (copy_data 1 nim_add (notice 5 1))
    ∷ message (copy_data 1 nim_modify (notice 7 1))
    ∷ move (pos 1) (pos 2)
    ∷ clean is_five (pos 1)
    ∷ []

run-new_example : Ends (run TrayData.new requests) (spec_run [] requests)
run-new_example = run-new requests

reorder_icons-gather_example : reorder_icons three (pos 3 ∷ pos 1 ∷ pos 2 ∷ []) ≡ (
    if length (pos 3 ∷ pos 1 ∷ pos 2 ∷ []) == 3
    then (gather (live three) (pos 3 ∷ pos 1 ∷ pos 2 ∷ []) >>= λ xs. some (reordered three xs))
    else some (bad_table_length 3 (length (pos 3 ∷ pos 1 ∷ pos 2 ∷ []))))
reorder_icons-gather_example =
    reorder_icons-gather three (pos 3 ∷ pos 1 ∷ pos 2 ∷ []) three-IsWellFormed.allocated

-- The window is visible and its cursor is at the last icon.
abbrev at_last : UiTray
at_last = record {
  cursor = pos 2;
  visible = true;
  tray = three;
  queue = [];
  posted = [];
  key_table = [];
}

at_last-IsSettled : IsSettled at_last
at_last-IsSettled = record { well_formed = three-IsWellFormed; inside = refl }

abbrev events : List UiEvent
events =
    command_sent is_five 3
    ∷ tray_message nim_delete (notice 5 1)
    ∷ command_sent is_five 13
    ∷ command_sent is_five 7
    ∷ []

handle_all-IsSettled_example :
    (last : UiTray) × (handle_all at_last events ≡ some last) × IsSettled last
handle_all-IsSettled_example = handle_all-IsSettled at_last at_last-IsSettled events

abbrev with_control : Key → Bool
with_control control = true
with_control _ = false

-- With the Control key down, the key that was bound with it gives its command, and alone none.
bound_key : translate (add [] 13 2 7) with_control 13 ≡ 7
unfolding translate add
bound_key = refl

unbound_key : translate (add [] 13 2 7) (λ _. false) 13 ≡ 0
unfolding translate add
unbound_key = refl

-- The last icon goes away under the cursor.
cursor_follows :
    handle at_last (tray_message nim_delete (notice 7 1))
    ≡ some (record at_last {
      cursor = pos 1;
      tray = record { count = 2; icons = icon 5 1 ∷ icon 5 2 ∷ icon 7 1 ∷ icon 8 8 ∷ [] };
    })
unfolding handle tray_message_proc TrayData.remove_icon ◌-ℤ◌
cursor_follows = refl
