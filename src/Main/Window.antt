-- ===== src/Main/Window.antt =====
-- `main_window_proc` of src/main.c. A message that the procedure sends to its own window is handled
-- in place.
use cereja.Prelude.{
  ℕ, ◌≡◌, Bool, true, false, ◌&&◌, List, [], ◌∷◌, ◌==◌, if◌then◌else◌, arith, refl,
}
use cereja.Main.{Text}

-- IDHK_EXIT
abbrev idhk_exit : ℕ
idhk_exit = 1

-- `registers` is the result of RegisterHotKey. A WM_COPYDATA carries another message in `dwData`.
pub data MainMessage : Type 0 where
  create : (registers : Bool) → MainMessage
  destroy close : MainMessage
  end_session : (ends : Bool) → MainMessage
  hotkey : ℕ → MainMessage
  copy_data : MainMessage → MainMessage
  exit : MainMessage
  exec : Text → MainMessage
  other : MainMessage

pub data MainAct : Type 0 where
  refuse_window unregister_hotkey ask_user post_quit : MainAct
  run_logout cleanup_cereja cleanup_lua : MainAct
  run_string : Text → MainAct
  default_proc : MainAct

-- WM_CLOSE; `confirms` is the answer of the user.
on_close : Bool → List MainAct
on_close confirms = if confirms then ask_user ∷ post_quit ∷ [] else ask_user ∷ []

unfoldable pub main_window_proc : Bool → MainMessage → List MainAct
unfolding on_close
main_window_proc confirms (create registers) =
    if registers then default_proc ∷ [] else refuse_window ∷ []
main_window_proc confirms destroy = unregister_hotkey ∷ default_proc ∷ []
main_window_proc confirms close = on_close confirms
main_window_proc confirms (end_session ends) =
    if ends then run_logout ∷ cleanup_cereja ∷ cleanup_lua ∷ [] else []
main_window_proc confirms (hotkey id) =
    if id == idhk_exit
    then (if confirms
        then ask_user ∷ post_quit ∷ default_proc ∷ []
        else ask_user ∷ default_proc ∷ [])
    else default_proc ∷ []
main_window_proc confirms (copy_data m) = main_window_proc confirms m
main_window_proc confirms exit = on_close confirms
main_window_proc confirms (exec t) = run_string t ∷ []
main_window_proc confirms other = default_proc ∷ []

abbrev pub quits : List MainAct → Bool
quits [] = false
quits (post_quit ∷ acts) = true
quits (_ ∷ acts) = quits acts

-- A request to exit: WM_CLOSE, Crj_WM_EXIT or the exit hotkey, also inside a WM_COPYDATA.
abbrev pub asks_exit : MainMessage → Bool
asks_exit close = true
asks_exit exit = true
asks_exit (hotkey id) = id == idhk_exit
asks_exit (copy_data m) = asks_exit m
asks_exit _ = false

-- The main window ends the message loop just on a request to exit that the user confirms.
pub main_window_proc-quits :
    (confirms : Bool) (m : MainMessage)
    → quits (main_window_proc confirms m) ≡ (asks_exit m && confirms)
unfolding main_window_proc
main_window_proc-quits confirms (create registers) = ground arith
main_window_proc-quits confirms destroy = refl
main_window_proc-quits confirms close = ground arith
main_window_proc-quits confirms (end_session ends) = ground arith
main_window_proc-quits confirms (hotkey id) = ground arith
main_window_proc-quits confirms (copy_data m) = main_window_proc-quits confirms m
main_window_proc-quits confirms exit = ground arith
main_window_proc-quits confirms (exec t) = refl
main_window_proc-quits confirms other = refl
