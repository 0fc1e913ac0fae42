-- ===== src/Tray/Window.antt =====
-- The tray window of lib/shell/tray.c: what a `NOTIFYICONDATA` that arrives by WM_COPYDATA does to
-- the tray data, and what is published of it.
pub mod Refines
use cereja.Prelude.{
  ℕ, Bool, true, false, not, Option, none, some, ◌>>=◌, List, [], ◌∷◌, ◌++◌, ◌==◌, if◌then◌else◌,
}
use cereja.Tray.Notify.{
  CrjNotifyIconData, CrjTrayData, Effect, publish, nim_add, nim_modify, nim_delete,
}
use cereja.Tray.TrayData
use cereja.Tray.TrayData.{Outcome, Change}

-- `sizeof(CrjNOTIFYICONDATA)` with pointers and long integers of four bytes.
abbrev pub notify_icon_data_size : ℕ
notify_icon_data_size = 952

-- What a message leaves: the tray data, the reply to the sender, and the effects in order.
pub record Reply : Type 0 where
  pub tray : CrjTrayData
  pub returned : Bool
  pub effects : List Effect

abbrev refused : CrjTrayData → Reply
refused tray = record { tray = tray; returned = false; effects = [] }

-- The end of `tray_message_proc`: the change is published if there is one.
finish : ℕ → Outcome → Reply
finish message o = record {
  tray = o.self;
  returned = true;
  effects = elim o.result [
    | none ↦ o.effects
    | some c ↦ o.effects ++ publish message c.icon_index c.flags ∷ []
  ];
}

-- NIM_MODIFY of an icon that the tray does not know is taken for NIM_ADD.
modify_or_add : Outcome → CrjNotifyIconData → Option Reply
unfolding finish
modify_or_add o nid = elim o.result [
  | some _ ↦ some (finish nim_modify o)
  | none ↦ do added ← TrayData.add_icon o.self nid; some (finish nim_add added)
]

unfoldable pub tray_message_proc : CrjTrayData → ℕ → CrjNotifyIconData → Option Reply
unfolding finish modify_or_add
tray_message_proc tray message nid =
    if not (nid.cb_size == notify_icon_data_size)
    then some (refused tray)
    else if message == nim_add
    then (TrayData.add_icon tray nid >>= λ o. some (finish nim_add o))
    else if message == nim_delete
    then (TrayData.remove_icon tray nid >>= λ o. some (finish nim_delete o))
    else if message == nim_modify
    then (TrayData.update_icon tray nid >>= λ o. modify_or_add o nid)
    else some (refused tray)

-- The messages that `tray_window_proc` tells apart. A WM_COPYDATA carries `dwData`, and behind four
-- bytes of its buffer the tray message and the notification.
pub data WindowMessage : Type 0 where
  copy_data : (dw_data tray_msg : ℕ) → CrjNotifyIconData → WindowMessage
  create : WindowMessage
  other : WindowMessage

-- `none` within the run is a message left to DefWindowProc.
unfoldable pub tray_window_proc : CrjTrayData → WindowMessage → Option (Option Reply)
unfolding tray_message_proc
tray_window_proc tray (copy_data dw_data tray_msg nid) =
    if dw_data == 1 then (tray_message_proc tray tray_msg nid >>= λ r. some (some r)) else some none
tray_window_proc tray create = some none
tray_window_proc tray other = some none
