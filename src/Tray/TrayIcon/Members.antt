-- ===== src/Tray/TrayIcon/Members.antt =====
-- What an update of an icon in lib/shell/tray.c leaves in each member, and what it reports.
use cereja.Prelude.{ℕ, ◌+◌, ◌≡◌, not, ◌&&◌, [], ◌==◌, if◌then◌else◌, arith, ap}
use cereja.Tray.Notify.{
  CrjNotifyIconData, CrjTrayIcon, has_flag, c_string, tcscpy, tcs_eq, nif_message, nif_icon,
  nif_tip, nif_info, tip_size, info_size, info_title_size,
}
use cereja.Tray.TrayIcon

-- A member is taken from the notification just where its flag is set.
unfoldable pub updated_icon : CrjTrayIcon → CrjNotifyIconData → CrjTrayIcon
updated_icon x nid = record {
  h_wnd = x.h_wnd;
  u_id = x.u_id;
  u_callback_message =
      if has_flag nid.u_flags nif_message then nid.u_callback_message else x.u_callback_message;
  h_icon = if has_flag nid.u_flags nif_icon then nid.h_icon else x.h_icon;
  sz_tip = if has_flag nid.u_flags nif_tip then tcscpy tip_size nid.sz_tip else x.sz_tip;
  sz_info = if has_flag nid.u_flags nif_info then tcscpy info_size nid.sz_info else x.sz_info;
  u_timeout = if has_flag nid.u_flags nif_info then nid.u_timeout else x.u_timeout;
  sz_info_title =
      if has_flag nid.u_flags nif_info
      then tcscpy info_title_size nid.sz_info_title
      else x.sz_info_title;
  dw_info_flags = if has_flag nid.u_flags nif_info then nid.dw_info_flags else x.dw_info_flags;
}

-- NIF_ICON, NIF_MESSAGE, NIF_TIP and NIF_INFO, each where its members are given and differ; of the
-- members for NIF_INFO, `szInfo` alone is compared.
unfoldable pub updated_flags : CrjTrayIcon → CrjNotifyIconData → ℕ
updated_flags x nid =
    (if has_flag nid.u_flags nif_icon && not (x.h_icon == nid.h_icon) then 2 else 0)
    + (if has_flag nid.u_flags nif_message && not (x.u_callback_message == nid.u_callback_message)
        then 1
        else 0)
    + (if has_flag nid.u_flags nif_tip && not (tcs_eq x.sz_tip (c_string nid.sz_tip)) then 4 else 0)
    + (if has_flag nid.u_flags nif_info && not (tcs_eq x.sz_info (c_string nid.sz_info))
        then 16
        else 0)

-- A new icon has the members that the notification gives, and is empty in the others.
unfoldable pub new_icon : CrjNotifyIconData → CrjTrayIcon
unfolding updated_icon
new_icon nid =
    updated_icon
      (record {
        h_wnd = nid.h_wnd;
        u_id = nid.u_id;
        u_callback_message = 0;
        h_icon = 0;
        sz_tip = [];
        sz_info = [];
        u_timeout = 0;
        sz_info_title = [];
        dw_info_flags = 0;
      })
      nid

pub update-Members :
    (x : CrjTrayIcon) (nid : CrjNotifyIconData)
    → TrayIcon.update x nid ≡ (updated_icon x nid, updated_flags x nid)
unfolding TrayIcon.update updated_icon updated_flags
update-Members x nid = ground arith

pub new-Members : (nid : CrjNotifyIconData) → TrayIcon.new nid ≡ new_icon nid
unfolding TrayIcon.new new_icon
new-Members nid = ap (λ p. p.0) (update-Members (TrayIcon.blank nid) nid)
