-- ===== src/Tray/TrayIcon.antt =====
-- The functions `TrayIcon_*` of lib/shell/tray.c. An update returns the icon and the set of members
-- that it reports as changed.
pub mod Members
use cereja.Prelude.{ℕ, not, ◌||◌, [], ◌==◌, if◌then◌else◌, bit_or}
use cereja.Tray.Notify.{
  CrjNotifyIconData, CrjTrayIcon, has_flag, c_string, tcscpy, tcs_eq, nif_message, nif_icon,
  nif_tip, nif_info, tip_size, info_size, info_title_size,
}

update_icon : CrjNotifyIconData → CrjTrayIcon × ℕ → CrjTrayIcon × ℕ
update_icon nid (self, flags) =
    if has_flag nid.u_flags nif_icon
    then (
      record self { h_icon = nid.h_icon },
      (if self.h_icon == nid.h_icon then flags else bit_or flags nif_icon),
    )
    else (self, flags)

update_message : CrjNotifyIconData → CrjTrayIcon × ℕ → CrjTrayIcon × ℕ
update_message nid (self, flags) =
    if has_flag nid.u_flags nif_message
    then (
      record self { u_callback_message = nid.u_callback_message },
      (if self.u_callback_message == nid.u_callback_message
          then flags
          else bit_or flags nif_message),
    )
    else (self, flags)

update_tip : CrjNotifyIconData → CrjTrayIcon × ℕ → CrjTrayIcon × ℕ
update_tip nid (self, flags) =
    if has_flag nid.u_flags nif_tip
    then (
      record self { sz_tip = tcscpy tip_size nid.sz_tip },
      (if tcs_eq self.sz_tip (c_string nid.sz_tip) then flags else bit_or flags nif_tip),
    )
    else (self, flags)

-- The condition compares `szInfo` twice, as the code does.
update_info : CrjNotifyIconData → CrjTrayIcon × ℕ → CrjTrayIcon × ℕ
update_info nid (self, flags) =
    if has_flag nid.u_flags nif_info
    then (
      record self {
        sz_info = tcscpy info_size nid.sz_info;
        sz_info_title = tcscpy info_title_size nid.sz_info_title;
        dw_info_flags = nid.dw_info_flags;
        u_timeout = nid.u_timeout;
      },
      (if not (tcs_eq self.sz_info (c_string nid.sz_info))
            || not (tcs_eq self.sz_info (c_string nid.sz_info))
          then bit_or flags nif_info
          else flags),
    )
    else (self, flags)

unfoldable pub update : CrjTrayIcon → CrjNotifyIconData → CrjTrayIcon × ℕ
unfolding update_icon update_message update_tip update_info
update self nid = update_info nid (update_tip nid (update_message nid (update_icon nid (self, 0))))

abbrev blank : CrjNotifyIconData → CrjTrayIcon
blank nid = record {
  h_wnd = nid.h_wnd;
  u_id = nid.u_id;
  u_callback_message = 0;
  h_icon = 0;
  sz_tip = [];
  sz_info = [];
  u_timeout = 0;
  sz_info_title = [];
  dw_info_flags = 0;
}

unfoldable pub new : CrjNotifyIconData → CrjTrayIcon
unfolding update
new nid = (update (blank nid) nid).0
