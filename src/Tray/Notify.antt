-- ===== src/Tray/Notify.antt =====
-- The structures of lib/shell/tray.h, and the words of the Windows API that lib/shell/tray.c
-- compares with. Handles and unsigned words are numbers, and NULL is 0. A character buffer of a
-- received structure is the list of its WCHARs, terminated or not; a text that the tray keeps is the
-- string in its buffer, without the NUL.
use cereja.Prelude.{
  ℕ, Bool, true, not, ◌&&◌, List, [], ◌∷◌, take, ◌-◌, ◌==◌, if◌then◌else◌, bit_and, false,
}

abbrev pub nif_message : ℕ
nif_message = 1

abbrev pub nif_icon : ℕ
nif_icon = 2

abbrev pub nif_tip : ℕ
nif_tip = 4

abbrev pub nif_state : ℕ
nif_state = 8

abbrev pub nif_info : ℕ
nif_info = 16

abbrev pub nis_hidden : ℕ
nis_hidden = 1

abbrev pub nis_shared_icon : ℕ
nis_shared_icon = 2

abbrev pub nim_add : ℕ
nim_add = 0

abbrev pub nim_modify : ℕ
nim_modify = 1

abbrev pub nim_delete : ℕ
nim_delete = 2

abbrev pub nim_set_focus : ℕ
nim_set_focus = 3

abbrev pub nim_set_version : ℕ
nim_set_version = 4

abbrev pub wm_mouse_move : ℕ
wm_mouse_move = 0x200

-- The lengths of the character arrays of `CrjTrayIcon`.
abbrev pub tip_size : ℕ
tip_size = 128

abbrev pub info_size : ℕ
info_size = 256

abbrev pub info_title_size : ℕ
info_title_size = 64

-- NOTIFYICONDATAW, version 6.0. The GUID is never read.
pub record CrjNotifyIconData : Type 0 where
  pub cb_size : ℕ
  pub h_wnd : ℕ
  pub u_id : ℕ
  pub u_flags : ℕ
  pub u_callback_message : ℕ
  pub h_icon : ℕ
  pub sz_tip : List ℕ
  pub dw_state : ℕ
  pub dw_state_mask : ℕ
  pub sz_info : List ℕ
  pub u_timeout : ℕ
  pub sz_info_title : List ℕ
  pub dw_info_flags : ℕ

pub record CrjTrayIcon : Type 0 where
  pub h_wnd : ℕ
  pub u_id : ℕ
  pub u_callback_message : ℕ
  pub h_icon : ℕ
  pub sz_tip : List ℕ
  pub sz_info : List ℕ
  pub u_timeout : ℕ
  pub sz_info_title : List ℕ
  pub dw_info_flags : ℕ

-- `count` of the slots that `icons` points to are in use. The slots hold the icons themselves.
pub record CrjTrayData : Type 0 where
  pub count : ℕ
  pub icons : List CrjTrayIcon

-- What the tray does to the outside: a message posted to a window, the broadcast of
-- `TaskbarCreated`, a call of the Lua function `shell.tray.publish`, and an icon's memory freed.
pub data Effect : Type 0 where
  post_message : (h_wnd msg wp lp : ℕ) → Effect
  broadcast_taskbar_created : Effect
  publish : (event icon_index flags : ℕ) → Effect
  free_icon : CrjTrayIcon → Effect

-- `word & mask` as a condition.
abbrev pub has_flag : ℕ → ℕ → Bool
has_flag word mask = not (bit_and word mask == 0)

-- The string at the start of a buffer: its characters up to the first NUL.
pub c_string : List ℕ → List ℕ
c_string [] = []
c_string (c ∷ cs) = if c == 0 then [] else c ∷ c_string cs

-- TCSCPY into an array of `size` characters: a longer string is cut, and always terminated.
unfoldable pub tcscpy : ℕ → List ℕ → List ℕ
unfolding c_string
tcscpy size src = take (size - 1) (c_string src)

-- `_tcscmp(a, b) == 0` of two strings without their NULs.
pub tcs_eq : List ℕ → List ℕ → Bool
tcs_eq [] [] = true
tcs_eq (c ∷ cs) (d ∷ ds) = c == d && tcs_eq cs ds
tcs_eq _ _ = false

unfoldable pub is_hidden : CrjNotifyIconData → Bool
is_hidden nid =
    has_flag nid.u_flags nif_state
    && not (bit_and (bit_and nid.dw_state nid.dw_state_mask) nis_hidden == 0)

unfoldable pub is_shared_icon : CrjNotifyIconData → Bool
is_shared_icon nid =
    has_flag nid.u_flags nif_state
    && not (bit_and (bit_and nid.dw_state nid.dw_state_mask) nis_shared_icon == 0)
