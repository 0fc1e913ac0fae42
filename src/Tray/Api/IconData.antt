-- ===== src/Tray/Api/IconData.antt =====
-- `shell_tray_get_icon_data` of lib/shell/tray.c. A text is given as it is stored; its conversion to
-- UTF-8 is left out.
use cereja.Prelude.{ℕ, ◌≡◌, Option, none, some, ◌>>=◌, List, get_elem?, if◌then◌else◌, refl}
use cereja.Prelude.Int.{ℤ}
use cereja.Prelude.Slices.{get_elem?-take_lt}
use cereja.Tray.Notify.{CrjTrayIcon, CrjTrayData}
use cereja.Tray.Live.{live}
use cereja.Tray.Api.{valid_index, adjust_index, slot}
use cereja.Tray.Api.Moves.{place, place-lt, outside, inside, placed}

-- The member that is asked for by its name.
pub data Member : Type 0 where
  h_wnd u_id u_callback_message h_icon sz_tip sz_info u_timeout sz_info_title : Member
  dw_info_flags : Member
  other : Member

-- What is given to Lua, or the error that is raised.
pub data IconData : Type 0 where
  userdata : ℕ → IconData
  integer : ℕ → IconData
  string : List ℕ → IconData
  invalid_index : IconData
  invalid_member : IconData

unfoldable pub member_data : CrjTrayIcon → Member → IconData
member_data icon h_wnd = userdata icon.h_wnd
member_data icon u_id = integer icon.u_id
member_data icon u_callback_message = integer icon.u_callback_message
member_data icon h_icon = userdata icon.h_icon
member_data icon sz_tip = string icon.sz_tip
member_data icon sz_info = string icon.sz_info
member_data icon u_timeout = integer icon.u_timeout
member_data icon sz_info_title = string icon.sz_info_title
member_data icon dw_info_flags = integer icon.dw_info_flags
member_data icon other = invalid_member

unfoldable pub get_icon_data : CrjTrayData → ℤ → Member → Option IconData
unfolding valid_index adjust_index member_data
get_icon_data tray index member =
    if valid_index index tray.count
    then (slot (adjust_index index tray.count) >>= λ i.
        get_elem? tray.icons i >>= λ icon. some (member_data icon member))
    else some invalid_index

-- shell.tray.get_icon_data gives a member of the icon at the place that the index names, from
-- either end of the icons in use, and raises its error just where the index names no place.
pub get_icon_data-live :
    (d : CrjTrayData) (index : ℤ) (member : Member)
    → get_icon_data d index member ≡ elim (place index d.count) [
      | none ↦ some invalid_index
      | some i ↦ get_elem? (live d) i >>= λ icon. some (member_data icon member)
    ]
unfolding get_icon_data
get_icon_data-live d index member = elim (placed index d.count) [
  | outside v p ↦ rw (v, p) refl
  | inside i v s p ↦
      rw (v, s, p, get_elem?-take_lt d.count d.icons i (place-lt index d.count p)) refl
]
