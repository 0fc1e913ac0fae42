-- ===== src/Ui/Monitor.antt =====
-- The rectangles of lib/ui/monitor.c: what ui.monitor gives of a monitor, and the work area that it sets.
pub mod WorkArea
use cereja.Prelude.{
  ℕ, zero, suc, ◌+◌, Bool, true, false, ◌&&◌, Option, none, some, List, [], ◌∷◌, ◌++◌, length,
  if◌then◌else◌,
}
use cereja.Prelude.Int.{ℤ, pos, negsuc, ◌+ℤ◌, ◌-ℤ◌}

pub record Rect : Type 0 where
  pub left : ℤ
  pub top : ℤ
  pub right : ℤ
  pub bottom : ℤ

-- RECT_WIDTH and RECT_HEIGHT.
pub rect_width : Rect → ℤ
rect_width rect = rect.right -ℤ rect.left

pub rect_height : Rect → ℤ
rect_height rect = rect.bottom -ℤ rect.top

-- The four numbers of a table in the format {llll}.
pub record Placement : Type 0 where
  pub x : ℤ
  pub y : ℤ
  pub width : ℤ
  pub height : ℤ

pub placement_of : Rect → Placement
unfolding rect_width rect_height
placement_of rect = record {
  x = rect.left;
  y = rect.top;
  width = rect_width rect;
  height = rect_height rect;
}

-- The answer of GetMonitorInfo.
pub record MonitorInfo : Type 0 where
  pub monitor : Rect
  pub work : Rect
  pub flags : ℕ

-- The table that get_info gives, by its fields.
pub record InfoTable : Type 0 where
  pub placement : Placement
  pub workarea : Placement
  pub flags : ℕ

unfoldable pub get_info : MonitorInfo → InfoTable
unfolding placement_of
get_info info = record {
  placement = placement_of info.monitor;
  workarea = placement_of info.work;
  flags = info.flags;
}

-- SM_XVIRTUALSCREEN, SM_YVIRTUALSCREEN, SM_CXVIRTUALSCREEN and SM_CYVIRTUALSCREEN.
pub record VirtualScreen : Type 0 where
  pub x_virtual_screen : ℤ
  pub y_virtual_screen : ℤ
  pub cx_virtual_screen : ℤ
  pub cy_virtual_screen : ℤ

unfoldable pub get_vscreen_placement : VirtualScreen → Placement
get_vscreen_placement screen = record {
  x = screen.x_virtual_screen;
  y = screen.y_virtual_screen;
  width = screen.cx_virtual_screen;
  height = screen.cy_virtual_screen;
}

abbrev pub is_zero : ℤ → Bool
is_zero (pos zero) = true
is_zero (pos (suc n)) = false
is_zero (negsuc n) = false

-- The four variables after Crj_ParseArgs with "| {llll}": zeros where there is no argument.
abbrev pub arguments : Option Placement → Placement
arguments none = record { x = pos 0; y = pos 0; width = pos 0; height = pos 0 }
arguments (some given) = given

-- The rectangle that is handed to SystemParametersInfo with SPI_SETWORKAREA.
pub work_area : VirtualScreen → Placement → Rect
work_area screen given =
    if is_zero given.x && is_zero given.y && is_zero given.width && is_zero given.height
    then (record {
      left = screen.x_virtual_screen;
      top = screen.y_virtual_screen;
      right = screen.cx_virtual_screen -ℤ screen.x_virtual_screen;
      bottom = screen.cy_virtual_screen -ℤ screen.y_virtual_screen;
    })
    else (record {
      left = given.x;
      top = given.y;
      right = given.width +ℤ given.x;
      bottom = given.height +ℤ given.y;
    })

unfoldable pub set_workarea : VirtualScreen → Option Placement → Rect
unfolding work_area
set_workarea screen given = work_area screen (arguments given)

-- The table that `enum_monitor_proc` fills: each monitor behind its last element.
pub enum_monitor_proc : (monitor : ℕ) → (table : List (ℕ × ℕ)) → List (ℕ × ℕ)
enum_monitor_proc monitor table = table ++ (length table + 1, monitor) ∷ []

pub enumerate : List ℕ → (table : List (ℕ × ℕ)) → List (ℕ × ℕ)
unfolding enum_monitor_proc
enumerate [] table = table
enumerate (m ∷ ms) table = enumerate ms (enum_monitor_proc m table)

unfoldable pub find_all : List ℕ → List (ℕ × ℕ)
unfolding enumerate
find_all monitors = enumerate monitors []
