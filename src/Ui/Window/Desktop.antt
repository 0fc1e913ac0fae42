-- ===== src/Ui/Window/Desktop.antt =====
-- What lib/ui/window.c uses of the window system.
use Prim.Native.Nat.{bit_and}
use cereja.Prelude.{ℕ, Bool, not, List, ◌∷◌, ◌==◌}
use cereja.Prelude.Int.{ℤ}

-- The constants of the Windows headers.
abbrev pub ws_visible : ℕ
ws_visible = 0x10000000

abbrev pub ws_disabled : ℕ
ws_disabled = 0x08000000

abbrev pub ws_sizebox : ℕ
ws_sizebox = 0x00040000

abbrev pub ws_ex_topmost : ℕ
ws_ex_topmost = 0x00000008

abbrev pub ws_ex_toolwindow : ℕ
ws_ex_toolwindow = 0x00000080

abbrev pub ws_ex_layered : ℕ
ws_ex_layered = 0x00080000

abbrev pub wm_syscommand : ℕ
wm_syscommand = 0x0112

abbrev pub sc_minimize : ℕ
sc_minimize = 0xF020

abbrev pub sc_maximize : ℕ
sc_maximize = 0xF030

abbrev pub sc_restore : ℕ
sc_restore = 0xF120

abbrev pub sw_showminnoactive : ℕ
sw_showminnoactive = 7

-- The test `style & flag`.
abbrev pub has : (style flag : ℕ) → Bool
has style flag = not (bit_and style flag == 0)

-- The window that SetWindowPos places a window behind; `no_place` is NULL with SWP_NOZORDER.
pub data Place : Type 0 where
  no_place : Place
  at_top : Place
  at_bottom : Place
  at_topmost : Place
  at_notopmost : Place
  behind : ℕ → Place

-- The SWP_ flags.
pub data Flag : Type 0 where
  async_window_pos : Flag
  no_activate : Flag
  no_move : Flag
  no_owner_z_order : Flag
  no_size : Flag
  no_z_order : Flag

-- The calls that change a window.
pub data Call : Type 0 where
  post_message : (hwnd message wp lp : ℕ) → Call
  set_window_pos : (hwnd : ℕ) → Place → (x y width height : ℤ) → List Flag → Call
  show_window : (hwnd command : ℕ) → Call
  set_foreground : (hwnd : ℕ) → Call
  set_style : (hwnd style : ℕ) → Call
  set_exstyle : (hwnd style : ℕ) → Call
  set_layered_attributes : (hwnd : ℕ) → (alpha : ℤ) → Call
  invalidate : (hwnd : ℕ) → Call

-- `next_window` is GetNextWindow with GW_HWNDNEXT, and `rounds` more than the number of windows. `root`
-- and `root_owner` are GetAncestor.
pub record Os : Type 1 where
  pub State : Type 0
  pub rounds : State → ℕ
  pub foreground : State → ℕ
  pub next_window : State → (hwnd : ℕ) → ℕ
  pub style : State → (hwnd : ℕ) → ℕ
  pub exstyle : State → (hwnd : ℕ) → ℕ
  pub is_iconic : State → (hwnd : ℕ) → Bool
  pub is_zoomed : State → (hwnd : ℕ) → Bool
  pub is_hung : State → (hwnd : ℕ) → Bool
  pub root : State → (hwnd : ℕ) → ℕ
  pub root_owner : State → (hwnd : ℕ) → ℕ
  pub last_active_popup : State → (hwnd : ℕ) → ℕ
  pub after : Call → State → State

module _ (O : Os) where
  -- The window system, and the calls that it has got, the last one first.
  pub record World : Type 0 where
    pub state : O.State
    pub calls : List Call

  abbrev pub perform : Call → World → World
  perform call w = record { state = O.after call w.state; calls = call ∷ w.calls }
