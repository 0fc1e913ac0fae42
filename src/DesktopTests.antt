-- ===== src/DesktopTests.antt =====
-- Windows of lib/ui/window.c and the window of lib/ui/tray.c, on a concrete desktop.
use cereja.Prelude.{List, ◌*◌, length, ℕ, ◌+◌, ◌≡◌, true, false, [], ◌∷◌, refl, ◌==◌, if◌then◌else◌}
use cereja.Prelude.Int.{pos}
use cereja.Tray.Notify.{CrjTrayIcon}
use cereja.Ui.Layout
use cereja.Ui.Layout.Fits.{AllFit, client_of, paint_items-AllFit}
use cereja.Ui.Window.Desktop
use cereja.Ui.Window.Desktop.{Os, ws_visible, ws_ex_topmost, ws_ex_layered}
use cereja.Ui.Window.{get_next_app_window}
use cereja.Ui.Window.Style.{Answer, answer, error, raised_nil, ui_window_set_alpha, returned}
use cereja.Ui.Window.Style.Effects.{all_in_bounds, ui_window_set_alpha-bounds, walk}

-- Four windows, 1 to 4 from the top: the first two are topmost, the third is hidden.
abbrev os : Os
os = record {
  State = ℕ;
  rounds = λ s. 5;
  foreground = λ s. s;
  next_window = λ s h. if h == 4 then 0 else h + 1;
  style = λ s h. if h == 3 then 0 else ws_visible;
  exstyle = λ s h. if h == 1 then ws_ex_topmost else if h == 2 then ws_ex_topmost else 0;
  is_iconic = λ s h. false;
  is_zoomed = λ s h. false;
  is_hung = λ s h. false;
  root = λ s h. h;
  root_owner = λ s h. h;
  last_active_popup = λ s h. h;
  after = λ c s. s;
}

abbrev world : Desktop.World os
world = record { state = 1; calls = [] }

next_is_four : get_next_app_window os 5 2 true world ≡ 4
unfolding get_next_app_window
next_is_four = refl

ui_window_set_alpha-bounds_example :
    all_in_bounds (ui_window_set_alpha os (pos 300) 4 world).calls ≡ true
ui_window_set_alpha-bounds_example = ui_window_set_alpha-bounds os (pos 300) 4 world refl

-- The callback raises nil for window 2.
abbrev ask : ℕ → Answer
ask h = if h == 2 then error raised_nil else answer true

third_not_seen : walk (1 ∷ 2 ∷ 3 ∷ []) ask ≡ (returned false, 1 ∷ 2 ∷ [])
third_not_seen = refl

abbrev metrics : Layout.Metrics
metrics = record {
  edge_width = 2;
  edge_height = 2;
  border_width = 1;
  border_height = 1;
  icon_size = 16;
}

-- A font whose characters are 7 wide and 13 high.
abbrev measures : Layout.Measures
measures = record {
  text_width = λ text. 7 * length text;
  text_height = λ text. 13;
  message_width = 112;
  message_height = 13;
}

abbrev two_icons : List CrjTrayIcon
two_icons =
    record {
      h_wnd = 5;
      u_id = 1;
      u_callback_message = 0;
      h_icon = 8;
      sz_tip = b'a' ∷ b'b' ∷ [];
      sz_info = [];
      u_timeout = 0;
      sz_info_title = [];
      dw_info_flags = 0;
    }
    ∷ record {
      h_wnd = 6;
      u_id = 1;
      u_callback_message = 0;
      h_icon = 0;
      sz_tip = [];
      sz_info = [];
      u_timeout = 0;
      sz_info_title = [];
      dw_info_flags = 0;
    }
    ∷ []

-- The window is 60 wide and 54 high.
paint_items-AllFit_example :
    AllFit metrics 60 54 (Layout.paint_items metrics 16 (pos 1) two_icons (client_of 60 54))
unfolding Layout.window_size
paint_items-AllFit_example = paint_items-AllFit metrics measures two_icons (pos 1) 0
