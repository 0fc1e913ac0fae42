-- ===== src/Ui/Window.antt =====
-- lib/ui/window.c: the operations on a window, and the walks through the windows that lie one upon the
-- other. The window system is a parameter: it answers questions and is changed by calls.
pub mod Desktop
pub mod Style
pub mod Walks
pub mod Names
use cereja.Prelude.{
  ℕ, zero, suc, ◌+◌, Bool, true, false, not, ◌&&◌, ◌||◌, List, [], ◌∷◌, ◌==◌, if◌then◌else◌,
}
use cereja.Prelude.Int.{ℤ, pos}
use cereja.Ui.Window.Desktop.{
  Os, Call, post_message, set_window_pos, show_window, set_foreground, Place, no_place, at_top,
  at_bottom, at_topmost, at_notopmost, behind, Flag, async_window_pos, no_activate, no_move,
  no_owner_z_order, no_size, no_z_order, World, perform, has, ws_visible, ws_disabled, ws_sizebox,
  ws_ex_topmost, ws_ex_toolwindow, sc_restore, sc_minimize, sc_maximize, wm_syscommand,
  sw_showminnoactive,
}

module _ (O : Os) where
  -- A window is given by its handle; 0 is NULL.
  unfoldable pub get_target_window : (hwnd : ℕ) → World O → ℕ
  get_target_window hwnd w = if hwnd == 0 then O.foreground w.state else hwnd

  unfoldable pub is_topmost : (hwnd : ℕ) → World O → Bool
  is_topmost hwnd w = has (O.exstyle w.state hwnd) ws_ex_topmost

  -- The tests on a window in the loop of GetNextAppWindow.
  pub is_app_window : (nontopmost_only : Bool) → World O → (hwnd : ℕ) → Bool
  unfolding is_topmost
  is_app_window nontopmost_only w hwnd =
      let style = O.style w.state hwnd in
      if not (has style ws_visible) || has style ws_disabled
      then false
      else if has (O.exstyle w.state hwnd) ws_ex_toolwindow
      then false
      else if nontopmost_only && is_topmost hwnd w
      then false
      else true

  -- GetNextAppWindow, in as many rounds as `rounds`; NULL where they do not end.
  unfoldable pub get_next_app_window :
      (rounds : ℕ) → (base_hwnd : ℕ) → (nontopmost_only : Bool) → World O → ℕ
  unfolding is_app_window
  get_next_app_window zero base_hwnd nontopmost_only w = 0
  get_next_app_window (suc rounds) base_hwnd nontopmost_only w =
      let next_hwnd = O.next_window w.state base_hwnd in
      let later = get_next_app_window rounds next_hwnd nontopmost_only w in
      if next_hwnd == 0
      then 0
      else if is_app_window nontopmost_only w next_hwnd
      then next_hwnd
      else later

  -- The loop of GetBottomTopmostWindow.
  pub bottom_topmost : (rounds : ℕ) → (prev_hwnd next_hwnd : ℕ) → World O → ℕ
  unfolding is_topmost
  bottom_topmost zero prev_hwnd next_hwnd w = 0
  bottom_topmost (suc rounds) prev_hwnd next_hwnd w =
      let below = O.next_window w.state next_hwnd in
      let later = bottom_topmost rounds next_hwnd below w in
      if not (is_topmost next_hwnd w) then prev_hwnd else if below == 0 then 0 else later

  pub get_bottom_topmost_window : (base_hwnd : ℕ) → World O → ℕ
  unfolding bottom_topmost
  get_bottom_topmost_window base_hwnd w = bottom_topmost (O.rounds w.state) 0 base_hwnd w

  pub ui_window_minimizedp : (hwnd : ℕ) → World O → Bool
  unfolding get_target_window
  ui_window_minimizedp hwnd w = O.is_iconic w.state (get_target_window hwnd w)

  pub ui_window_maximizedp : (hwnd : ℕ) → World O → Bool
  unfolding get_target_window
  ui_window_maximizedp hwnd w = O.is_zoomed w.state (get_target_window hwnd w)

  pub ui_window_resizablep : (hwnd : ℕ) → World O → Bool
  unfolding get_target_window
  ui_window_resizablep hwnd w = has (O.style w.state (get_target_window hwnd w)) ws_sizebox

  pub ui_window_always_on_topp : (hwnd : ℕ) → World O → Bool
  unfolding get_target_window is_topmost
  ui_window_always_on_topp hwnd w = is_topmost (get_target_window hwnd w) w

  -- `root` of ui_window_lower, `rootowner` and `lap` of ui_window_raise: NULL changes nothing.
  abbrev pub unless_null : (found hwnd : ℕ) → ℕ
  unless_null found hwnd = if found == 0 then hwnd else found

  -- What both branches of ui_window_lower do with the foreground window.
  pub leave_foreground : (hwnd : ℕ) → (nontopmost_only : Bool) → World O → World O
  unfolding get_next_app_window
  leave_foreground hwnd nontopmost_only w =
      let next_hwnd = get_next_app_window (O.rounds w.state) hwnd nontopmost_only w in
      if hwnd == O.foreground w.state
      then (if next_hwnd == 0 then w else perform O (set_foreground next_hwnd) w)
      else w

  abbrev pub to_bottom : (hwnd : ℕ) → (sync : Bool) → Call
  to_bottom hwnd sync = set_window_pos hwnd at_bottom (pos 0) (pos 0) (pos 0) (pos 0) (
      if sync
      then no_activate ∷ no_move ∷ no_owner_z_order ∷ no_size ∷ []
      else async_window_pos ∷ no_activate ∷ no_move ∷ no_owner_z_order ∷ no_size ∷ [])

  -- The window that ui_window_lower acts on.
  unfoldable pub lowered_window : (hwnd : ℕ) → World O → ℕ
  unfolding get_target_window
  lowered_window hwnd w =
      let target = get_target_window hwnd w in unless_null (O.root w.state target) target

  pub ui_window_lower : (hwnd : ℕ) → (sync : Bool) → World O → World O
  unfolding lowered_window is_topmost leave_foreground
  ui_window_lower hwnd sync w =
      let target = lowered_window hwnd w in
      if not (is_topmost target w)
      then perform O (to_bottom target sync) (leave_foreground target false w)
      else leave_foreground target true w

  -- A topmost window, before ui_window_minimize lowers it.
  pub place_at_bottom_of_topmost : (hwnd : ℕ) → World O → World O
  unfolding is_topmost get_bottom_topmost_window
  place_at_bottom_of_topmost hwnd w =
      let bottom_hwnd = get_bottom_topmost_window hwnd w in
      if is_topmost hwnd w
      then (if bottom_hwnd == 0
          then w
          else perform O
              (set_window_pos hwnd (behind bottom_hwnd) (pos 0) (pos 0) (pos 0) (pos 0)
                (async_window_pos ∷ no_activate ∷ no_move ∷ no_owner_z_order ∷ no_size ∷ []))
              w)
      else w

  -- ui_window_minimize with the alternative method.
  pub minimize_by_showing : (hwnd : ℕ) → World O → World O
  unfolding place_at_bottom_of_topmost ui_window_lower
  minimize_by_showing hwnd w =
      let placed = place_at_bottom_of_topmost hwnd w in
      let lowered = ui_window_lower hwnd (not (O.is_hung placed.state hwnd)) placed in
      perform O (show_window hwnd sw_showminnoactive) lowered

  pub ui_window_minimize : (hwnd : ℕ) → (use_alt_method : Bool) → World O → World O
  unfolding get_target_window minimize_by_showing
  ui_window_minimize hwnd use_alt_method w =
      let target = get_target_window hwnd w in
      if O.is_iconic w.state target
      then perform O (post_message target wm_syscommand sc_restore 0) w
      else if not use_alt_method
      then perform O (post_message target wm_syscommand sc_minimize 0) w
      else minimize_by_showing target w

  pub ui_window_maximize : (hwnd : ℕ) → World O → World O
  unfolding get_target_window
  ui_window_maximize hwnd w =
      let target = get_target_window hwnd w in
      let command = if O.is_zoomed w.state target then sc_restore else sc_maximize in
      perform O (post_message target wm_syscommand command 0) w

  pub ui_window_restore : (hwnd : ℕ) → World O → World O
  unfolding get_target_window
  ui_window_restore hwnd w =
      perform O (post_message (get_target_window hwnd w) wm_syscommand sc_restore 0) w

  pub ui_window_resize : (width height : ℤ) → (hwnd : ℕ) → World O → World O
  unfolding get_target_window
  ui_window_resize width height hwnd w =
      perform O
        (set_window_pos (get_target_window hwnd w) no_place (pos 0) (pos 0) width height
          (async_window_pos ∷ no_activate ∷ no_move ∷ no_owner_z_order ∷ no_z_order ∷ []))
        w

  pub ui_window_move : (x y : ℤ) → (hwnd : ℕ) → World O → World O
  unfolding get_target_window
  ui_window_move x y hwnd w =
      perform O
        (set_window_pos (get_target_window hwnd w) no_place x y (pos 0) (pos 0)
          (async_window_pos ∷ no_activate ∷ no_owner_z_order ∷ no_size ∷ no_z_order ∷ []))
        w

  pub ui_window_set_always_on_top : (hwnd : ℕ) → World O → World O
  unfolding get_target_window is_topmost
  ui_window_set_always_on_top hwnd w =
      let target = get_target_window hwnd w in
      let place = if is_topmost target w then at_notopmost else at_topmost in
      perform O
        (set_window_pos target place (pos 0) (pos 0) (pos 0) (pos 0)
          (async_window_pos ∷ no_activate ∷ no_move ∷ no_owner_z_order ∷ no_size ∷ []))
        w

  -- The window that ui_window_raise acts on.
  pub raised_window : (hwnd : ℕ) → World O → ℕ
  unfolding get_target_window
  raised_window hwnd w =
      let target = get_target_window hwnd w in
      let owner = unless_null (O.root_owner w.state target) target in
      unless_null (O.last_active_popup w.state owner) owner

  pub ui_window_raise : (hwnd : ℕ) → World O → World O
  unfolding raised_window
  ui_window_raise hwnd w =
      let target = raised_window hwnd w in
      if not (target == O.foreground w.state)
      then perform O (set_foreground target) w
      else perform O
          (set_window_pos target at_top (pos 0) (pos 0) (pos 0) (pos 0)
            (async_window_pos ∷ no_activate ∷ no_move ∷ no_owner_z_order ∷ no_size ∷ []))
          w

  pub ui_window_post_message : (hwnd message wp lp : ℕ) → World O → World O
  unfolding get_target_window
  ui_window_post_message hwnd message wp lp w =
      perform O (post_message (get_target_window hwnd w) message wp lp) w
