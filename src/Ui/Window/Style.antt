-- ===== src/Ui/Window/Style.antt =====
-- The operations of lib/ui/window.c that change a window's style and transparency, and the walk of a
-- callback through the windows.
pub mod Effects
use Prim.Native.Nat.{bit_and, bit_or}
use cereja.Prelude.{ℕ, ◌-◌, ◌^◌, Bool, true, false, List, [], ◌∷◌, ◌==◌, if◌then◌else◌}
use cereja.Prelude.Int.{ℤ, pos, ltb_ℤ}
use cereja.Ui.Window.Desktop.{
  Os, set_window_pos, Place, no_place, Flag, no_activate, no_move, no_size, no_z_order, set_exstyle,
  set_style, set_layered_attributes, invalidate, World, perform, has, ws_ex_layered,
}
use cereja.Ui.Window.{get_target_window}

-- The two guards on `alpha` in ui_window_set_alpha.
pub clamped : ℤ → ℤ
clamped alpha =
    let at_least = if ltb_ℤ alpha (pos 0) then pos 0 else alpha in
    if ltb_ℤ (pos 255) at_least then pos 255 else at_least

module _ (O : Os) where
  pub ui_window_set_alpha : (alpha : ℤ) → (hwnd : ℕ) → World O → World O
  unfolding get_target_window clamped
  ui_window_set_alpha alpha hwnd w =
      let target = get_target_window O hwnd w in
      let exstyle = O.exstyle w.state target in
      let opaque =
        perform O (set_exstyle target (bit_and exstyle (2 ^ 32 - 1 - ws_ex_layered))) w in
      let layered = perform O (set_exstyle target (bit_or exstyle ws_ex_layered)) w in
      let transparent = perform O (set_layered_attributes target (clamped alpha)) layered in
      perform O (invalidate target) (if has exstyle ws_ex_layered then opaque else transparent)

  pub ui_window_set_style : (style : ℕ) → (hwnd : ℕ) → World O → World O
  unfolding get_target_window
  ui_window_set_style style hwnd w = perform O (set_style (get_target_window O hwnd w) style) w

  pub ui_window_set_exstyle : (style : ℕ) → (hwnd : ℕ) → World O → World O
  unfolding get_target_window
  ui_window_set_exstyle style hwnd w = perform O (set_exstyle (get_target_window O hwnd w) style) w

-- What a call of the callback gives: a Lua value that is true or false, or an error. An error is nil, a
-- string or another Lua value.
pub data Raised : Type 0 where
  raised_nil : Raised
  raised_string : ℕ → Raised
  raised_other : Raised

pub data Answer : Type 0 where
  answer : Bool → Answer
  error : Raised → Answer

-- What is on the top of the stack when EnumWindows returns.
pub data Top : Type 0 where
  callback : Top
  nil : Top
  message : ℕ → Top
  other_value : Top

pub data Enumerated : Type 0 where
  returned : Bool → Enumerated
  lua_error_with : ℕ → Enumerated
  windows_error : Enumerated

-- _ui_window_enumerate_proc: its result, and what it leaves on the stack.
unfoldable pub ui_window_enumerate_proc : Answer → Bool × Top
ui_window_enumerate_proc (answer true) = (true, callback)
ui_window_enumerate_proc (answer false) = (false, nil)
ui_window_enumerate_proc (error raised_nil) = (false, nil)
ui_window_enumerate_proc (error (raised_string m)) = (false, message m)
ui_window_enumerate_proc (error raised_other) = (false, other_value)

-- The branches of ui_window_enumerate.
pub enumerate_result : Bool × Top → Enumerated
enumerate_result (true, top) = returned true
enumerate_result (false, nil) = returned false
enumerate_result (false, message m) = lua_error_with m
enumerate_result (false, _) = windows_error

-- `enum_windows` is EnumWindows, of a procedure: its result, the top of the stack, and the windows that
-- the procedure was called for. The callback answers by `ask`.
unfoldable pub ui_window_enumerate :
    (enum_windows : (ℕ → Bool × Top) → Bool × Top × List ℕ)
    → (ask : ℕ → Answer) → Enumerated × List ℕ
unfolding ui_window_enumerate_proc enumerate_result
ui_window_enumerate enum_windows ask =
    let (result, top, seen) = enum_windows (λ hwnd. ui_window_enumerate_proc (ask hwnd)) in
    (enumerate_result (result, top), seen)
