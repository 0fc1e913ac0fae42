-- ===== src/Ui/Window/Style/Effects.antt =====
-- What the operations of lib/ui/window.c pass to the window system: transparencies, and the
-- windows that a callback sees.
use cereja.Prelude.{
  ℕ, ◌≡◌, Bool, true, false, ◌&&◌, Option, none, some, List, [], ◌∷◌, arith, inl, inr, Bool-cases,
  all_true,
}
use cereja.Prelude.Int.{ℤ, pos, ◌≤ℤ◌, leb_ℤ}
use cereja.Ui.Window.Desktop.{Os, Call, set_layered_attributes, World, has, ws_ex_layered}
use cereja.Ui.Window.{get_target_window}
use cereja.Ui.Window.Style.{
  clamped, ui_window_set_alpha, Answer, enumerate_result, Top, callback, answer, error, raised_nil,
  raised_string, raised_other, Enumerated, returned, lua_error_with, windows_error,
}

-- The transparencies that are passed to SetLayeredWindowAttributes are from 0 to 255.
abbrev pub in_bounds : Call → Bool
in_bounds (set_layered_attributes hwnd alpha) = leb_ℤ (pos 0) alpha && leb_ℤ alpha (pos 255)
in_bounds _ = true

abbrev pub all_in_bounds : List Call → Bool
all_in_bounds [] = true
all_in_bounds (c ∷ cs) = in_bounds c && all_in_bounds cs

pub clamped-bounds : (alpha : ℤ) → (pos 0 ≤ℤ clamped alpha) × (clamped alpha ≤ℤ pos 255)
unfolding clamped
clamped-bounds alpha = (ground arith, ground arith)

clamped-in_bounds :
    (hwnd : ℕ) (alpha : ℤ) → in_bounds (set_layered_attributes hwnd (clamped alpha)) ≡ true
unfolding clamped
clamped-in_bounds hwnd alpha = ground arith

pub clamped_same : (alpha : ℤ) → pos 0 ≤ℤ alpha → alpha ≤ℤ pos 255 → clamped alpha ≡ alpha
unfolding clamped
clamped_same alpha low high = ground arith

-- Whatever integer ui.window.set_alpha is called with, the transparencies that Windows has got
-- stay from 0 to 255.
pub ui_window_set_alpha-bounds :
    (O : Os) (alpha : ℤ) (hwnd : ℕ) (w : World O)
    → all_in_bounds w.calls ≡ true
    → all_in_bounds (ui_window_set_alpha O alpha hwnd w).calls ≡ true
unfolding ui_window_set_alpha
ui_window_set_alpha-bounds O alpha hwnd w h =
    elim (Bool-cases (has (O.exstyle w.state (get_target_window O hwnd w)) ws_ex_layered)) [
      | inl e ↦ rw e h
      | inr e ↦ rw e (all_true (clamped-in_bounds (get_target_window O hwnd w) alpha) h)
    ]

-- One call of a procedure, before the calls for the windows below.
abbrev called : Bool × Top → (hwnd : ℕ) → Bool × Top × List ℕ → Bool × Top × List ℕ
called (true, top) hwnd (result, last, seen) = (result, last, hwnd ∷ seen)
called (false, top) hwnd below = (false, top, hwnd ∷ [])

-- EnumWindows as it is documented: it calls the procedure for one window after the other, until the
-- procedure returns FALSE.
abbrev pub called_in_order : List ℕ → (proc : ℕ → Bool × Top) → Bool × Top × List ℕ
called_in_order [] proc = (true, callback, [])
called_in_order (hwnd ∷ hwnds) proc = called (proc hwnd) hwnd (called_in_order hwnds proc)

-- What ui.window.enumerate gives at once for an answer of its callback.
abbrev ends_with : Answer → Option Enumerated
ends_with (answer true) = none
ends_with (answer false) = some (returned false)
ends_with (error raised_nil) = some (returned false)
ends_with (error (raised_string m)) = some (lua_error_with m)
ends_with (error raised_other) = some windows_error

abbrev before_walk : Option Enumerated → (hwnd : ℕ) → Enumerated × List ℕ → Enumerated × List ℕ
before_walk none hwnd (result, seen) = (result, hwnd ∷ seen)
before_walk (some result) hwnd below = (result, hwnd ∷ [])

-- The walk through the windows: the answers in their order, up to the first that ends it.
abbrev pub walk : List ℕ → (ask : ℕ → Answer) → Enumerated × List ℕ
walk [] ask = (returned true, [])
walk (hwnd ∷ hwnds) ask = before_walk (ends_with (ask hwnd)) hwnd (walk hwnds ask)

abbrev result_of : Bool × Top × List ℕ → Enumerated × List ℕ
result_of (result, top, seen) = (enumerate_result (result, top), seen)
