-- ===== src/Ui/Monitor/WorkArea.antt =====
-- The work area that ui.monitor.set_workarea sets.
use cereja.Prelude.{◌≡◌, ◌↔◌, refl, ap, false, ◌&&◌, none, some, arith}
use cereja.Prelude.Int.{ℤ, pos, pos_part, neg_part, ◌+ℤ◌, ◌-ℤ◌, eq_of_parts, +ℤ_parts, -ℤ_parts}
use cereja.Ui.Monitor.{
  Rect, Placement, placement_of, MonitorInfo, get_info, VirtualScreen, get_vscreen_placement,
  is_zero, work_area, set_workarea,
}

Rect-eq :
    (a b : Rect) → a.left ≡ b.left → a.top ≡ b.top → a.right ≡ b.right → a.bottom ≡ b.bottom → a ≡ b
Rect-eq a b p q r s = ground arith

Placement-eq :
    (a b : Placement) → a.x ≡ b.x → a.y ≡ b.y → a.width ≡ b.width → a.height ≡ b.height → a ≡ b
Placement-eq a b p q r s = ground arith

width-add : (right left : ℤ) → (right -ℤ left) +ℤ left ≡ right
width-add right left =
    eq_of_parts _ _ (omega (arith, +ℤ_parts (right -ℤ left) left, -ℤ_parts right left))

-- Some number of the placement is not zero.
abbrev pub IsGiven : Placement → Type 0
IsGiven p = (is_zero p.x && is_zero p.y && is_zero p.width && is_zero p.height) ≡ false

work_area-placement_of :
    (screen : VirtualScreen) (rect : Rect)
    → IsGiven (placement_of rect)
    → work_area screen (placement_of rect) ≡ rect
unfolding work_area placement_of
work_area-placement_of screen rect given =
    rw given
      (Rect-eq _ _ refl refl (width-add rect.right rect.left) (width-add rect.bottom rect.top))

-- The placement and the work area that ui.monitor.get_info gives, handed to
-- ui.monitor.set_workarea, set the rectangles that they were made of, where not all four numbers
-- are 0.
pub set_workarea-get_info :
    (screen : VirtualScreen) (info : MonitorInfo)
    → IsGiven (get_info info).placement
    → IsGiven (get_info info).workarea
    → (set_workarea screen (some (get_info info).placement) ≡ info.monitor)
      × (set_workarea screen (some (get_info info).workarea) ≡ info.work)
unfolding get_info set_workarea
set_workarea-get_info screen info p q =
    (work_area-placement_of screen info.monitor p, work_area-placement_of screen info.work q)

-- Where the left edge is subtracted twice, the width is as before just for an edge at 0.
sub-sub : (a b : ℤ) → ((a -ℤ b) -ℤ b ≡ a) ↔ (b ≡ pos 0)
sub-sub a b = (
  λ e.
      eq_of_parts b (pos 0)
        (omega (arith, -ℤ_parts (a -ℤ b) b, -ℤ_parts a b, ap pos_part e, ap neg_part e)),
  λ z.
      eq_of_parts ((a -ℤ b) -ℤ b) a
        (omega (arith, -ℤ_parts (a -ℤ b) b, -ℤ_parts a b, ap pos_part z, ap neg_part z)),
)

-- ui.monitor.set_workarea without an argument sets the placement that get_vscreen_placement gives
-- just where the left and the top edge of the virtual screen are at 0.
pub set_workarea-default :
    (screen : VirtualScreen)
    → (placement_of (set_workarea screen none) ≡ get_vscreen_placement screen)
      ↔ ((screen.x_virtual_screen ≡ pos 0) × (screen.y_virtual_screen ≡ pos 0))
unfolding set_workarea work_area placement_of get_vscreen_placement
set_workarea-default screen = (
  λ e. (
    (sub-sub screen.cx_virtual_screen screen.x_virtual_screen).0
        (ap (λ (p : Placement). p.width) e),
    (sub-sub screen.cy_virtual_screen screen.y_virtual_screen).0
        (ap (λ (p : Placement). p.height) e),
  ),
  λ z.
      Placement-eq _ _ refl refl ((sub-sub screen.cx_virtual_screen screen.x_virtual_screen).1 z.0)
        ((sub-sub screen.cy_virtual_screen screen.y_virtual_screen).1 z.1),
)
