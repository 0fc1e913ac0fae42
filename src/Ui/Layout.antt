-- ===== src/Ui/Layout.antt =====
-- The size of the tray's window and what is drawn in it: ui_window_resize and ui_window_paint of
-- lib/ui/tray.c. Windows draws; its measures of texts are a parameter.
pub mod Fits
use cereja.Prelude.{
  ℕ, suc, ◌+◌, ◌-◌, ◌*◌, ◌/◌, Bool, true, false, not, List, [], ◌∷◌, ◌++◌, length, ltb, ◌==◌,
  if◌then◌else◌,
}
use cereja.Prelude.Int.{ℤ, pos, negsuc, neg, ◌+ℤ◌, ◌-ℤ◌}
use cereja.Tray.Notify.{CrjTrayIcon}

-- The static variables for sizes; those of Windows are no less than 0.
pub record Metrics : Type 0 where
  pub edge_width : ℕ
  pub edge_height : ℕ
  pub border_width : ℕ
  pub border_height : ℕ
  pub icon_size : ℕ

abbrev pub item_padding_width : ℕ
item_padding_width = 8

abbrev pub item_padding_height : ℕ
item_padding_height = 4

abbrev pub icon_tip_gap : ℕ
icon_tip_gap = 8

-- The width and the height that DrawText with DT_CALCRECT gives for a text, and for NO_ICON_MESSAGE.
pub record Measures : Type 0 where
  pub text_width : List ℕ → ℕ
  pub text_height : List ℕ → ℕ
  pub message_width : ℕ
  pub message_height : ℕ

pub record Rect : Type 0 where
  pub left : ℤ
  pub top : ℤ
  pub right : ℤ
  pub bottom : ℤ

abbrev pub inflate_rect : (dx dy : ℤ) → Rect → Rect
inflate_rect dx dy r = record {
  left = r.left -ℤ dx;
  top = r.top -ℤ dy;
  right = r.right +ℤ dx;
  bottom = r.bottom +ℤ dy;
}

-- The loop of ui_window_resize that finds the greatest width and the greatest height of the items.
unfoldable pub measure_loop : Measures → List CrjTrayIcon → (width height : ℕ) → ℕ × ℕ
measure_loop m [] width height = (width, height)
measure_loop m (icon ∷ icons) width height =
    let w = m.text_width icon.sz_tip in
    let h = m.text_height icon.sz_tip in
    measure_loop m icons (if ltb width w then w else width) (if ltb height h then h else height)

abbrev pub item_height : (item_max_height : ℕ) → ℕ
item_height item_max_height = item_padding_height + item_max_height + item_padding_height

-- The width and the height around what is inside the border.
abbrev pub whole_width : Metrics → (inside : ℕ) → ℕ
whole_width s inside =
    s.edge_width + s.border_width + item_padding_width + inside + item_padding_width
    + s.border_width + s.edge_width

abbrev pub whole_height : Metrics → (inside : ℕ) → ℕ
whole_height s inside = s.edge_height + s.border_height + inside + s.border_height + s.edge_height

-- `whole_width` and `whole_height` of ui_window_resize and s_ItemMaxHeight afterwards, which stays
-- where there is no icon.
unfoldable pub window_size :
    Metrics → Measures → List CrjTrayIcon → (item_max_height : ℕ) → ℕ × ℕ × ℕ
unfolding measure_loop
window_size s m [] item_max_height = (
  whole_width s m.message_width,
  whole_height s (item_padding_height + m.message_height + item_padding_height),
  item_max_height,
)
window_size s m (icon ∷ icons) item_max_height =
    let (width, height) = measure_loop m (icon ∷ icons) 0 s.icon_size in
    (
      whole_width s (s.icon_size + icon_tip_gap + width),
      whole_height s (length (icon ∷ icons) * item_height height),
      height,
    )

-- The quotient by 2 of C, which is cut to 0.
pub half : ℤ → ℤ
half (pos n) = pos (n / 2)
half (negsuc n) = neg (suc n / 2)

-- The rectangle of MoveWindow, in the middle of a monitor of this size.
pub moved_to : (monitor_width monitor_height : ℤ) → (width height : ℕ) → Rect
unfolding half
moved_to monitor_width monitor_height width height =
    let x = half (monitor_width -ℤ pos width) in
    let y = half (monitor_height -ℤ pos height) in
    record { left = x; top = y; right = x +ℤ pos width; bottom = y +ℤ pos height }

-- The calls that draw. The colour is that of texts.
pub data Draw : Type 0 where
  fill_menu : Rect → Draw
  draw_edge : Rect → Draw
  frame_border : Rect → Draw
  text_color : (cursor : Bool) → Draw
  draw_message : Rect → Draw
  fill_cursor : Rect → Draw
  draw_icon : (icon : ℕ) → Rect → Draw
  draw_no_icon : Rect → Draw
  draw_tip : List ℕ → Rect → Draw

abbrev pub height_diff : (icon_size item_max_height : ℕ) → ℕ
height_diff icon_size item_max_height =
    if ltb icon_size item_max_height then (item_max_height - icon_size) / 2 else 0

-- The square of an icon in the row `r`.
abbrev pub icon_rect : Metrics → (item_max_height : ℕ) → Rect → Rect
icon_rect s item_max_height r =
    let top = r.top +ℤ pos (height_diff s.icon_size item_max_height) in
    record {
      left = r.left;
      top = top;
      right = r.left +ℤ pos s.icon_size;
      bottom = top +ℤ pos s.icon_size;
    }

abbrev pub tip_rect : Metrics → Rect → Rect
tip_rect s r = record r { left = r.left +ℤ pos (s.icon_size + icon_tip_gap) }

abbrev pub cursor_rect : Rect → Rect
cursor_rect r =
    inflate_rect (pos (item_padding_width * 2 / 3)) (pos (item_padding_height * 2 / 3)) r

-- The calls for one icon, in the row `r`.
pub paint_item :
    Metrics → (item_max_height : ℕ) → (at_cursor : Bool) → CrjTrayIcon → Rect → List Draw
paint_item s item_max_height at_cursor icon r =
    let square = icon_rect s item_max_height r in
    let body =
      (if icon.h_icon == 0 then draw_no_icon square else draw_icon icon.h_icon square)
      ∷ draw_tip icon.sz_tip (tip_rect s r)
      ∷ [] in
    if at_cursor
    then fill_cursor (cursor_rect r) ∷ text_color true ∷ (body ++ (text_color false ∷ []))
    else body

-- The row below `r`.
abbrev pub next_row : (item_max_height : ℕ) → Rect → Rect
next_row item_max_height r =
    let top = r.top +ℤ pos (item_height item_max_height) in
    record r { top = top; bottom = top +ℤ pos item_max_height }

abbrev pub is_at : (i : ℕ) → (cursor : ℤ) → Bool
is_at i (pos c) = i == c
is_at i (negsuc c) = false

-- The loop of ui_window_paint, from the icon `i` on.
pub paint_loop :
    Metrics → (item_max_height : ℕ) → (cursor : ℤ) → (i : ℕ) → List CrjTrayIcon → Rect → List Draw
unfolding paint_item
paint_loop s item_max_height cursor i [] r = []
paint_loop s item_max_height cursor i (icon ∷ icons) r =
    paint_item s item_max_height (is_at i cursor) icon r
    ++ paint_loop s item_max_height cursor (i + 1) icons (next_row item_max_height r)

-- The client area without its edge.
abbrev pub inside_edge : Metrics → Rect → Rect
inside_edge s client = inflate_rect (neg s.edge_width) (neg s.edge_height) client

abbrev pub inside_border : Metrics → Rect → Rect
inside_border s client =
    inflate_rect (neg s.border_width) (neg s.border_height) (inside_edge s client)

abbrev pub inside_padding : Metrics → Rect → Rect
inside_padding s client =
    inflate_rect (neg item_padding_width) (neg item_padding_height) (inside_border s client)

-- What is drawn in the client area for the icons, or for none.
pub paint_items :
    Metrics → (item_max_height : ℕ) → (cursor : ℤ) → List CrjTrayIcon → Rect → List Draw
unfolding paint_loop
paint_items s item_max_height cursor [] client = draw_message (inside_padding s client) ∷ []
paint_items s item_max_height cursor (icon ∷ icons) client =
    let r = inside_padding s client in
    paint_loop s item_max_height cursor 0 (icon ∷ icons)
      (record r { bottom = r.top +ℤ pos item_max_height })

pub ui_window_paint :
    Metrics → (item_max_height : ℕ) → (cursor : ℤ) → List CrjTrayIcon → (client : Rect) → List Draw
unfolding paint_items
ui_window_paint s item_max_height cursor icons client =
    text_color false
    ∷ fill_menu client
    ∷ draw_edge client
    ∷ frame_border (inside_edge s client)
    ∷ paint_items s item_max_height cursor icons client
