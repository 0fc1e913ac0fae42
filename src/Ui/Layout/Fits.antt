-- ===== src/Ui/Layout/Fits.antt =====
-- The rectangles that ui_window_paint of lib/ui/tray.c draws in a window that ui_window_resize
-- has sized.
use Prim.{Unit, tt}
use cereja.Prelude.{
  ℕ, suc, ◌+◌, ◌*◌, ◌≤◌, Bool, true, false, List, [], ◌∷◌, ◌++◌, length, ltb, ◌==◌, if◌then◌else◌,
  arith,
}
use cereja.Prelude.Int.{ℤ, pos, ◌+ℤ◌, ◌≤ℤ◌, int_laws, neg_parts}
use cereja.Tray.Notify.{CrjTrayIcon}
use cereja.Ui.Layout.{
  Metrics, Measures, Rect, measure_loop, window_size, Draw, fill_menu, draw_edge, frame_border,
  text_color, draw_message, fill_cursor, draw_icon, draw_no_icon, draw_tip, height_diff, icon_rect,
  tip_rect, cursor_rect, paint_item, next_row, paint_loop, paint_items, item_height, is_at,
}

height_diff-le : (size m : ℕ) → size ≤ m → height_diff size m + size ≤ m
height_diff-le size m le = ground arith

module _ (s : Metrics) (width height : ℕ) where
  -- The rectangle lies inside the border of a window of this size.
  abbrev pub Inside : Rect → Type 0
  Inside r =
      (pos (s.edge_width + s.border_width) ≤ℤ r.left)
      × (pos (s.edge_height + s.border_height) ≤ℤ r.top)
      × (r.right +ℤ pos (s.edge_width + s.border_width) ≤ℤ pos width)
      × (r.bottom +ℤ pos (s.edge_height + s.border_height) ≤ℤ pos height)

  abbrev pub Fits : Draw → Type 0
  Fits (draw_message r) = Inside r
  Fits (fill_cursor r) = Inside r
  Fits (draw_icon icon r) = Inside r
  Fits (draw_no_icon r) = Inside r
  Fits (draw_tip text r) = Inside r
  Fits (fill_menu r) = Inside r
  Fits (draw_edge r) = Inside r
  Fits (frame_border r) = Inside r
  Fits (text_color cursor) = Unit

  abbrev pub AllFit : List Draw → Type 0
  AllFit [] = Unit
  AllFit (d ∷ ds) = Fits d × AllFit ds

  AllFit-append : (ds es : List Draw) → AllFit ds → AllFit es → AllFit (ds ++ es)
  AllFit-append [] es left right = right
  AllFit-append (d ∷ ds) es (first, left) right = (first, AllFit-append ds es left right)

  -- A row that leaves room for `n` rows from it on.
  record Row (item_max_height n : ℕ) (r : Rect) : Type 0 where
    left : pos (s.edge_width + s.border_width + 8) ≤ℤ r.left
    right : r.right +ℤ pos (s.edge_width + s.border_width + 8) ≤ℤ pos width
    square : r.left +ℤ pos (s.edge_width + s.border_width + s.icon_size) ≤ℤ pos width
    top : pos (s.edge_height + s.border_height + 4) ≤ℤ r.top
    bottom : r.bottom ≤ℤ r.top +ℤ pos item_max_height
    below :
        r.top +ℤ pos (s.edge_height + s.border_height + n * item_height item_max_height)
        ≤ℤ pos (height + 4)

  cursor-Inside : (m n : ℕ) (r : Rect) → Row m (suc n) r → Inside (cursor_rect r)
  cursor-Inside m n r row = (
    omega (int_laws, row.left),
    omega (int_laws, row.top),
    omega (int_laws, row.right),
    omega (int_laws, row.bottom, row.below),
  )

  icon-Inside : (m n : ℕ) (r : Rect) → s.icon_size ≤ m → Row m (suc n) r → Inside (icon_rect s m r)
  icon-Inside m n r le row = (
    omega (int_laws, row.left),
    omega (int_laws, row.top),
    omega (int_laws, row.square),
    omega (int_laws, row.below, height_diff-le s.icon_size m le),
  )

  tip-Inside : (m n : ℕ) (r : Rect) → Row m (suc n) r → Inside (tip_rect s r)
  tip-Inside m n r row = (
    omega (int_laws, row.left),
    omega (int_laws, row.top),
    omega (int_laws, row.right),
    omega (int_laws, row.bottom, row.below),
  )

  next-Row : (m n : ℕ) (r : Rect) → Row m (suc n) r → Row m n (next_row m r)
  next-Row m n r row = record {
    left = row.left;
    right = row.right;
    square = row.square;
    top = omega (int_laws, row.top);
    bottom = omega int_laws;
    below = omega (int_laws, row.below);
  }

  either-AllFit :
      (b : Bool) (ds es : List Draw) → AllFit ds → AllFit es → AllFit (if b then ds else es)
  either-AllFit true ds es left right = left
  either-AllFit false ds es left right = right

  either-Fits : (b : Bool) (d e : Draw) → Fits d → Fits e → Fits (if b then d else e)
  either-Fits true d e left right = left
  either-Fits false d e left right = right

  paint_item-AllFit :
      (m n : ℕ) (at_cursor : Bool) (icon : CrjTrayIcon) (r : Rect)
      → s.icon_size ≤ m
      → Row m (suc n) r
      → AllFit (paint_item s m at_cursor icon r)
  unfolding paint_item
  paint_item-AllFit m n at_cursor icon r le row =
      let square = icon-Inside m n r le row in
      let drawn =
        either-Fits (icon.h_icon == 0) (draw_no_icon (icon_rect s m r))
          (draw_icon icon.h_icon (icon_rect s m r)) square square in
      let tip = tip-Inside m n r row in
      either-AllFit at_cursor _ _ (cursor-Inside m n r row, (tt, (drawn, (tip, (tt, tt)))))
        (drawn, (tip, tt))

  paint_loop-AllFit :
      (m : ℕ) (cursor : ℤ) (i : ℕ) (icons : List CrjTrayIcon) (r : Rect)
      → s.icon_size ≤ m
      → Row m (length icons) r
      → AllFit (paint_loop s m cursor i icons r)
  unfolding paint_loop
  paint_loop-AllFit m cursor i [] r le row = tt
  paint_loop-AllFit m cursor i (icon ∷ icons) r le row =
      AllFit-append (paint_item s m (is_at i cursor) icon r) _
        (paint_item-AllFit m (length icons) (is_at i cursor) icon r le row)
        (paint_loop-AllFit m cursor (i + 1) icons (next_row m r) le
          (next-Row m (length icons) r row))

le-greater : (a b : ℕ) → a ≤ (if ltb a b then b else a)
le-greater a b = ground arith

measure_loop-height :
    (m : Measures) (icons : List CrjTrayIcon) (width height : ℕ)
    → height ≤ (measure_loop m icons width height).1
unfolding measure_loop
measure_loop-height m [] width height = omega arith
measure_loop-height m (icon ∷ icons) width height =
    let w = m.text_width icon.sz_tip in
    let h = m.text_height icon.sz_tip in
    omega (
      arith,
      measure_loop-height m icons (if ltb width w then w else width)
          (if ltb height h then h else height),
      le-greater height h,
    )

-- The client area of a window of this size.
abbrev pub client_of : (width height : ℕ) → Rect
client_of width height = record {
  left = pos 0;
  top = pos 0;
  right = pos width;
  bottom = pos height;
}

-- Once ui_window_resize has given the window its size, and the client area is of that size, all
-- that ui_window_paint draws for the icons and for the cursor, wherever it is, and the message
-- where there is no icon, lies inside the border.
pub paint_items-AllFit :
    (s : Metrics) (m : Measures) (icons : List CrjTrayIcon) (cursor : ℤ) (old_height : ℕ)
    → let (width, height, item_max_height) = window_size s m icons old_height in
      AllFit s width height (paint_items s item_max_height cursor icons (client_of width height))
unfolding window_size paint_items
paint_items-AllFit s m [] cursor old_height = (
  (
    omega (int_laws, neg_parts),
    omega (int_laws, neg_parts),
    omega (int_laws, neg_parts),
    omega (int_laws, neg_parts),
  ),
  tt,
)
paint_items-AllFit s m (icon ∷ icons) cursor old_height =
    let (width, height) = measure_loop m (icon ∷ icons) 0 s.icon_size in
    paint_loop-AllFit s _ _ height cursor 0 (icon ∷ icons) _
      (measure_loop-height m (icon ∷ icons) 0 s.icon_size)
      (record {
        left = omega (int_laws, neg_parts);
        right = omega (int_laws, neg_parts);
        square = omega (int_laws, neg_parts);
        top = omega (int_laws, neg_parts);
        bottom = omega (int_laws, neg_parts);
        below = omega (int_laws, neg_parts);
      })
