-- ===== src/Ui/Tray/Cursor.antt =====
-- The cursor of lib/ui/tray.c and the commands that move it.
use cereja.Prelude.{ℕ, ◌<◌, ◌≡◌, Bool, true, ltb, arith, refl}
use cereja.Prelude.Int.{ℤ, pos, negsuc, ◌+ℤ◌, ◌-ℤ◌}
use cereja.Tray.Notify.{nim_delete}
use cereja.Ui.Tray.{is_invalid, next_cursor, prev_cursor, first_cursor, last_cursor, update_cursor}

-- The cursor is CURSOR_INVALID, or the place of one of `count` icons.
abbrev pub is_inside : ℤ → ℕ → Bool
is_inside (pos i) count = ltb i count
is_inside (negsuc n) count = is_invalid (negsuc n)

-- CURSOR_INVALID, or a place from 0.
abbrev pub is_place : ℤ → Bool
is_place (pos i) = true
is_place (negsuc n) = is_invalid (negsuc n)

module _ (c : ℤ) (count : ℕ) (h : is_inside c count ≡ true) where
  pub next_cursor-inside : is_inside (next_cursor c count) count ≡ true
  unfolding next_cursor ◌+ℤ◌ ◌-ℤ◌
  next_cursor-inside = ground arith

  pub prev_cursor-inside : is_inside (prev_cursor c count) count ≡ true
  unfolding prev_cursor ◌+ℤ◌ ◌-ℤ◌
  prev_cursor-inside = ground arith

  pub first_cursor-inside : is_inside (first_cursor c count) count ≡ true
  unfolding first_cursor
  first_cursor-inside = ground arith

  pub last_cursor-inside : is_inside (last_cursor c count) count ≡ true
  unfolding last_cursor ◌-ℤ◌
  last_cursor-inside = ground arith

-- On a cursor that is at an icon, UIC_CURSOR_PREV undoes UIC_CURSOR_NEXT and UIC_CURSOR_NEXT
-- undoes UIC_CURSOR_PREV, also where they go round at an end of the tray.
pub prev_cursor-next_cursor :
    (i count : ℕ)
    → i < count
    → (prev_cursor (next_cursor (pos i) count) count ≡ pos i)
      × (next_cursor (prev_cursor (pos i) count) count ≡ pos i)
unfolding next_cursor prev_cursor ◌+ℤ◌ ◌-ℤ◌
prev_cursor-next_cursor i count h = ground arith

pub inside-place : (c : ℤ) (count : ℕ) → is_inside c count ≡ true → is_place c ≡ true
inside-place (pos i) count h = refl
inside-place (negsuc n) count h = h

-- A message about any event leaves a cursor inside, and NIM_DELETE brings one inside.
pub update_cursor-inside :
    (event : ℕ) (c : ℤ) (count : ℕ)
    → is_inside c count ≡ true
    → is_inside (update_cursor event c count) count ≡ true
unfolding update_cursor ◌-ℤ◌
update_cursor-inside event (pos i) count h = ground arith
update_cursor-inside event (negsuc n) count h = ground arith

pub update_cursor-place :
    (event : ℕ) (c : ℤ) (count : ℕ)
    → is_place c ≡ true
    → is_place (update_cursor event c count) ≡ true
unfolding update_cursor ◌-ℤ◌
update_cursor-place event (pos i) count h = ground arith
update_cursor-place event (negsuc n) count h = ground arith

pub update_cursor-delete :
    (c : ℤ) (count : ℕ)
    → is_place c ≡ true
    → is_inside (update_cursor nim_delete c count) count ≡ true
unfolding update_cursor ◌-ℤ◌
update_cursor-delete (pos i) count h = ground arith
update_cursor-delete (negsuc n) count h = ground arith
