-- ===== src/Ui/Tray/Settles.antt =====
-- The messages posted to the window of lib/ui/tray.c, when they are handled.
use cereja.Prelude.{
  ℕ, ◌≤◌, ◌≡◌, Bool, true, false, ◌||◌, Option, some, ◌>>=◌, List, [], ◌∷◌, ◌++◌, ◌==◌,
  if◌then◌else◌, arith, refl, inl, inr, Bool-cases,
}
use cereja.Prelude.Int.{ℤ, pos, negsuc}
use cereja.Tray.Notify.{nim_delete}
use cereja.Tray.Live.{IsWellFormed}
use cereja.Tray.Window.Refines.{told}
use cereja.Tray.Api.{Called}
use cereja.Ui.Tray.{
  UiTray, subscriber, after_call, drain, update_cursor, hide_window, window_pos_changed,
  cursor_invalid,
}
use cereja.Ui.Tray.Cursor.{
  is_inside, is_place, inside-place, update_cursor-inside, update_cursor-place,
  update_cursor-delete,
}
use cereja.Ui.Tray.Tells.{has_delete, has_delete-append, Tells}

pub record IsSettled (u : UiTray) : Type 0 where
  pub well_formed : IsWellFormed u.tray
  pub inside : is_inside u.cursor u.tray.count ≡ true

-- A state before the posted messages are handled: a cursor outside has NIM_DELETE to come.
pub record Settles (run : Option UiTray) : Type 0 where
  pub next : UiTray
  pub ran : run ≡ some next
  pub well_formed : IsWellFormed next.tray
  pub place : is_place next.cursor ≡ true
  pub settled : (is_inside next.cursor next.tray.count || has_delete next.queue) ≡ true

pub drain-tray : (events : List ℕ) (u : UiTray) → (drain events u).tray ≡ u.tray
unfolding drain
drain-tray [] u = refl
drain-tray (event ∷ events) u =
    drain-tray events (record u { cursor = update_cursor event u.cursor u.tray.count })

pub drain-inside :
    (events : List ℕ) (u : UiTray)
    → is_place u.cursor ≡ true
    → (is_inside u.cursor u.tray.count || has_delete events) ≡ true
    → is_inside (drain events u).cursor u.tray.count ≡ true
unfolding drain
drain-inside [] u p h = ground arith
drain-inside (event ∷ events) u p h =
    let next = record u { cursor = update_cursor event u.cursor u.tray.count } in
    drain-inside events next (update_cursor-place event u.cursor u.tray.count p)
      (elim (Bool-cases (is_inside u.cursor u.tray.count)) [
        | inl inside ↦ rw (update_cursor-inside event u.cursor u.tray.count inside) refl
        | inr outside ↦ elim (Bool-cases (event == nim_delete)) [
          | inl e ↦
              let same : event ≡ nim_delete = ground arith in
              rw (same, update_cursor-delete u.cursor u.tray.count p) refl
          | inr e ↦ let later : has_delete events ≡ true = ground arith in ground arith
        ]
      ])

inside-grows : (c : ℤ) (m n : ℕ) → m ≤ n → is_inside c m ≡ true → is_inside c n ≡ true
inside-grows (pos i) m n le h = ground arith
inside-grows (negsuc i) m n le h = h

-- The call made from the window: the events that it publishes are posted.
pub call_Settles :
    (u : UiTray) {run : Option Called}
    → Tells u.tray run
    → is_inside u.cursor u.tray.count ≡ true
    → Settles (run >>= λ called. some (after_call u called))
unfolding subscriber
call_Settles u t inside = record {
  next = after_call u t.called;
  ran = rw t.ran refl;
  well_formed = t.well_formed;
  place = inside-place u.cursor u.tray.count inside;
  settled = elim t.told_so [
    | inl more ↦ rw (inside-grows u.cursor u.tray.count t.called.tray.count more inside) refl
    | inr told ↦
        let posted : has_delete (u.queue ++ subscriber t.called.effects) ≡ true =
          rw (has_delete-append u.queue (subscriber t.called.effects), told) (ground arith) in
        rw posted (ground arith)
  ];
}

pub whichever :
    (b : Bool) {yes_run no_run : Option UiTray}
    → Settles yes_run
    → Settles no_run
    → Settles (if b then yes_run else no_run)
whichever true s t = s
whichever false s t = t

-- A state of the window in which the cursor is inside.
pub inside_Settles :
    (v : UiTray) → IsWellFormed v.tray → is_inside v.cursor v.tray.count ≡ true → Settles (some v)
inside_Settles v w inside = record {
  next = v;
  ran = refl;
  well_formed = w;
  place = inside-place v.cursor v.tray.count inside;
  settled = rw inside refl;
}

pub window_pos-Settles :
    (hides : Bool) (v : UiTray) → IsSettled v → Settles (some (window_pos_changed hides v))
unfolding window_pos_changed
window_pos-Settles true v s =
    inside_Settles (record v { cursor = cursor_invalid }) s.well_formed refl
window_pos-Settles false v s = inside_Settles v s.well_formed s.inside

pub hide-Settles : (v : UiTray) → IsSettled v → Settles (some (hide_window v))
unfolding hide_window
hide-Settles v s =
    window_pos-Settles v.visible (record v { visible = false })
      (record { well_formed = s.well_formed; inside = s.inside })
