-- ===== src/Tray/History.antt =====
-- Any sequence of what reaches the tray of lib/shell/tray.c: messages to its window, and calls of
-- `shell.tray.clean_icon`, `move_icon` and `reset_icons`.
use cereja.Prelude.{
  ℕ, ◌≡◌, Bool, Option, none, some, ◌>>=◌, List, [], ◌∷◌, length, ◌==◌, if◌then◌else◌, arith, refl,
  sym, ap, ◌∙◌, inl, inr, Bool-cases,
}
use cereja.Prelude.Int.{ℤ}
use cereja.Tray.Notify.{CrjTrayIcon, CrjTrayData}
use cereja.Tray.TrayData
use cereja.Tray.TrayData.Cleans.{clean_icon-Cleans, is_live_target}
use cereja.Tray.Live.{live, IsWellFormed, length-live, valid_icons}
use cereja.Tray.Window.{WindowMessage, copy_data, create, other, Reply, tray_window_proc}
use cereja.Tray.Window.Refines.{spec_message, tray_message_proc-Replies}
use cereja.Tray.Api.{valid_index, adjust_index, clean_icon, move_icon, reset_icons}
use cereja.Tray.Api.Moves.{place, move_icon-Moves}
use cereja.Tray.Api.MoveElem.{move_elem}
use cereja.Tray.Api.Reorders.{reset_icons-frees}

pub data Request : Type 0 where
  message : WindowMessage → Request
  clean : (is_window : ℕ → Bool) → ℤ → Request
  move : (index dest : ℤ) → Request
  reset : Request

abbrev replied : CrjTrayData → Option Reply → CrjTrayData
replied d none = d
replied d (some r) = r.tray

pub step : CrjTrayData → Request → Option CrjTrayData
step d (message m) = do r ← tray_window_proc d m; some (replied d r)
step d (clean is_window index) = do c ← clean_icon is_window d index; some c.tray
step d (move index dest) = do c ← move_icon d index dest; some c.tray
step d reset = do c ← reset_icons d; some c.tray

pub run : CrjTrayData → List Request → Option CrjTrayData
run d [] = some d
run d (r ∷ rs) = do next ← step d r; run next rs

abbrev spec_move : List CrjTrayIcon → ℤ → ℤ → ℕ → List CrjTrayIcon
spec_move xs index dest count = elim (place index count) [
  | none ↦ xs
  | some i ↦ elim (place dest count) [ none ↦ xs | some j ↦ move_elem i j xs ]
]

-- The list of the icons after a request, without the array.
abbrev pub spec_step : List CrjTrayIcon → Request → List CrjTrayIcon
spec_step xs (message (copy_data dw_data tray_msg nid)) =
    if dw_data == 1 then (spec_message xs tray_msg nid).0 else xs
spec_step xs (message create) = xs
spec_step xs (message other) = xs
spec_step xs (clean is_window index) =
    if valid_index index (length xs)
    then (if is_live_target is_window (adjust_index index (length xs)) xs
        then xs
        else valid_icons is_window xs)
    else xs
spec_step xs (move index dest) = spec_move xs index dest (length xs)
spec_step xs reset = []

abbrev pub spec_run : List CrjTrayIcon → List Request → List CrjTrayIcon
spec_run xs [] = xs
spec_run xs (r ∷ rs) = spec_run (spec_step xs r) rs

-- A run that ends in a well-formed array of these icons.
pub record Ends (ran : Option CrjTrayData) (xs : List CrjTrayIcon) : Type 0 where
  pub tray : CrjTrayData
  pub runs : ran ≡ some tray
  pub well_formed : IsWellFormed tray
  pub live_is : live tray ≡ xs

same : (d : CrjTrayData) → IsWellFormed d → Ends (some d) (live d)
same d w = record { tray = d; runs = refl; well_formed = w; live_is = refl }

step_message :
    (d : CrjTrayData) (w : IsWellFormed d) (m : WindowMessage)
    → Ends (step d (message m)) (spec_step (live d) (message m))
unfolding step tray_window_proc
step_message d w create = same d w
step_message d w other = same d w
step_message d w (copy_data dw_data tray_msg nid) = elim (Bool-cases (dw_data == 1)) [
  | inr foreign ↦ rw foreign (same d w)
  | inl for_tray ↦
      let r = tray_message_proc-Replies d nid w tray_msg in
      rw (for_tray, r.ran)
        (record {
          tray = r.reply.tray;
          runs = refl;
          well_formed = r.well_formed;
          live_is = r.live_is;
        })
]

step_clean :
    (d : CrjTrayData) (w : IsWellFormed d) (is_window : ℕ → Bool) (index : ℤ)
    → Ends (step d (clean is_window index)) (spec_step (live d) (clean is_window index))
unfolding step clean_icon
step_clean d w is_window index = elim (Bool-cases (valid_index index d.count)) [
  | inr invalid ↦ rw (length-live d w.allocated, invalid) (same d w)
  | inl valid ↦
      let c = clean_icon-Cleans is_window d w (adjust_index index d.count) in
      rw (length-live d w.allocated, valid, c.ran)
        (record { tray = c.self; runs = refl; well_formed = c.well_formed; live_is = c.live_is })
]

step-Ends :
    (d : CrjTrayData) (w : IsWellFormed d) (r : Request) → Ends (step d r) (spec_step (live d) r)
unfolding step
step-Ends d w (message m) = step_message d w m
step-Ends d w (clean is_window index) = step_clean d w is_window index
step-Ends d w (move index dest) =
    let m = move_icon-Moves d w index dest in
    record {
      tray = m.called.tray;
      runs = rw m.ran;
      well_formed = m.well_formed;
      live_is = m.live_is ∙ ap (spec_move (live d) index dest) (sym (length-live d w.allocated));
    }
step-Ends d w reset = rw (reset_icons-frees d w.allocated) (record {
  tray = record d { count = 0 };
  runs = refl;
  well_formed = record { allocated = omega arith; distinct = tt };
  live_is = refl;
})

run-Ends :
    (d : CrjTrayData) (w : IsWellFormed d) (rs : List Request)
    → Ends (run d rs) (spec_run (live d) rs)
unfolding run
run-Ends d w [] = same d w
run-Ends d w (r ∷ rs) =
    let s = step-Ends d w r in
    let rest = run-Ends s.tray s.well_formed rs in rw (s.runs, ← s.live_is) rest

-- From the empty tray, any sequence of messages to the tray window and calls of clean_icon,
-- move_icon and reset_icons runs to its end without an access outside the array, keeps the windows
-- and identifiers of the icons distinct, and leaves the icons that the operations on lists give.
pub run-new : (rs : List Request) → Ends (run TrayData.new rs) (spec_run [] rs)
run-new rs = run-Ends TrayData.new (record { allocated = omega arith; distinct = tt }) rs
