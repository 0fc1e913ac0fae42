-- ===== src/Tray/Live.antt =====
-- The abstract tray: the list of the icons in use, and what identifies an icon.
use cereja.Prelude.{
  refl, ℕ, suc, ◌+◌, ◌≤◌, ◌≡◌, Bool, false, ◌&&◌, ◌||◌, Option, none, some, List, [], ◌∷◌, ◌++◌,
  take, drop, length, take-append-drop, ◌==◌, if◌then◌else◌,
}
use cereja.Prelude.Int.{ℤ, pos, negsuc}
use cereja.Prelude.Slices.{length-take_le}
use cereja.Tray.Notify.{CrjNotifyIconData, CrjTrayIcon, CrjTrayData, Effect, free_icon, publish}
use cereja.Tray.TrayData.{matches}

abbrev pub live : CrjTrayData → List CrjTrayIcon
live d = take d.count d.icons

-- Whether an icon of this window and identifier is in the list.
abbrev pub has_key : ℕ → ℕ → List CrjTrayIcon → Bool
has_key w i [] = false
has_key w i (x ∷ xs) = (x.h_wnd == w && x.u_id == i) || has_key w i xs

-- No two icons have the same window and identifier.
abbrev pub Distinct : List CrjTrayIcon → Type 0
Distinct [] = Unit {0}
Distinct (x ∷ xs) = (has_key x.h_wnd x.u_id xs ≡ false) × Distinct xs

-- The place of the first icon that a notification names.
abbrev pub position : CrjNotifyIconData → List CrjTrayIcon → Option ℕ
position nid [] = none
position nid (x ∷ xs) =
    if matches x nid then some 0 else elim (position nid xs) [ none ↦ none | some i ↦ some (suc i) ]

-- The C result for it, `i` slots into the array.
abbrev pub from_position : ℕ → Option ℕ → ℤ
from_position i none = negsuc 0
from_position i (some k) = pos (i + k)

pub record IsWellFormed (d : CrjTrayData) : Type 0 where
  pub allocated : d.count ≤ length d.icons
  pub distinct : Distinct (live d)

-- The slots in use and the others.
pub live-append-drop : (d : CrjTrayData) → live d ++ drop d.count d.icons ≡ d.icons
live-append-drop d = take-append-drop d.count d.icons

pub length-live : (d : CrjTrayData) → d.count ≤ length d.icons → length (live d) ≡ d.count
length-live d h = length-take_le d.count d.icons h

-- The icons whose window is there, and the others.
abbrev pub valid_icons : (ℕ → Bool) → List CrjTrayIcon → List CrjTrayIcon
valid_icons is_window [] = []
valid_icons is_window (x ∷ xs) =
    let rest = valid_icons is_window xs in if is_window x.h_wnd then x ∷ rest else rest

abbrev pub freed_icons : (ℕ → Bool) → List CrjTrayIcon → List Effect
freed_icons is_window [] = []
freed_icons is_window (x ∷ xs) =
    let rest = freed_icons is_window xs in if is_window x.h_wnd then rest else free_icon x ∷ rest

-- The calls of `shell.tray.publish` among the effects: event, icon index and flags.
abbrev pub published : List Effect → List (ℕ × ℕ × ℕ)
published [] = []
published (publish event icon_index flags ∷ es) = (event, icon_index, flags) ∷ published es
published (_ ∷ es) = published es

pub published-append : (es fs : List Effect) → published (es ++ fs) ≡ published es ++ published fs
published-append [] fs = refl
published-append (publish event icon_index flags ∷ es) fs = rw (published-append es fs)
published-append (_ ∷ es) fs = published-append es fs
