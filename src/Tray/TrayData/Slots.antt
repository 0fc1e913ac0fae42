-- ===== src/Tray/TrayData/Slots.antt =====
-- Where `TrayData_FindIconIndex` of lib/shell/tray.c finds an icon in a well-formed array, and what
-- lies around it.
use mathlib.Core.List.{append_assoc}
use cereja.Prelude.{
  suc, ◌+◌, ◌-◌, ◌≤◌, ◌≡◌, some, List, [], ◌∷◌, ◌++◌, drop, length, length-append, get_elem?, arith,
  refl, sym, ap, ◌∙◌,
}
use cereja.Prelude.Int.{pos, negsuc}
use cereja.Prelude.Slices.{get_elem?-append}
use cereja.Tray.Notify.{CrjNotifyIconData, CrjTrayIcon, CrjTrayData}
use cereja.Tray.TrayData.{find_icon_index, shift_loop}
use cereja.Tray.TrayData.Loops.{find_loop-position, shift_loop-shifts}
use cereja.Tray.Live.{live, position, from_position, live-append-drop, length-live}
use cereja.Tray.Spec.{Found, Missing}

pub find_icon_index-position :
    (d : CrjTrayData) (nid : CrjNotifyIconData)
    → d.count ≤ length d.icons
    → find_icon_index d nid ≡ some (from_position 0 (position nid (live d)))
unfolding find_icon_index
find_icon_index-position d nid h =
    rw (length-live d h, live-append-drop d) at
      (find_loop-position [] (live d) (drop d.count d.icons) nid 0 refl)

module _ (d : CrjTrayData) (nid : CrjNotifyIconData) (h : d.count ≤ length d.icons) where
  pub find-Missing : Missing nid (live d) → find_icon_index d nid ≡ some (negsuc 0)
  find-Missing m = find_icon_index-position d nid h ∙ rw m.index

  module _ (f : Found nid (live d)) where
    pub spare : List CrjTrayIcon
    spare = drop d.count d.icons

    pub find-Found : find_icon_index d nid ≡ some (pos (length f.pre))
    find-Found = find_icon_index-position d nid h ∙ rw f.index (ground arith)

    pub slots : d.icons ≡ f.pre ++ (f.at ∷ (f.post ++ spare))
    unfolding spare
    slots = sym (live-append-drop d) ∙ rw (f.splits, append_assoc)

    pub count-found : d.count ≡ length f.pre + suc (length f.post)
    count-found =
        omega (arith, length-live d h, ap length f.splits, length-append f.pre (f.at ∷ f.post))

    pub read-found : get_elem? d.icons (length f.pre) ≡ some f.at
    read-found = rw slots (get_elem?-append f.pre f.at (f.post ++ spare) (length f.pre) refl)

    pub shift-found :
        (y : CrjTrayIcon) × (shift_loop (d.count - (length f.pre + 1)) (length f.pre + 1) d.icons
          ≡ some (f.pre ++ (f.post ++ (y ∷ spare))))
    shift-found =
        let (y, ran) = shift_loop-shifts f.pre f.at f.post spare (length f.pre) refl in
        let rounds : d.count - (length f.pre + 1) ≡ length f.post = omega (arith, count-found) in
        (y, rw (slots, rounds) ran)
