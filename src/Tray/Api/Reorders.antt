-- ===== src/Tray/Api/Reorders.antt =====
-- `shell_tray_reset_icons` and `shell_tray_reorder_icons` of lib/shell/tray.c.
use cereja.Prelude.{
  ℕ, zero, suc, ◌+◌, ◌≤◌, ◌≡◌, Option, none, some, ◌>>=◌, List, [], ◌∷◌, ◌++◌, drop, length,
  get_elem?, set, ◌==◌, if◌then◌else◌, arith, refl, sym, ap, ◌∙◌, inl, inr, Bool-cases,
  Option-cases,
}
use cereja.Prelude.Int.{ℤ, pos, ◌-ℤ◌}
use cereja.Prelude.Slices.{set-append, snoc-append, length-snoc, get_elem?-lt}
use cereja.Tray.Notify.{
  CrjTrayIcon, CrjTrayData, Effect, publish, broadcast_taskbar_created, free_icon, nim_delete,
  nim_modify,
}
use cereja.Tray.TrayData
use cereja.Tray.Live.{live, live-append-drop, length-live}
use cereja.Tray.Api.{
  Raised, bad_table_length, called, slot, reset_icons, reorder_loop, reorder_icons,
}

-- The icons freed, the last one first.
abbrev pub freed_back : ℕ → List CrjTrayIcon → List Effect
freed_back zero xs = []
freed_back (suc n) xs = elim (get_elem? xs n) [ none ↦ [] | some x ↦ free_icon x ∷ freed_back n xs ]

-- The icons that a table of places names, or nothing where one of them names no icon.
abbrev pub gather : List CrjTrayIcon → List ℤ → Option (List CrjTrayIcon)
gather xs [] = some []
gather xs (n ∷ table) = do
  i ← slot (n -ℤ pos 1)
  x ← get_elem? xs i
  rest ← gather xs table
  some (x ∷ rest)

gathered :
    (pre : List CrjTrayIcon) (x : CrjTrayIcon) (spare : List CrjTrayIcon)
    (found : Option (List CrjTrayIcon))
    → (found >>= λ xs. some ((pre ++ x ∷ []) ++ (xs ++ spare)))
      ≡ ((found >>= λ rest. some (x ∷ rest)) >>= λ xs. some (pre ++ (xs ++ spare)))
gathered pre x spare none = refl
gathered pre x spare (some xs) = ap some (snoc-append pre x (xs ++ spare))

-- One round of the loop, and what follows it, at an entry that names the slot `at`.
round-gather :
    (icons : List CrjTrayIcon) (i : ℕ) (table : List ℤ) (pre slots spare : List CrjTrayIcon)
    (at : Option ℕ)
    → ((x : CrjTrayIcon)
        → reorder_loop icons (i + 1) table (set slots i x)
          ≡ (gather icons table >>= λ xs. some ((pre ++ x ∷ []) ++ (xs ++ spare))))
    → (at >>= λ k. get_elem? icons k >>= λ x. reorder_loop icons (i + 1) table (set slots i x)) ≡ (
        (at >>= λ k. get_elem? icons k >>= λ x. gather icons table >>= λ rest. some (x ∷ rest))
        >>= λ xs. some (pre ++ (xs ++ spare)))
round-gather icons i table pre slots spare none next = refl
round-gather icons i table pre slots spare (some k) next = elim (Option-cases (get_elem? icons k)) [
  | inl e ↦ rw e refl
  | inr (x, e) ↦ rw e (next x ∙ gathered pre x spare (gather icons table))
]

reorder_loop-gather :
    (icons : List CrjTrayIcon) (table : List ℤ) (pre old spare : List CrjTrayIcon) (i : ℕ)
    → i ≡ length pre
    → length old ≡ length table
    → reorder_loop icons i table (pre ++ (old ++ spare))
      ≡ (gather icons table >>= λ xs. some (pre ++ (xs ++ spare)))
unfolding reorder_loop
reorder_loop-gather icons [] pre [] spare i e h = refl
reorder_loop-gather icons [] pre (y ∷ old) spare i e h = absurd (omega arith)
reorder_loop-gather icons (n ∷ table) pre [] spare i e h = absurd (omega arith)
reorder_loop-gather icons (n ∷ table) pre (y ∷ old) spare i e h =
    round-gather icons i table pre (pre ++ y ∷ (old ++ spare)) spare (slot (n -ℤ pos 1)) (λ x.
      ap (reorder_loop icons (i + 1) table)
        (set-append pre y (old ++ spare) i x e ∙ sym (snoc-append pre x (old ++ spare)))
      ∙ reorder_loop-gather icons table (pre ++ x ∷ []) old spare (i + 1)
          (omega (arith, length-snoc pre x)) (omega arith))

-- What a call of `shell.tray.reorder_icons` leaves.
abbrev pub reordered : CrjTrayData → List CrjTrayIcon → Raised
reordered d xs = called (record {
  tray = record d { icons = xs ++ drop d.count d.icons };
  effects = publish nim_modify 1 0 ∷ [];
})

abbrev rearranged : CrjTrayData → List CrjTrayIcon → Raised
rearranged d slots =
    called (record { tray = record d { icons = slots }; effects = publish nim_modify 1 0 ∷ [] })

finished :
    (d : CrjTrayData) (found : Option (List CrjTrayIcon))
    → ((found >>= λ xs. some (xs ++ drop d.count d.icons)) >>= λ slots. some (rearranged d slots))
      ≡ (found >>= λ xs. some (reordered d xs))
finished d none = refl
finished d (some xs) = refl

-- Where the icons in use lie in the array, shell.tray.reorder_icons of a table as long as the tray
-- puts at each place the icon that the table names there; it is inside the array just where each
-- entry names an icon, from 1. A table of another length is the error, which leaves the icons as
-- they are.
pub reorder_icons-gather :
    (d : CrjTrayData) (table : List ℤ)
    → d.count ≤ length d.icons
    → reorder_icons d table ≡ (
        if length table == d.count
        then (gather (live d) table >>= λ xs. some (reordered d xs))
        else some (bad_table_length d.count (length table)))
unfolding reorder_icons
reorder_icons-gather d table h = elim (Bool-cases (length table == d.count)) [
  | inr other ↦ rw other refl
  | inl same ↦
      let size : length (live d) ≡ length table = length-live d h ∙ ground arith in
      let ran = reorder_loop-gather (live d) table [] (live d) (drop d.count d.icons) 0 refl size in
      rw same (
        ap (λ run. run >>= λ slots. some (rearranged d slots))
          (ap (reorder_loop (live d) 0 table) (sym (live-append-drop d)) ∙ ran)
        ∙ finished d (gather (live d) table))
]

freed_back-suc :
    (n : ℕ) (xs : List CrjTrayIcon) (x : CrjTrayIcon)
    → get_elem? xs n ≡ some x
    → freed_back (suc n) xs ≡ free_icon x ∷ freed_back n xs
freed_back-suc n xs x e = rw (freed_back, e) refl

delete_icons-back :
    (n : ℕ) (xs : List CrjTrayIcon)
    → n ≤ length xs
    → TrayData.delete_icons n xs ≡ some (freed_back n xs)
unfolding TrayData.delete_icons
delete_icons-back zero xs h = refl
delete_icons-back (suc n) xs h =
    let (x, read) = get_elem?-lt xs n (omega arith) in
    rw (freed_back-suc n xs x read, read, delete_icons-back n xs (omega arith)) refl

-- Where the icons in use lie in the array, shell.tray.reset_icons publishes NIM_DELETE, frees each
-- icon in use once, the last first, asks all programs to add their icons again, and leaves no
-- icon.
pub reset_icons-frees :
    (d : CrjTrayData)
    → d.count ≤ length d.icons
    → reset_icons d
      ≡ some (record {
        tray = record d { count = 0 };
        effects =
            publish nim_delete 0 0 ∷ (freed_back d.count d.icons ++ broadcast_taskbar_created ∷ []);
      })
unfolding reset_icons
reset_icons-frees d h = rw (delete_icons-back d.count d.icons h) refl
