-- ===== src/Tray/TrayData/Cleans.antt =====
-- `TrayData_CleanIcon` and `TrayData_Delete` of lib/shell/tray.c on a well-formed array.
use native.Mathlib.Nat.{zero-add}
use cereja.Prelude.{
  ℕ, ◌≤◌, ◌<◌, ◌≡◌, Bool, false, not, none, some, List, [], ◌∷◌, ◌++◌, take, drop, length,
  length-append, get_elem?, ltb, ltb→lt, ◌==◌, if◌then◌else◌, arith, refl, Bool-cases, inl, inr,
}
use cereja.Prelude.Int.{ℤ, pos, negsuc}
use cereja.Prelude.Slices.{take-append, get_elem?-take_lt, get_elem?-ge, get_elem?-lt}
use cereja.Tray.Notify.{CrjTrayIcon, CrjTrayData, Effect}
use cereja.Tray.TrayData.{clean_icon, compact, target_is_valid}
use cereja.Tray.TrayData.Loops.{clean_loop-compacts}
use cereja.Tray.Live.{
  live, has_key, Distinct, IsWellFormed, live-append-drop, length-live, valid_icons, freed_icons,
  published,
}

module _ (is_window : ℕ → Bool) where
  has_key-valid_icons :
      (w i : ℕ) (xs : List CrjTrayIcon)
      → has_key w i xs ≡ false
      → has_key w i (valid_icons is_window xs) ≡ false
  has_key-valid_icons w i [] h = refl
  has_key-valid_icons w i (x ∷ xs) h = ground (arith, has_key-valid_icons w i xs)

  valid_icons-Distinct : (xs : List CrjTrayIcon) → Distinct xs → Distinct (valid_icons is_window xs)
  valid_icons-Distinct [] d = tt
  valid_icons-Distinct (x ∷ xs) d =
      ground (arith, valid_icons-Distinct xs d.1, has_key-valid_icons x.h_wnd x.u_id xs d.0)

  published-freed_icons : (xs : List CrjTrayIcon) → published (freed_icons is_window xs) ≡ []
  published-freed_icons [] = refl
  published-freed_icons (x ∷ xs) = ground (arith, published-freed_icons xs)

  length-valid_icons-le : (xs : List CrjTrayIcon) → length (valid_icons is_window xs) ≤ length xs
  length-valid_icons-le [] = omega arith
  length-valid_icons-le (x ∷ xs) = ground (arith, length-valid_icons-le xs)

  -- Whether the target is the place of an icon whose window is there.
  abbrev pub is_live_target : ℤ → List CrjTrayIcon → Bool
  is_live_target (negsuc _) xs = false
  is_live_target (pos i) xs = elim (get_elem? xs i) [ none ↦ false | some x ↦ is_window x.h_wnd ]

  -- What a run of `TrayData_CleanIcon` leaves.
  pub record Cleans (d : CrjTrayData) (target : ℤ) : Type 0 where
    pub self : CrjTrayData
    pub cleaned : Bool
    pub freed : List Effect
    pub ran : clean_icon is_window d target ≡ some (self, cleaned, freed)
    pub well_formed : IsWellFormed self
    pub live_is :
        live self
        ≡ (if is_live_target target (live d) then live d else valid_icons is_window (live d))
    pub freed_is :
        freed ≡ (if is_live_target target (live d) then [] else freed_icons is_window (live d))
    pub cleaned_is : cleaned ≡ not (length (live d) == length (live self))

  module _ (d : CrjTrayData) (w : IsWellFormed d) where
    target_is_valid-is_live_target :
        (target : ℤ) → target_is_valid is_window d target ≡ some (is_live_target target (live d))
    unfolding target_is_valid
    target_is_valid-is_live_target (negsuc _) = refl
    target_is_valid-is_live_target (pos i) = elim (Bool-cases (ltb i d.count)) [
      | inl inside ↦
          let h : i < d.count = ltb→lt i d.count inside in
          let (x, e) = get_elem?-lt d.icons i (omega (arith, w.allocated)) in
          ground (arith, e, get_elem?-take_lt d.count d.icons i h)
      | inr outside ↦ ground (arith, get_elem?-ge (live d) i, length-live d w.allocated)
    ]

    compacted :
        (rest : List CrjTrayIcon) × (compact is_window d
          ≡ some (
            record {
              count = length (valid_icons is_window (live d));
              icons = valid_icons is_window (live d) ++ rest;
            },
            not (d.count == length (valid_icons is_window (live d))),
            freed_icons is_window (live d),
          ))
    unfolding compact
    compacted =
        let (rest, ran) =
          clean_loop-compacts is_window [] [] (live d) (drop d.count d.icons) 0 0 [] refl
            (omega arith) in
        let ran' =
          rw
            (
              length-live d w.allocated,
              live-append-drop d,
              zero-add (length (valid_icons is_window (live d))),
            )
            at ran in
        (rest, rw ran')

    -- On a well-formed tray TrayData_CleanIcon leaves just the icons whose window is there, in
    -- their order, frees the others, and says whether any went; it leaves all where the target's
    -- window is there.
    pub clean_icon-Cleans : (target : ℤ) → Cleans d target
    unfolding clean_icon
    clean_icon-Cleans target =
        let (rest, ran) = compacted in
        let vs = valid_icons is_window (live d) in
        let first = target_is_valid-is_live_target target in
        elim (Bool-cases (is_live_target target (live d))) [
          | inl valid ↦ record {
            self = d;
            cleaned = false;
            freed = [];
            ran = rw (first, valid);
            well_formed = w;
            live_is = rw valid;
            freed_is = rw valid;
            cleaned_is = ground arith;
          }
          | inr dead ↦
              let kept : take (length vs) (vs ++ rest) ≡ vs =
                take-append vs rest (length vs) refl in
              record {
                self = record { count = length vs; icons = vs ++ rest };
                cleaned = not (d.count == length vs);
                freed = freed_icons is_window (live d);
                ran = rw (first, dead, ran);
                well_formed = record {
                  allocated = omega (arith, length-append vs rest);
                  distinct = rw kept (valid_icons-Distinct (live d) w.distinct);
                };
                live_is = rw dead kept;
                freed_is = rw dead;
                cleaned_is = rw (kept, length-live d w.allocated);
              }
        ]
