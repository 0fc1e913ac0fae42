-- ===== src/Tray/Api/MoveLoop.antt =====
-- The loop of `shell_tray_move_icon` over an array that is cut into pieces.
use mathlib.Core.List.{append_assoc}
use mathlib.Core.Path.{subst}
use cereja.Prelude.{
  ℕ, zero, suc, ◌+◌, ◌-◌, ◌<◌, ◌≡◌, Bool, true, false, some, List, [], ◌∷◌, ◌++◌, length,
  length-append, get_elem?, set, ◌==◌, if◌then◌else◌, arith, refl, sym, ap, ◌∙◌,
}
use cereja.Prelude.Slices.{get_elem?-append, set-append, snoc-append, length-snoc, unsnoc}
use cereja.Tray.Notify.{CrjTrayIcon}
use cereja.Tray.Api.{move_loop}

stop :
    (fuel i : ℕ) (up : Bool) (icons : List CrjTrayIcon) (dest : ℕ)
    → dest ≡ i
    → move_loop (suc fuel) i dest up icons ≡ some icons
unfolding move_loop
stop fuel i up icons dest e = ground arith

step :
    (fuel i : ℕ) (up : Bool) (icons : List CrjTrayIcon) (dest next : ℕ) (x : CrjTrayIcon)
    → (i == dest) ≡ false
    → (if up then i + 1 else i - 1) ≡ next
    → get_elem? icons next ≡ some x
    → move_loop (suc fuel) i dest up icons ≡ move_loop fuel next dest up (set icons i x)
unfolding move_loop
step fuel i up icons dest next x ne n e = rw (n, ne, e)

pub move_loop-up :
    (fuel : ℕ) (pre : List CrjTrayIcon) (x : CrjTrayIcon) (mid post : List CrjTrayIcon) (i dest : ℕ)
    → i ≡ length pre
    → dest ≡ i + length mid
    → length mid < fuel
    → (y : CrjTrayIcon) × (move_loop fuel i dest true (pre ++ (x ∷ (mid ++ post)))
        ≡ some (pre ++ (mid ++ (y ∷ post))))
move_loop-up zero pre x mid post i dest e d f = absurd (omega arith)
move_loop-up (suc fuel) pre x [] post i dest e d f =
    (x, stop fuel i true (pre ++ (x ∷ post)) dest (omega arith))
move_loop-up (suc fuel) pre x (m ∷ mid) post i dest e d f =
    let (y, later) =
      move_loop-up fuel (pre ++ m ∷ []) m mid post (i + 1) dest (omega (arith, length-snoc pre m))
        (omega arith) (omega arith) in
    (
      y,
      step fuel i true _ dest (i + 1) m (ground arith) refl read
          ∙ rw write (simp snoc-append at later),
    )
  where
    read : get_elem? (pre ++ (x ∷ (m ∷ (mid ++ post)))) (i + 1) ≡ some m
    read = rw (← snoc-append pre x (m ∷ (mid ++ post))) (
        get_elem?-append (pre ++ x ∷ []) m (mid ++ post) (i + 1) (omega (arith, length-snoc pre x)))

    write : set (pre ++ (x ∷ (m ∷ (mid ++ post)))) i m ≡ pre ++ (m ∷ (m ∷ (mid ++ post)))
    write = set-append pre x (m ∷ (mid ++ post)) i m e

module _ (fuel : ℕ) (pre init : List CrjTrayIcon) (l x : CrjTrayIcon) (post : List CrjTrayIcon)
    (i : ℕ) (e : i ≡ length pre + length init + 1) where
  read_down : get_elem? (pre ++ (init ++ (l ∷ (x ∷ post)))) (i - 1) ≡ some l
  read_down =
      rw (← append_assoc pre init (l ∷ (x ∷ post))) (
        get_elem?-append (pre ++ init) l (x ∷ post) (i - 1) (omega (arith, length-append pre init)))

  write_down : set (pre ++ (init ++ (l ∷ (x ∷ post)))) i l ≡ pre ++ (init ++ (l ∷ (l ∷ post)))
  write_down =
      rw (← regroup (x ∷ post), set-append (pre ++ (init ++ l ∷ [])) x post i l size)
        (regroup (l ∷ post))
    where
      regroup :
          (rest : List CrjTrayIcon)
          → (pre ++ (init ++ l ∷ [])) ++ rest ≡ pre ++ (init ++ (l ∷ rest))
      regroup rest = simp append_assoc

      size : i ≡ length (pre ++ (init ++ l ∷ []))
      size = omega (arith, length-append pre (init ++ l ∷ []), length-snoc init l)

pub move_loop-down :
    (n fuel : ℕ) (pre mid : List CrjTrayIcon) (x : CrjTrayIcon) (post : List CrjTrayIcon)
    (i dest : ℕ)
    → n ≡ length mid
    → dest ≡ length pre
    → i ≡ dest + n
    → n < fuel
    → (y : CrjTrayIcon) × (move_loop fuel i dest false (pre ++ (mid ++ (x ∷ post)))
        ≡ some (pre ++ (y ∷ (mid ++ post))))
move_loop-down n zero pre mid x post i dest l d e f = absurd (omega arith)
move_loop-down zero (suc fuel) pre [] x post i dest l d e f =
    (x, stop fuel i false _ dest (omega arith))
move_loop-down zero (suc fuel) pre (m ∷ mid) x post i dest l d e f = absurd (omega arith)
move_loop-down (suc n) (suc fuel) pre [] x post i dest l d e f = absurd (omega arith)
move_loop-down (suc n) (suc fuel) pre (m ∷ mid) x post i dest l d e f =
    let (init, last, s) = unsnoc m mid in
    let size : length init ≡ n = omega (arith, ap length s, length-snoc init last) in
    let (y, later) =
      move_loop-down n fuel pre init last (last ∷ post) (i - 1) dest (sym size) d (omega arith)
        (omega arith) in
    subst
      (λ z.
        (y : CrjTrayIcon) × (move_loop (suc fuel) i dest false (pre ++ (z ++ (x ∷ post)))
          ≡ some (pre ++ (y ∷ (z ++ post)))))
      (sym s)
      (
        y,
        rw append_assoc (
            step fuel i false _ dest (i - 1) last (ground arith) refl
              (read_down fuel pre init last x post i (omega arith))
            ∙ rw (write_down fuel pre init last x post i (omega arith))
                (later ∙ ap (λ t. some (pre ++ (y ∷ t))) (sym (snoc-append init last post)))),
      )
