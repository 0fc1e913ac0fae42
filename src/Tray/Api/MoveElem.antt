-- ===== src/Tray/Api/MoveElem.antt =====
-- An icon moved in the list of the icons, and the loop of `shell_tray_move_icon` of lib/shell/tray.c
-- that moves it in the array.
use mathlib.Core.List.{append_assoc}
use mathlib.Core.Path.{subst}
use cereja.Prelude.{
  ℕ, zero, suc, ◌+◌, ◌-◌, ◌≤◌, ◌<◌, ◌≡◌, ◌≢◌, false, ◌&&◌, ◌||◌, none, some, List, [], ◌∷◌, ◌++◌,
  take, drop, length, length-append, length-drop, take-append-drop, get_elem?, set, ltb, ◌==◌,
  arith, refl, sym, ap, ◌∙◌, inl, inr, Bool-cases, Option-cases, ltb→lt, lt→ltb,
}
use cereja.Prelude.Slices.{
  get_elem?-append, set-append, cut, remove_at, insert_at, remove_at-append, insert_at-append,
  length-take_le, get_elem?-lt,
}
use cereja.Tray.Notify.{CrjTrayIcon}
use cereja.Tray.Live.{has_key, Distinct}
use cereja.Tray.Api.{move_loop}
use cereja.Tray.Api.MoveLoop.{move_loop-up, move_loop-down}

-- The element at `i` taken out and put in again at `j`.
abbrev pub move_elem : ℕ → ℕ → List CrjTrayIcon → List CrjTrayIcon
move_elem i j xs = elim (get_elem? xs i) [ none ↦ xs | some x ↦ insert_at j x (remove_at i xs) ]

-- An array whose slots in use were moved.
pub record Moved (icons : List CrjTrayIcon) (xs spare : List CrjTrayIcon) (i j : ℕ) : Type 0 where
  pub at : CrjTrayIcon
  pub read : get_elem? icons i ≡ some at
  pub slots : List CrjTrayIcon
  pub ran : move_loop (length xs + 1) i j (ltb i j) icons ≡ some slots
  pub written : set slots j at ≡ move_elem i j xs ++ spare

move_elem-append :
    (pre : List CrjTrayIcon) (x : CrjTrayIcon) (rest pre' post' : List CrjTrayIcon) (i j : ℕ)
    → i ≡ length pre
    → j ≡ length pre'
    → pre ++ rest ≡ pre' ++ post'
    → move_elem i j (pre ++ (x ∷ rest)) ≡ pre' ++ (x ∷ post')
move_elem-append pre x rest pre' post' i j e d same =
    rw (get_elem?-append pre x rest i e, move_elem, remove_at-append pre x rest i e, same)
      (insert_at-append pre' x post' j d)

set_piece :
    (pre : List CrjTrayIcon) (y : CrjTrayIcon) (post spare : List CrjTrayIcon) (j : ℕ)
    (x : CrjTrayIcon)
    → j ≡ length pre
    → set (pre ++ (y ∷ (post ++ spare))) j x ≡ (pre ++ (x ∷ post)) ++ spare
set_piece pre y post spare j x e =
    set-append pre y (post ++ spare) j x e ∙ sym (append_assoc pre (x ∷ post) spare)

module _ (pre mid : List CrjTrayIcon) (x : CrjTrayIcon) (post spare : List CrjTrayIcon)
    (i j : ℕ) where
  Moved-up :
      i ≡ length pre
      → j ≡ i + length mid
      → i < j
      → let xs = pre ++ (x ∷ (mid ++ post)) in Moved (xs ++ spare) xs spare i j
  Moved-up e d up =
      let icons = pre ++ (x ∷ (mid ++ (post ++ spare))) in
      let regroup : (pre ++ (x ∷ (mid ++ post))) ++ spare ≡ icons = simp append_assoc in
      let fuel = length (pre ++ (x ∷ (mid ++ post))) + 1 in
      let (y, ran) =
        move_loop-up fuel pre x mid (post ++ spare) i j e d
          (omega (arith, length-append pre (x ∷ (mid ++ post)), length-append mid post)) in
      record {
        at = x;
        read = rw regroup (get_elem?-append pre x _ i e);
        slots = pre ++ (mid ++ (y ∷ (post ++ spare)));
        ran = rw (regroup, lt→ltb i j up) ran;
        written =
            rw (← append_assoc pre mid (y ∷ (post ++ spare)))
              (set_piece (pre ++ mid) y post spare j x (omega (arith, length-append pre mid)))
            ∙ ap (λ t. t ++ spare)
                (sym (
                  move_elem-append pre x (mid ++ post) (pre ++ mid) post i j e
                    (omega (arith, length-append pre mid)) (sym (append_assoc pre mid post))));
      }

  Moved-down :
      j ≡ length pre
      → i ≡ j + length mid
      → j < i
      → let xs = pre ++ (mid ++ (x ∷ post)) in Moved (xs ++ spare) xs spare i j
  Moved-down e d down =
      let spec : move_elem i j (pre ++ (mid ++ (x ∷ post))) ≡ pre ++ (x ∷ (mid ++ post)) =
        rw (← append_assoc pre mid (x ∷ post)) (
          move_elem-append (pre ++ mid) x post pre (mid ++ post) i j
            (omega (arith, length-append pre mid)) e (append_assoc pre mid post)) in
      let icons = pre ++ (mid ++ (x ∷ (post ++ spare))) in
      let regroup : (pre ++ (mid ++ (x ∷ post))) ++ spare ≡ icons = simp append_assoc in
      let fuel = length (pre ++ (mid ++ (x ∷ post))) + 1 in
      let (y, ran) =
        move_loop-down (length mid) fuel pre mid x (post ++ spare) i j refl e d
          (omega (arith, length-append pre (mid ++ (x ∷ post)), length-append mid (x ∷ post))) in
      record {
        at = x;
        read =
            rw (regroup, ← append_assoc pre mid (x ∷ (post ++ spare)))
              (get_elem?-append (pre ++ mid) x _ i (omega (arith, length-append pre mid)));
        slots = pre ++ (y ∷ (mid ++ (post ++ spare)));
        ran = let later : ltb i j ≡ false = ground arith in rw (regroup, later) ran;
        written =
            rw (← append_assoc mid post spare) (set_piece pre y (mid ++ post) spare j x e)
            ∙ ap (λ t. t ++ spare) (sym spec);
      }

-- Two places in the slots in use, at which the loop moves one up or down.
pub moved :
    (xs spare : List CrjTrayIcon) (i j : ℕ)
    → i < length xs
    → j < length xs
    → i ≢ j
    → Moved (xs ++ spare) xs spare i j
moved xs spare i j hi hj ne =
    let c = cut xs i hi in
    let size = length-append c.pre (c.at ∷ c.post) in
    elim (Bool-cases (ltb i j)) [
      | inl up ↦
          let h : i < j = ltb→lt i j up in
          let long : j - i ≤ length c.post = omega (arith, size, c.index, ap length c.splits) in
          subst (λ z. Moved (z ++ spare) z spare i j)
            (sym (c.splits ∙ rw (take-append-drop (j - i) c.post)))
            (Moved-up c.pre (take (j - i) c.post) c.at (drop (j - i) c.post) spare i j c.index
              (omega (arith, length-take_le (j - i) c.post long)) h)
      | inr down ↦
          let h : j < i = ground arith in
          let kept : length (take j c.pre) ≡ j = length-take_le j c.pre (omega (arith, c.index)) in
          subst (λ z. Moved (z ++ spare) z spare i j)
            (sym (
              c.splits
              ∙ (ap (λ t. t ++ c.at ∷ c.post) (sym (take-append-drop j c.pre))
                  ∙ append_assoc (take j c.pre) (drop j c.pre) (c.at ∷ c.post))))
            (Moved-down (take j c.pre) (drop j c.pre) c.at c.post spare i j (sym kept)
              (omega (arith, length-drop j c.pre, c.index)) h)
    ]

has_key-insert_at :
    (w k j : ℕ) (x : CrjTrayIcon) (xs : List CrjTrayIcon)
    → has_key w k (insert_at j x xs) ≡ (x.h_wnd == w && x.u_id == k || has_key w k xs)
has_key-insert_at w k zero x xs = refl
has_key-insert_at w k (suc j) x [] = refl
has_key-insert_at w k (suc j) x (y ∷ xs) = ground (arith, has_key-insert_at w k j x xs)

has_key-remove_at :
    (w k i : ℕ) (xs : List CrjTrayIcon)
    → has_key w k xs ≡ false
    → has_key w k (remove_at i xs) ≡ false
has_key-remove_at w k i [] h = refl
has_key-remove_at w k zero (y ∷ xs) h = ground arith
has_key-remove_at w k (suc i) (y ∷ xs) h = ground (arith, has_key-remove_at w k i xs)

has_key-read :
    (w k i : ℕ) (xs : List CrjTrayIcon) (x : CrjTrayIcon)
    → has_key w k xs ≡ false
    → get_elem? xs i ≡ some x
    → (x.h_wnd == w && x.u_id == k) ≡ false
has_key-read w k i [] x h e = ground arith
has_key-read w k zero (y ∷ xs) x h e = ground arith
has_key-read w k (suc i) (y ∷ xs) x h e = has_key-read w k i xs x (ground arith) e

remove_at-Distinct :
    (i : ℕ) (xs : List CrjTrayIcon) (x : CrjTrayIcon)
    → Distinct xs
    → get_elem? xs i ≡ some x
    → Distinct (remove_at i xs) × (has_key x.h_wnd x.u_id (remove_at i xs) ≡ false)
remove_at-Distinct i [] x d e = ground arith
remove_at-Distinct zero (y ∷ xs) x d e = ground arith
remove_at-Distinct (suc i) (y ∷ xs) x d e =
    let other = has_key-read y.h_wnd y.u_id i xs x d.0 e in
    let kept = has_key-remove_at y.h_wnd y.u_id i xs d.0 in
    let (rest, missing) = remove_at-Distinct i xs x d.1 e in ((kept, rest), ground arith)

insert_at-Distinct :
    (j : ℕ) (xs : List CrjTrayIcon) (x : CrjTrayIcon)
    → Distinct xs
    → has_key x.h_wnd x.u_id xs ≡ false
    → Distinct (insert_at j x xs)
insert_at-Distinct zero xs x d h = (h, d)
insert_at-Distinct (suc j) [] x d h = (refl, tt)
insert_at-Distinct (suc j) (y ∷ xs) x d h =
    ground (arith, insert_at-Distinct j xs x d.1, has_key-insert_at y.h_wnd y.u_id j x xs)

pub move_elem-Distinct :
    (i j : ℕ) (xs : List CrjTrayIcon) → Distinct xs → Distinct (move_elem i j xs)
move_elem-Distinct i j xs d = elim (Option-cases (get_elem? xs i)) [
  | inl e ↦ rw (move_elem, e) d
  | inr (x, e) ↦
      let (rest, missing) = remove_at-Distinct i xs x d e in
      rw (move_elem, e) (insert_at-Distinct j (remove_at i xs) x rest missing)
]

length-insert_at :
    (j : ℕ) (x : CrjTrayIcon) (xs : List CrjTrayIcon) → length (insert_at j x xs) ≡ length xs + 1
length-insert_at zero x xs = omega arith
length-insert_at (suc j) x [] = refl
length-insert_at (suc j) x (y ∷ xs) = omega (arith, length-insert_at j x xs)

length-remove_at :
    (i : ℕ) (xs : List CrjTrayIcon) → i < length xs → length (remove_at i xs) + 1 ≡ length xs
length-remove_at i [] h = absurd (omega arith)
length-remove_at zero (y ∷ xs) h = omega arith
length-remove_at (suc i) (y ∷ xs) h = omega (arith, length-remove_at i xs (omega arith))

pub length-move_elem :
    (i j : ℕ) (xs : List CrjTrayIcon) → i < length xs → length (move_elem i j xs) ≡ length xs
length-move_elem i j xs h =
    let (x, e) = get_elem?-lt xs i h in
    rw (move_elem, e)
      (omega (arith, length-insert_at j x (remove_at i xs), length-remove_at i xs h))

pub move_elem-same : (i : ℕ) (xs : List CrjTrayIcon) → i < length xs → move_elem i i xs ≡ xs
move_elem-same i xs h =
    let c = cut xs i h in
    subst (λ z. move_elem i i z ≡ z) (sym c.splits)
      (move_elem-append c.pre c.at c.post c.pre c.post i i c.index c.index refl)
