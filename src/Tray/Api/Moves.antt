-- ===== src/Tray/Api/Moves.antt =====
-- `shell_tray_move_icon` of lib/shell/tray.c on a well-formed array.
use mathlib.Core.Path.{subst}
use cereja.Prelude.{
  ℕ, suc, ◌+◌, ◌-◌, ◌<◌, ◌≡◌, ◌≢◌, true, false, ◌&&◌, Option, none, some, [], ◌∷◌, drop, length,
  length-append, set, leb, ltb, ◌==◌, if◌then◌else◌, arith, refl, ap, sym, ◌∙◌, inl, inr,
  Bool-cases, Option-cases,
}
use cereja.Prelude.Int.{ℤ, pos, negsuc}
use cereja.Prelude.Slices.{take-append}
use cereja.Tray.Notify.{CrjTrayData, publish, nim_modify}
use cereja.Tray.Live.{Distinct, live, IsWellFormed, live-append-drop, length-live}
use cereja.Tray.Api.{Called, valid_index, adjust_index, slot, move_icon, move, move_loop}
use cereja.Tray.Api.MoveElem.{
  move_elem, Moved, moved, move_elem-Distinct, length-move_elem, move_elem-same,
}

-- The place that a Lua index names: from 1 at the front, or from -1 at the back.
abbrev pub place : ℤ → ℕ → Option ℕ
place (pos n) count = if leb 1 n && leb n count then some (n - 1) else none
place (negsuc m) count = if leb (suc m) count then some (count - suc m) else none

-- VALID_INDEXP and ADJUST_INDEX give that place, and it lies inside the array.
pub adjust_index-place :
    (index : ℤ) (count : ℕ)
    → (if valid_index index count then slot (adjust_index index count) else none)
      ≡ place index count
unfolding valid_index adjust_index
adjust_index-place (pos n) count = ground arith
adjust_index-place (negsuc m) count = ground arith

pub place-lt : (index : ℤ) (count : ℕ) {i : ℕ} → place index count ≡ some i → i < count
place-lt (pos n) count e = ground arith
place-lt (negsuc m) count e = ground arith

-- What a call of `shell.tray.move_icon` leaves.
pub record Moves (d : CrjTrayData) (index dest : ℤ) : Type 0 where
  pub called : Called
  pub ran : move_icon d index dest ≡ some called
  pub well_formed : IsWellFormed called.tray
  pub live_is : live called.tray ≡ elim (place index d.count) [
    | none ↦ live d
    | some i ↦ elim (place dest d.count) [ none ↦ live d | some j ↦ move_elem i j (live d) ]
  ]

valid-place : (index : ℤ) (count : ℕ) → valid_index index count ≡ true → place index count ≢ none
unfolding valid_index
valid-place (pos n) count v p = ground arith
valid-place (negsuc m) count v p = ground arith

-- The two ways in which an index is read.
pub data Placed (index : ℤ) (count : ℕ) : Type 0 where
  outside : valid_index index count ≡ false → place index count ≡ none → Placed index count
  inside :
      (i : ℕ)
      → valid_index index count ≡ true
      → slot (adjust_index index count) ≡ some i
      → place index count ≡ some i
      → Placed index count

pub placed : (index : ℤ) (count : ℕ) → Placed index count
placed index count =
    let e = adjust_index-place index count in
    elim (Bool-cases (valid_index index count)) [
      | inr v ↦ outside v (sym (rw v at e))
      | inl v ↦ elim (Option-cases (place index count)) [
        | inl p ↦ absurd (valid-place index count v p)
        | inr (i, p) ↦ inside i v ((rw v at e) ∙ p) p
      ]
    ]

module _ (d : CrjTrayData) (w : IsWellFormed d) where
  -- The array after the slots in use were moved.
  moves_apart :
      (i j : ℕ)
      → i < d.count
      → (i == j) ≡ false
      → Moved d.icons (live d) (drop d.count d.icons) i j
      → (called : Called) × (move d i j ≡ some called)
        × IsWellFormed called.tray
        × (live called.tray ≡ move_elem i j (live d))
  unfolding move
  moves_apart i j hi ne m =
      let size = length-live d w.allocated in
      let me = move_elem i j (live d) in
      let long : length me ≡ d.count = length-move_elem i j (live d) (omega (arith, size)) ∙ size in
      let tray = record d { icons = set m.slots j m.at } in
      let lives : live tray ≡ me =
        rw m.written (take-append me (drop d.count d.icons) d.count (sym long)) in
      let ran = subst (λ n. move_loop (n + 1) i j (ltb i j) d.icons ≡ some m.slots) size m.ran in
      (
        record { tray = tray; effects = publish nim_modify 1 0 ∷ [] },
        rw (ne, m.read, ran) refl,
        record {
          allocated = rw m.written (omega (arith, long, length-append me (drop d.count d.icons)));
          distinct = subst Distinct (sym lives) (move_elem-Distinct i j (live d) w.distinct);
        },
        lives,
      )

  moves :
      (i j : ℕ)
      → i < d.count
      → j < d.count
      → (called : Called) × (move d i j ≡ some called)
        × IsWellFormed called.tray
        × (live called.tray ≡ move_elem i j (live d))
  unfolding move
  moves i j hi hj =
      let size = length-live d w.allocated in
      elim (Bool-cases (i == j)) [
        | inl e ↦
            let same : i ≡ j = ground arith in
            (
              record { tray = d; effects = [] },
              rw e refl,
              w,
              sym (rw (← same) (move_elem-same i (live d) (omega (arith, size)))),
            )
        | inr ne ↦ moves_apart i j hi ne (
            subst (λ z. Moved z (live d) (drop d.count d.icons) i j) (live-append-drop d)
              (moved (live d) (drop d.count d.icons) i j (omega (arith, size)) (omega (arith, size))
                (λ e. ground arith)))
      ]

  kept :
      (index dest : ℤ)
      → length (elim (place index d.count) [
        | none ↦ live d
        | some i ↦ elim (place dest d.count) [ none ↦ live d | some j ↦ move_elem i j (live d) ]
      ])
        ≡ length (live d)
  kept index dest = elim (Option-cases (place index d.count)) [
    | inl p ↦ rw p refl
    | inr (i, p) ↦ elim (Option-cases (place dest d.count)) [
      | inl q ↦ rw (p, q) refl
      | inr (j, q) ↦
          rw (p, q)
            (length-move_elem i j (live d)
              (omega (arith, length-live d w.allocated, place-lt index d.count p)))
    ]
  ]

  -- On a well-formed tray shell.tray.move_icon takes the icon out of its place and puts it in at
  -- the other: it never leaves the array, its loop ends, and the tray stays well formed. An index
  -- that names no place leaves the icons as they are.
  pub move_icon-Moves : (index dest : ℤ) → Moves d index dest
  unfolding move_icon
  move_icon-Moves index dest =
      let same : Called = record { tray = d; effects = [] } in
      elim (placed index d.count) [
        | outside v p ↦ record {
          called = same;
          ran = rw v refl;
          well_formed = w;
          live_is = rw p refl;
        }
        | inside i v s p ↦ elim (placed dest d.count) [
          | outside v' p' ↦ record {
            called = same;
            ran = rw (v, v') refl;
            well_formed = w;
            live_is = rw (p, p') refl;
          }
          | inside j v' s' p' ↦
              let (called, ran, wf, lives) =
                moves i j (place-lt index d.count p) (place-lt dest d.count p') in
              record {
                called = called;
                ran = rw (v, v', s, s') ran;
                well_formed = wf;
                live_is = rw (p, p') lives;
              }
        ]
      ]

  pub length-Moves : (index dest : ℤ) → (m : Moves d index dest) → m.called.tray.count ≡ d.count
  length-Moves index dest m =
      let size = length-live d w.allocated in
      let same : length (live m.called.tray) ≡ length (live d) =
        ap length m.live_is ∙ kept index dest in
      sym (length-live m.called.tray m.well_formed.allocated) ∙ same ∙ size
