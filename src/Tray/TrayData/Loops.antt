-- ===== src/Tray/TrayData/Loops.antt =====
-- The loops of `TrayData` over an array that is cut into pieces.
use mathlib.Core.List.{append_assoc, append-nil}
use cereja.Prelude.{
  ℕ, suc, ◌+◌, ◌-◌, ◌≡◌, Bool, Option, some, List, [], ◌∷◌, ◌++◌, length, length-append, get_elem?,
  set, arith, refl, sym, ap, ◌∙◌, Bool-cases, inl, inr,
}
use cereja.Prelude.Slices.{get_elem?-append, set-append, snoc-append, length-snoc}
use cereja.Tray.Notify.{CrjNotifyIconData, CrjTrayIcon, Effect, free_icon}
use cereja.Tray.TrayData.{matches, find_loop, shift_loop, clean_loop}
use cereja.Tray.Live.{position, from_position, valid_icons, freed_icons}

pub find_loop-position :
    (pre mid post : List CrjTrayIcon) (nid : CrjNotifyIconData) (i : ℕ)
    → i ≡ length pre
    → find_loop (length mid) i (pre ++ (mid ++ post)) nid
      ≡ some (from_position i (position nid mid))
unfolding find_loop
find_loop-position pre [] post nid i e = refl
find_loop-position pre (x ∷ mid) post nid i e =
    rw (get_elem?-append pre x (mid ++ post) i e, find_loop)
      (elim (Bool-cases (matches x nid)) [
        | inl hit ↦ rw hit (ground arith)
        | inr miss ↦ rw miss (
            rw (← snoc-append pre x (mid ++ post)) (
              find_loop-position (pre ++ x ∷ []) mid post nid (i + 1)
                (omega (arith, length-snoc pre x))
              ∙ ground arith))
      ])

-- Everything behind `x` moves one slot to the front; the last slot keeps what it held.
pub shift_loop-shifts :
    (pre : List CrjTrayIcon) (x : CrjTrayIcon) (mid post : List CrjTrayIcon) (i : ℕ)
    → i ≡ length pre
    → (y : CrjTrayIcon) × (shift_loop (length mid) (i + 1) (pre ++ (x ∷ (mid ++ post)))
        ≡ some (pre ++ (mid ++ (y ∷ post))))
unfolding shift_loop
shift_loop-shifts pre x [] post i e = (x, refl)
shift_loop-shifts pre x (m ∷ mid) post i e =
    let (y, later) =
      shift_loop-shifts (pre ++ m ∷ []) m mid post (i + 1) (omega (arith, length-snoc pre m)) in
    (y, rw (read, write) (simp snoc-append at later))
  where
    read : get_elem? (pre ++ (x ∷ (m ∷ (mid ++ post)))) (i + 1) ≡ some m
    read = rw (← snoc-append pre x (m ∷ (mid ++ post))) (
        get_elem?-append (pre ++ x ∷ []) m (mid ++ post) (i + 1) (omega (arith, length-snoc pre x)))

    write : set (pre ++ (x ∷ (m ∷ (mid ++ post)))) (i + 1 - 1) m ≡ pre ++ (m ∷ (m ∷ (mid ++ post)))
    write = set-append pre x (m ∷ (mid ++ post)) (i + 1 - 1) m (omega arith)

-- Writing the kept icon behind those already kept leaves a gap of the same length.
write_kept :
    (kept gap : List CrjTrayIcon) (x : CrjTrayIcon) (rest : List CrjTrayIcon) (to : ℕ)
    → to ≡ length kept
    → (gap' : List CrjTrayIcon) × (length gap' ≡ length gap)
      × (set (kept ++ (gap ++ x ∷ rest)) to x ≡ (kept ++ x ∷ []) ++ (gap' ++ rest))
write_kept kept [] x rest to e =
    ([], refl, set-append kept x rest to x e ∙ sym (snoc-append kept x rest))
write_kept kept (g ∷ gap) x rest to e = (
  gap ++ x ∷ [],
  omega (arith, length-snoc gap x),
  set-append kept g (gap ++ x ∷ rest) to x e
      ∙ sym (snoc-append kept x (gap ++ x ∷ rest))
      ∙ ap (◌++◌ (kept ++ x ∷ [])) (sym (snoc-append gap x rest)),
)

read_next :
    (kept gap : List CrjTrayIcon) (x : CrjTrayIcon) (rest : List CrjTrayIcon) (from : ℕ)
    → from ≡ length kept + length gap
    → get_elem? (kept ++ (gap ++ x ∷ rest)) from ≡ some x
read_next kept gap x rest from f =
    rw (← append_assoc kept gap (x ∷ rest))
      (get_elem?-append (kept ++ gap) x rest from (omega (arith, length-append kept gap)))

kept_result :
    (kept : List CrjTrayIcon) (x : CrjTrayIcon) (vs rest : List CrjTrayIcon) (to : ℕ)
    (freed : List Effect)
    → ◌≡◌ {A = Option (List CrjTrayIcon × ℕ × List Effect)}
        (some ((kept ++ x ∷ []) ++ (vs ++ rest), to + 1 + length vs, freed))
        (some (kept ++ (x ∷ (vs ++ rest)), to + suc (length vs), freed))
kept_result kept x vs rest to freed = rw (snoc-append kept x (vs ++ rest)) (ground arith)

-- The freed slots grow behind the `to` icons that are kept.
pub clean_loop-compacts :
    (is_window : ℕ → Bool) (kept gap todo post : List CrjTrayIcon) (from to : ℕ)
    (freed : List Effect)
    → to ≡ length kept
    → from ≡ length kept + length gap
    → (rest : List CrjTrayIcon) × (clean_loop is_window
          (length todo)
          from
          to
          (kept ++ (gap ++ (todo ++ post)))
          freed
        ≡ some (
          kept ++ (valid_icons is_window todo ++ rest),
          to + length (valid_icons is_window todo),
          freed ++ freed_icons is_window todo,
        ))
unfolding clean_loop
clean_loop-compacts is_window kept gap [] post from to freed e f =
    (gap ++ post, ground (arith, append-nil freed))
clean_loop-compacts is_window kept gap (x ∷ todo) post from to freed e f =
    elim (Bool-cases (is_window x.h_wnd)) [
      | inl valid ↦
          let (gap', same, write) = write_kept kept gap x (todo ++ post) to e in
          let (rest, later) =
            clean_loop-compacts is_window (kept ++ x ∷ []) gap' todo post (from + 1) (to + 1) freed
              (omega (arith, length-snoc kept x)) (omega (arith, length-snoc kept x)) in
          (
            rest,
            rw (read_next kept gap x (todo ++ post) from f, valid, write)
                (later ∙ kept_result kept x (valid_icons is_window todo) rest to _),
          )
      | inr dead ↦
          let (rest, later) =
            clean_loop-compacts is_window kept (gap ++ x ∷ []) todo post (from + 1) to
              (freed ++ free_icon x ∷ []) e (omega (arith, length-snoc gap x)) in
          (rest, rw (read_next kept gap x (todo ++ post) from f, dead) (simp snoc-append at later))
    ]
