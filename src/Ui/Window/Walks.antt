-- ===== src/Ui/Window/Walks.antt =====
-- The walks of lib/ui/window.c through the windows that lie one upon the other.
use cereja.Prelude.{
  ℕ, zero, suc, ◌+◌, ◌<◌, ◌≡◌, Bool, true, false, ◌&&◌, List, [], ◌∷◌, ◌++◌, length, ◌==◌,
  if◌then◌else◌, arith, refl, ap, both_true,
}
use cereja.Prelude.Int.{pos}
use cereja.Ui.Window.Desktop.{
  Os, Call, World, set_foreground, set_window_pos, behind, async_window_pos, no_activate, no_move,
  no_owner_z_order, no_size,
}
use cereja.Ui.Window.{
  is_topmost, is_app_window, get_next_app_window, bottom_topmost, get_bottom_topmost_window,
  to_bottom, place_at_bottom_of_topmost,
}

module _ (O : Os) where
  -- The windows below `base`, down to the lowest.
  abbrev pub Below : World O → (base : ℕ) → List ℕ → Type 0
  Below w base [] = O.next_window w.state base ≡ 0
  Below w base (h ∷ hs) = (O.next_window w.state base ≡ h) × ((h == 0) ≡ false) × Below w h hs

  -- The first element that passes a test, NULL where there is none.
  abbrev pub first : (ℕ → Bool) → List ℕ → ℕ
  first test [] = 0
  first test (h ∷ hs) = if test h then h else first test hs

  -- Of the windows that lie below a window, GetNextAppWindow gives the first that is an
  -- application window, and NULL where there is none, in one round more than there are windows.
  pub get_next_app_window-finds :
      (w : World O) (nontopmost_only : Bool) (rounds base : ℕ) (hs : List ℕ)
      → Below w base hs
      → length hs < rounds
      → get_next_app_window O rounds base nontopmost_only w
        ≡ first (is_app_window O nontopmost_only w) hs
  unfolding get_next_app_window
  get_next_app_window-finds w b zero base hs below enough = absurd (omega (arith, enough))
  get_next_app_window-finds w b (suc rounds) base [] below enough = rw below refl
  get_next_app_window-finds w b (suc rounds) base (h ∷ hs) (next, not_null, below) enough =
      rw (next, not_null)
        (ap (λ x. if is_app_window O b w h then h else x)
          (get_next_app_window-finds w b rounds h hs below (omega (arith, enough))))

  abbrev pub last : ℕ → List ℕ → ℕ
  last h [] = h
  last h (k ∷ ks) = last k ks

  abbrev pub all_topmost : World O → List ℕ → Bool
  all_topmost w [] = true
  all_topmost w (h ∷ hs) = is_topmost O h w && all_topmost w hs

  bottom_topmost-finds :
      (w : World O) (rounds prev base : ℕ) (hs : List ℕ) (h : ℕ) (rest : List ℕ)
      → all_topmost w (base ∷ hs) ≡ true
      → is_topmost O h w ≡ false
      → Below w base (hs ++ (h ∷ rest))
      → length hs + 1 < rounds
      → bottom_topmost O rounds prev base w ≡ last base hs
  unfolding bottom_topmost
  bottom_topmost-finds w zero prev base hs h rest top no_top below enough =
      absurd (omega (arith, enough))
  bottom_topmost-finds w (suc zero) prev base hs h rest top no_top below enough =
      absurd (omega (arith, enough))
  bottom_topmost-finds w (suc (suc rounds)) prev base [] h rest top no_top (next, not_null, below)
        enough =
      rw ((both_true (is_topmost O base w) true top).0, next, not_null, no_top) refl
  bottom_topmost-finds w (suc (suc rounds)) prev base (k ∷ ks) h rest top no_top
        (next, not_null, below) enough =
      rw ((both_true (is_topmost O base w) (all_topmost w (k ∷ ks)) top).0, next, not_null)
        (bottom_topmost-finds w (suc rounds) base k ks h rest
          (both_true (is_topmost O base w) (all_topmost w (k ∷ ks)) top).1 no_top below
          (omega (arith, enough)))

  -- Where all windows below are topmost.
  bottom_topmost-misses :
      (w : World O) (rounds prev base : ℕ) (hs : List ℕ)
      → all_topmost w (base ∷ hs) ≡ true
      → Below w base hs
      → bottom_topmost O rounds prev base w ≡ 0
  unfolding bottom_topmost
  bottom_topmost-misses w zero prev base hs top below = refl
  bottom_topmost-misses w (suc rounds) prev base [] top below =
      rw ((both_true (is_topmost O base w) true top).0, below) refl
  bottom_topmost-misses w (suc rounds) prev base (k ∷ ks) top (next, not_null, below) =
      rw ((both_true (is_topmost O base w) (all_topmost w (k ∷ ks)) top).0, next, not_null)
        (bottom_topmost-misses w rounds base k ks
          (both_true (is_topmost O base w) (all_topmost w (k ∷ ks)) top).1 below)

  last-not_null :
      (w : World O) (base : ℕ) (hs rest : List ℕ)
      → (base == 0) ≡ false
      → Below w base (hs ++ rest)
      → (last base hs == 0) ≡ false
  last-not_null w base [] rest null below = null
  last-not_null w base (k ∷ ks) rest null (next, not_null, below) =
      last-not_null w k ks rest not_null below

  -- Before ui.window.minimize lowers a topmost window it places it behind the last of the topmost
  -- windows that follow it, down to one that is not topmost.
  pub place_at_bottom_of_topmost-places :
      (w : World O) (base : ℕ) (hs : List ℕ) (h : ℕ) (rest : List ℕ)
      → (base == 0) ≡ false
      → all_topmost w (base ∷ hs) ≡ true
      → is_topmost O h w ≡ false
      → Below w base (hs ++ (h ∷ rest))
      → length hs + 1 < O.rounds w.state
      → (place_at_bottom_of_topmost O base w).calls
        ≡ set_window_pos base
            (behind (last base hs))
            (pos 0)
            (pos 0)
            (pos 0)
            (pos 0)
            (async_window_pos ∷ no_activate ∷ no_move ∷ no_owner_z_order ∷ no_size ∷ [])
          ∷ w.calls
  unfolding place_at_bottom_of_topmost get_bottom_topmost_window
  place_at_bottom_of_topmost-places w base hs h rest null top no_top below enough =
      rw
        (
          (both_true (is_topmost O base w) (all_topmost w hs) top).0,
          bottom_topmost-finds w (O.rounds w.state) 0 base hs h rest top no_top below enough,
          last-not_null w base hs (h ∷ rest) null below,
        )
        refl

  -- The calls once the foreground window has handed the foreground on to the window `next`, if any.
  abbrev pub handed_on : World O → (target next : ℕ) → List Call
  handed_on w target next =
      if target == O.foreground w.state
      then (if next == 0 then w.calls else set_foreground next ∷ w.calls)
      else w.calls

  -- The calls of ui_window_lower for the window `target` and the windows `hs` below it, in the log.
  abbrev pub lower_calls : World O → (target : ℕ) → (sync : Bool) → List ℕ → List Call
  lower_calls w target sync hs =
      let next = first (is_app_window O (is_topmost O target w) w) hs in
      let handed = handed_on w target next in
      if is_topmost O target w then handed else to_bottom O target sync ∷ handed
