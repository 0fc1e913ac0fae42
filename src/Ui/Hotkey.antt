-- ===== src/Ui/Hotkey.antt =====
-- lib/ui/hotkey.c: the hotkeys of the system, which are numbered in the order of their registration.
use cereja.Prelude.{
  ℕ, zero, suc, ◌+◌, ◌≤◌, ◌≡◌, Bool, true, false, Option, none, some, List, [], ◌∷◌, ltb, ◌==◌,
  if◌then◌else◌, arith, refl,
}
use cereja.Ui.Tray.Keys.{raw_set, raw_get, raw_get-raw_set}

-- HOTKEY_ID_MAX
abbrev pub hotkey_id_max : ℕ
hotkey_id_max = 0xbfff

-- `s_HotkeyCount`, the action table of the Lua registry, and the identifiers that are registered
-- with Windows, the latest first.
pub record Hotkeys : Type 0 where
  pub count : ℕ
  pub actions : List (ℕ × ℕ)
  pub registered : List ℕ

-- What `_register` leaves: an error is raised, or the hotkey is there.
pub data Registered : Type 0 where
  no_more_hotkeys : Registered
  register_failed : Registered
  done : Hotkeys → Registered

-- `handler_window_startup`
abbrev pub new : Hotkeys
new = record { count = 0; actions = []; registered = [] }

-- `registers` is the result of RegisterHotKey.
unfoldable pub register : (registers : Bool) → Hotkeys → (action : ℕ) → Registered
unfolding raw_set
register registers s action =
    if ltb hotkey_id_max s.count
    then no_more_hotkeys
    else if registers
    then done (record {
      count = s.count + 1;
      actions = raw_set s.actions s.count action;
      registered = s.count ∷ s.registered;
    })
    else register_failed

pub remove_id : ℕ → List ℕ → List ℕ
remove_id i [] = []
remove_id i (x ∷ xs) = let rest = remove_id i xs in if x == i then rest else x ∷ rest

-- UnregisterHotKey of `rounds` identifiers from `i` on.
pub unregister_loop : (rounds i : ℕ) → List ℕ → List ℕ
unfolding remove_id
unregister_loop zero i ids = ids
unregister_loop (suc rounds) i ids = unregister_loop rounds (i + 1) (remove_id i ids)

unfoldable pub reset : Hotkeys → Hotkeys
unfolding unregister_loop
reset s = record s { count = 0; registered = unregister_loop s.count 0 s.registered }

-- WM_HOTKEY: the action that is called.
unfoldable pub hotkey_pressed : Hotkeys → (id : ℕ) → Option ℕ
unfolding raw_get
hotkey_pressed s id = if ltb id s.count then some (raw_get s.actions id) else none

-- The identifiers below `n`.
abbrev pub below : ℕ → List ℕ
below zero = []
below (suc n) = n ∷ below n

-- The identifiers registered are those below the count, which is at most HOTKEY_ID_MAX + 1.
pub record IsWellFormed (s : Hotkeys) : Type 0 where
  pub bounded : s.count ≤ hotkey_id_max + 1
  pub ids : s.registered ≡ below s.count

-- While there is an identifier left, a hotkey that Windows takes is registered: it calls its
-- action, the others call what they called before, and the identifiers stay those below the count,
-- in its bound.
pub register-adds :
    (s : Hotkeys) (action id : ℕ)
    → IsWellFormed s
    → s.count ≤ hotkey_id_max
    → (next : Hotkeys) × (register true s action ≡ done next)
      × IsWellFormed next
      × (hotkey_pressed next id ≡ (if id == s.count then some action else hotkey_pressed s id))
unfolding register hotkey_pressed
register-adds s action id w h =
    let room : ltb hotkey_id_max s.count ≡ false = ground arith in
    (
      record {
        count = s.count + 1;
        actions = raw_set s.actions s.count action;
        registered = s.count ∷ s.registered;
      },
      rw room refl,
      record {
        bounded = omega arith;
        ids = (let more : s.count + 1 ≡ suc s.count = omega arith in rw (more, w.ids) refl);
      },
      ground (arith, raw_get-raw_set s.actions s.count action id),
    )

-- The identifiers from `i` on that are below `n`.
abbrev between : (i n : ℕ) → List ℕ
between i zero = []
between i (suc n) = let rest = between i n in if ltb n i then [] else n ∷ rest

between-zero : (n : ℕ) → between 0 n ≡ below n
between-zero zero = refl
between-zero (suc n) = ground (arith, between-zero n)

between-none : (i n : ℕ) → n ≤ i → between i n ≡ []
between-none i zero h = refl
between-none i (suc n) h = ground arith

remove_id-between : (i n : ℕ) → remove_id i (between i n) ≡ between (i + 1) n
unfolding remove_id
remove_id-between i zero = refl
remove_id-between i (suc n) = ground (arith, remove_id-between i n, between-none (i + 1) n)

unregister_loop-between :
    (rounds i n : ℕ) → n ≤ i + rounds → unregister_loop rounds i (between i n) ≡ []
unfolding unregister_loop
unregister_loop-between zero i n h = between-none i n (omega arith)
unregister_loop-between (suc rounds) i n h =
    rw (remove_id-between i n) (unregister_loop-between rounds (i + 1) n (omega arith))

-- From a well-formed state ui.hotkey.reset unregisters each hotkey, and a message of an old one
-- that is still on its way calls nothing.
pub reset-clears :
    (s : Hotkeys) (id : ℕ)
    → IsWellFormed s
    → IsWellFormed (reset s) × ((reset s).registered ≡ []) × (hotkey_pressed (reset s) id ≡ none)
unfolding reset hotkey_pressed
reset-clears s id w =
    let all = unregister_loop-between s.count 0 s.count (omega arith) in
    let gone : unregister_loop s.count 0 s.registered ≡ [] =
      rw (w.ids, ← between-zero s.count) all in
    (record { bounded = omega arith; ids = gone }, gone, ground arith)
