-- ===== src/Tray/TrayData.antt =====
-- The functions `TrayData_*` of lib/shell/tray.c on the array of icons. A loop runs for the rounds
-- that its bounds leave, reads go through `get_elem?`, and `none` is an access outside the array.
pub mod Loops
pub mod Slots
pub mod Refines
pub mod Cleans
use cereja.Prelude.{
  ℕ, zero, suc, ◌+◌, ◌-◌, Bool, false, not, ◌&&◌, ◌||◌, Option, none, some, ◌>>=◌, List, [], ◌∷◌,
  ◌++◌, take, get_elem?, set, ◌==◌, ltb, if◌then◌else◌,
}
use cereja.Prelude.Int.{ℤ, pos, negsuc}
use cereja.Tray.Notify.{
  CrjNotifyIconData, CrjTrayIcon, CrjTrayData, Effect, post_message, free_icon, is_hidden,
  is_shared_icon, wm_mouse_move,
}
use cereja.Tray.TrayIcon

abbrev pub new : CrjTrayData
new = record { count = 0; icons = [] }

-- `(UINT)(-1)`
abbrev pub all_flags : ℕ
all_flags = 0xffff_ffff

-- What an operation leaves: the array, TRUE with the values of `*r_icon_index` and `*r_flags` or
-- FALSE, and the effects in order.
pub record Change : Type 0 where
  pub icon_index : ℕ
  pub flags : ℕ

pub record Outcome : Type 0 where
  pub self : CrjTrayData
  pub result : Option Change
  pub effects : List Effect

abbrev pub matches : CrjTrayIcon → CrjNotifyIconData → Bool
matches icon nid = icon.h_wnd == nid.h_wnd && icon.u_id == nid.u_id

-- `rounds` is `count - i`.
pub find_loop : (rounds i : ℕ) → List CrjTrayIcon → CrjNotifyIconData → Option ℤ
find_loop zero i icons nid = some (negsuc 0)
find_loop (suc rounds) i icons nid = do
  icon ← get_elem? icons i
  let rest = find_loop rounds (i + 1) icons nid
  if matches icon nid then some (pos i) else rest

unfoldable pub find_icon_index : CrjTrayData → CrjNotifyIconData → Option ℤ
unfolding find_loop
find_icon_index self nid = find_loop self.count 0 self.icons nid

abbrev unchanged : CrjTrayData → Outcome
unchanged self = record { self = self; result = none; effects = [] }

-- The new icon goes to slot `count` of an array that is made `count + 1` slots long.
append_icon : CrjTrayData → CrjTrayIcon → Outcome
append_icon self icon = record {
  self = record { count = self.count + 1; icons = take self.count self.icons ++ icon ∷ [] };
  result = some (record { icon_index = self.count + 1; flags = all_flags });
  effects = post_message icon.h_wnd icon.u_callback_message icon.u_id wm_mouse_move ∷ [];
}

unfoldable pub add_icon : CrjTrayData → CrjNotifyIconData → Option Outcome
unfolding append_icon find_icon_index
add_icon self nid =
    if nid.h_icon == 0
    then some (unchanged self)
    else if is_hidden nid || is_shared_icon nid
    then some (unchanged self)
    else do
      i ← find_icon_index self nid
      elim i [
        | pos _ ↦ some (unchanged self)
        | negsuc _ ↦ some (append_icon self (TrayIcon.new nid))
      ]

-- `rounds` is `count - i`.
pub shift_loop : (rounds i : ℕ) → List CrjTrayIcon → Option (List CrjTrayIcon)
shift_loop zero i icons = some icons
shift_loop (suc rounds) i icons = do
  icon ← get_elem? icons i
  shift_loop rounds (i + 1) (set icons (i - 1) icon)

unfoldable pub remove_icon : CrjTrayData → CrjNotifyIconData → Option Outcome
unfolding shift_loop find_icon_index
remove_icon self nid = do
  found ← find_icon_index self nid
  elim found [
    | negsuc _ ↦ some (unchanged self)
    | pos i ↦ do
      icon ← get_elem? self.icons i
      shifted ← shift_loop (self.count - (i + 1)) (i + 1) self.icons
      some (record {
        self = record { count = self.count - 1; icons = shifted };
        result = some (record { icon_index = 0; flags = 0 });
        effects = free_icon icon ∷ [];
      })
  ]

unfoldable pub update_icon : CrjTrayData → CrjNotifyIconData → Option Outcome
unfolding find_icon_index
update_icon self nid = do
  found ← find_icon_index self nid
  elim found [
    | negsuc _ ↦ some (unchanged self)
    | pos i ↦ do
      icon ← get_elem? self.icons i
      let updated = TrayIcon.update icon nid
      some (record {
        self = record self { icons = set self.icons i updated.0 };
        result = some (record { icon_index = i + 1; flags = updated.1 });
        effects = [];
      })
  ]

-- `is_window` is IsWindow of the windows' handles while the loop runs.
module _ (is_window : ℕ → Bool) where
  -- `rounds` is `count - from`. The result is the array, the final `to` and the icons freed.
  pub clean_loop :
      (rounds from to : ℕ)
      → List CrjTrayIcon
      → List Effect
      → Option (List CrjTrayIcon × ℕ × List Effect)
  clean_loop zero from to icons freed = some (icons, to, freed)
  clean_loop (suc rounds) from to icons freed = do
    icon ← get_elem? icons from
    clean_loop rounds (from + 1) (if is_window icon.h_wnd then to + 1 else to)
        (if is_window icon.h_wnd then set icons to icon else icons)
        (if is_window icon.h_wnd then freed else freed ++ free_icon icon ∷ [])

  -- Whether the first test of `TrayData_CleanIcon` returns: the target is there and its window too.
  target_is_valid : CrjTrayData → ℤ → Option Bool
  target_is_valid self (negsuc _) = some false
  target_is_valid self (pos target) =
      if ltb target self.count
      then (get_elem? self.icons target >>= λ icon. some (is_window icon.h_wnd))
      else some false

  pub compact : CrjTrayData → Option (CrjTrayData × Bool × List Effect)
  unfolding clean_loop
  compact self = do
    (icons, to, freed) ← clean_loop self.count 0 0 self.icons []
    some (record { count = to; icons = icons }, not (self.count == to), freed)

  unfoldable pub clean_icon : CrjTrayData → ℤ → Option (CrjTrayData × Bool × List Effect)
  unfolding compact target_is_valid
  clean_icon self target = do
    valid ← target_is_valid self target
    if valid then some (self, false, []) else compact self

-- `TrayIcon_Delete` of the slots `count - 1` down to 0.
unfoldable pub delete_icons : ℕ → List CrjTrayIcon → Option (List Effect)
delete_icons zero icons = some []
delete_icons (suc count) icons = do
  icon ← get_elem? icons count
  rest ← delete_icons count icons
  some (free_icon icon ∷ rest)

-- `TrayData_Delete`: the icons are freed, and then the array.
unfoldable pub delete : CrjTrayData → Option (List Effect)
unfolding delete_icons
delete self = delete_icons self.count self.icons
