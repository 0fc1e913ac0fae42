-- ===== src/Tray/Api.antt =====
-- The functions that lib/shell/tray.c gives to Lua, on the arguments that Crj_ParseArgs has read.
pub mod MoveLoop
pub mod MoveElem
pub mod Moves
pub mod Reorders
pub mod IconData
use cereja.Prelude.{
  ℕ, zero, suc, ◌+◌, ◌-◌, Bool, ◌&&◌, ◌||◌, Option, none, some, ◌>>=◌, List, [], ◌∷◌, ◌++◌,
  get_elem?, set, length, ltb, ◌==◌, if◌then◌else◌, take,
}
use cereja.Prelude.Int.{ℤ, pos, negsuc, neg, ◌+ℤ◌, ◌-ℤ◌, leb_ℤ}
use cereja.Tray.Notify.{
  CrjTrayIcon, CrjTrayData, Effect, publish, broadcast_taskbar_created, nim_delete, nim_modify,
}
use cereja.Tray.TrayData

-- What a call leaves: the tray data and the effects in order.
pub record Called : Type 0 where
  pub tray : CrjTrayData
  pub effects : List Effect

abbrev nothing : CrjTrayData → Called
nothing tray = record { tray = tray; effects = [] }

unfoldable pub valid_index : ℤ → ℕ → Bool
valid_index index count =
    leb_ℤ (pos 1) index && leb_ℤ index (pos count)
    || leb_ℤ (neg count) index && leb_ℤ index (negsuc 0)

unfoldable pub adjust_index : ℤ → ℕ → ℤ
unfolding ◌+ℤ◌ ◌-ℤ◌
adjust_index index count = if leb_ℤ (pos 1) index then index -ℤ pos 1 else index +ℤ pos count

-- An index into the C array, which is outside it when negative.
abbrev pub slot : ℤ → Option ℕ
slot (pos i) = some i
slot (negsuc _) = none

unfoldable pub clean_icon : (ℕ → Bool) → CrjTrayData → ℤ → Option Called
unfolding valid_index adjust_index
clean_icon is_window tray index =
    if valid_index index tray.count
    then (TrayData.clean_icon is_window tray (adjust_index index tray.count)
        >>= λ (self, cleaned, freed). some (record {
          tray = self;
          effects = freed ++ (if cleaned then publish nim_delete 0 0 ∷ [] else []);
        }))
    else some (nothing tray)

pub get_icon_count : CrjTrayData → ℕ
get_icon_count tray = tray.count

-- `for (i = index; i != dest; i += step)`, with fuel. `up` is `step == 1`.
pub move_loop : (fuel i dest : ℕ) → Bool → List CrjTrayIcon → Option (List CrjTrayIcon)
move_loop zero i dest up icons = none
move_loop (suc fuel) i dest up icons =
    let next = if up then i + 1 else i - 1 in
    let rest = get_elem? icons next >>= λ icon. move_loop fuel next dest up (set icons i icon) in
    if i == dest then some icons else rest

pub move : CrjTrayData → (index dest : ℕ) → Option Called
unfolding move_loop
move tray index dest =
    if index == dest
    then some (nothing tray)
    else (get_elem? tray.icons index >>= λ tmp.
        move_loop (tray.count + 1) index dest (ltb index dest) tray.icons >>= λ moved.
        some (record {
          tray = record tray { icons = set moved dest tmp };
          effects = publish nim_modify 1 0 ∷ [];
        }))

unfoldable pub move_icon : CrjTrayData → ℤ → ℤ → Option Called
unfolding valid_index adjust_index move
move_icon tray index dest =
    if valid_index index tray.count && valid_index dest tray.count
    then (slot (adjust_index index tray.count) >>= λ i.
        slot (adjust_index dest tray.count) >>= λ d. move tray i d)
    else some (nothing tray)

unfoldable pub reset_icons : CrjTrayData → Option Called
reset_icons tray = do
  freed ← TrayData.delete_icons tray.count tray.icons
  some (record {
    tray = record tray { count = 0 };
    effects = publish nim_delete 0 0 ∷ (freed ++ broadcast_taskbar_created ∷ []);
  })

-- The loop over `i`, on the part of the table that is left: `icons` is the copy that it reads.
pub reorder_loop : List CrjTrayIcon → ℕ → List ℤ → List CrjTrayIcon → Option (List CrjTrayIcon)
reorder_loop icons i [] slots = some slots
reorder_loop icons i (n ∷ table) slots = do
  from ← slot (n -ℤ pos 1)
  icon ← get_elem? icons from
  reorder_loop icons (i + 1) table (set slots i icon)

-- The error of `luaL_error`, or what the call leaves.
pub data Raised : Type 0 where
  bad_table_length : (count given : ℕ) → Raised
  called : Called → Raised

unfoldable pub reorder_icons : CrjTrayData → List ℤ → Option Raised
unfolding reorder_loop
reorder_icons tray table =
    if length table == tray.count
    then (reorder_loop (take tray.count tray.icons) 0 table tray.icons >>= λ slots. some (
        called
          (record { tray = record tray { icons = slots }; effects = publish nim_modify 1 0 ∷ [] })))
    else some (bad_table_length tray.count (length table))
