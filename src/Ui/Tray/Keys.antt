-- ===== src/Ui/Tray/Keys.antt =====
-- The key table of lib/ui/tray.c, a table in the Lua registry from key combinations to commands.
use cereja.Prelude.{ℕ, ◌*◌, ◌≡◌, Bool, List, [], ◌∷◌, ◌==◌, if◌then◌else◌, bit_or, arith}

pub data Key : Type 0 where
  shift menu control left_win right_win : Key

-- KEY_COMBO. The shift by 8 is written as a product.
abbrev pub key_combo : (vk modifiers : ℕ) → ℕ
key_combo vk modifiers = bit_or (modifiers * 256) vk

abbrev pub mod_alt : ℕ
mod_alt = 1

abbrev pub mod_control : ℕ
mod_control = 2

abbrev pub mod_shift : ℕ
mod_shift = 4

abbrev pub mod_win : ℕ
mod_win = 8

abbrev pub KeyTable : Type 0
KeyTable = List (ℕ × ℕ)

abbrev pub empty : KeyTable
empty = []

-- lua_rawseti: the entry is replaced, or put in.
unfoldable pub raw_set : KeyTable → ℕ → ℕ → KeyTable
raw_set [] key command = (key, command) ∷ []
raw_set ((k, c) ∷ table) key command =
    if k == key then (key, command) ∷ table else (k, c) ∷ raw_set table key command

-- `lua_tointeger` of `lua_rawgeti`: 0 where there is no entry.
unfoldable pub raw_get : KeyTable → ℕ → ℕ
raw_get [] key = 0
raw_get ((k, c) ∷ table) key = if k == key then c else raw_get table key

unfoldable pub add : KeyTable → (vk modifiers command : ℕ) → KeyTable
unfolding raw_set
add table vk modifiers command = raw_set table (key_combo vk modifiers) command

-- The modifiers that are down while WM_KEYDOWN is handled.
unfoldable pub modifiers_of : (Key → Bool) → ℕ
modifiers_of is_pressed =
    let with_shift = if is_pressed shift then bit_or 0 mod_shift else 0 in
    let with_alt = if is_pressed menu then bit_or with_shift mod_alt else with_shift in
    let with_control = if is_pressed control then bit_or with_alt mod_control else with_alt in
    if is_pressed left_win
    then bit_or with_control mod_win
    else if is_pressed right_win
    then bit_or with_control mod_win
    else with_control

-- KeyTable_Translate of WM_KEYDOWN: the command that is sent, where 0 is none.
unfoldable pub translate : KeyTable → (Key → Bool) → (vk : ℕ) → ℕ
unfolding raw_get modifiers_of
translate table is_pressed vk = raw_get table (key_combo vk (modifiers_of is_pressed))

pub raw_get-raw_set :
    (table : KeyTable) (key command other : ℕ)
    → raw_get (raw_set table key command) other
      ≡ (if key == other then command else raw_get table other)
unfolding raw_get raw_set
raw_get-raw_set [] key command other = ground arith
raw_get-raw_set ((k, c) ∷ table) key command other =
    ground (arith, raw_get-raw_set table key command other)

-- After _hotkey_add of a key, the window translates a key press with the same combination of key
-- and modifiers to its command, and every other combination as before.
pub translate-add :
    (table : KeyTable) (vk modifiers command : ℕ) (is_pressed : Key → Bool) (pressed_vk : ℕ)
    → translate (add table vk modifiers command) is_pressed pressed_vk ≡ (
        if key_combo vk modifiers == key_combo pressed_vk (modifiers_of is_pressed)
        then command
        else translate table is_pressed pressed_vk)
unfolding translate add
translate-add table vk modifiers command is_pressed pressed_vk =
    raw_get-raw_set table (key_combo vk modifiers) command
      (key_combo pressed_vk (modifiers_of is_pressed))
