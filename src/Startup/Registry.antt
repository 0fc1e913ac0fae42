-- ===== src/Startup/Registry.antt =====
-- The registry of Windows as lib/shell/__init__.c reads it: RegEnumValue with its buffers, and the values
-- that run_registry_items gets.
use cereja.Prelude.{
  ℕ, ◌≡◌, ◌≢◌, Bool, ◌&&◌, none, some, List, [], ◌∷◌, length, get_elem?, ◌+◌, ◌*◌, leb, take,
  Option, ◌>>=◌, if◌then◌else◌, ◌||◌, ◌==◌,
}
use cereja.Startup.{
  Windows, reg_sz, reg_expand_sz, Key, RegValue, spawn_process, delete_value, shell_execute,
  max_path,
}

-- A buffer of `count` characters has room for the name of a value and its NUL.
abbrev pub has_room : (count : ℕ) → RegValue → Bool
has_room count v = leb (length v.name + 1) count

-- The buffers of a call of RegEnumValue have room, else it fails with ERROR_MORE_DATA.
abbrev pub fits : (value_name_count : ℕ) → (data_count : Option ℕ) → RegValue → Bool
fits count none v = has_room count v
fits count (some bytes) v = has_room count v && leb v.data_size bytes

abbrev pub if_fits : (value_name_count : ℕ) → (data_count : Option ℕ) → RegValue → Option RegValue
if_fits count data_count v = if fits count data_count v then some v else none

-- The registry as it is documented, with programs that do not write to these keys: `values` are the
-- values of a key, by their indices; a value that is deleted is gone.
pub record Documented (W : Windows) : Type 0 where
  pub values : W.State → Key → List RegValue
  pub enum :
      (s : W.State) (k : Key) (i count : ℕ) (data_count : Option ℕ)
      → W.enum_value s k i count data_count
        ≡ (get_elem? (values s k) i >>= if_fits count data_count)
  pub spawned :
      (s : W.State) (path : List ℕ) (wait : Bool) (k : Key)
      → values (W.after (spawn_process path wait) s) k ≡ values s k
  pub executed :
      (s : W.State) (file directory : List ℕ) (k : Key)
      → values (W.after (shell_execute file directory) s) k ≡ values s k
  pub deleted :
      (s : W.State) (k : Key) (v : RegValue) (vs : List RegValue)
      → values s k ≡ v ∷ vs
      → values (W.after (delete_value k v.name) s) k ≡ vs
  pub kept :
      (s : W.State) (k : Key) (name : List ℕ) (other : Key)
      → k ≢ other
      → values (W.after (delete_value k name) s) other ≡ values s other

-- The values up to the first for which the buffers of the first loop have no room.
abbrev pub readable : List RegValue → List RegValue
readable [] = []
readable (v ∷ vs) = if fits max_path (some (2 * max_path)) v then v ∷ readable vs else []

-- The texts of the values that are strings, up to 259 characters of each.
abbrev pub programs : List RegValue → List (List ℕ)
programs [] = []
programs (v ∷ vs) =
    if v.type == reg_sz || v.type == reg_expand_sz
    then take 259 v.data_text ∷ programs vs
    else programs vs
