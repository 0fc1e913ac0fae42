-- ===== src/Startup.antt =====
-- The start-up programs of lib/shell/__init__.c, from the registry and from the start-up folders.
-- Windows is a parameter; the calls of it are kept in a log, the last one first.
pub mod Registry
pub mod Runs
pub mod Order
use Prim.Native.Nat.{bit_and}
use cereja.Prelude.{
  ℕ, zero, suc, ◌+◌, ◌-◌, ◌*◌, take, Bool, true, false, not, ◌||◌, Option, none, some, ◌>>=◌, List,
  [], ◌∷◌, ◌++◌, ◌==◌, if◌then◌else◌,
}

abbrev pub Char : Type 0
Char = ℕ

abbrev pub reg_sz : ℕ
reg_sz = 1

abbrev pub reg_expand_sz : ℕ
reg_expand_sz = 2

-- FILE_ATTRIBUTE_SYSTEM, FILE_ATTRIBUTE_DIRECTORY and FILE_ATTRIBUTE_HIDDEN
abbrev pub hidden_attributes : ℕ
hidden_attributes = 0x4 + 0x10 + 0x2

-- The registry paths and the folders that _shell_run_startup_programs names.
pub data Key : Type 0 where
  machine_run_once : Key
  machine_run : Key
  user_run : Key
  user_run_once : Key

pub data Folder : Type 0 where
  common_startup : Folder
  startup : Folder

-- MAX_PATH, the size of `value_name` and of `data` in run_registry_items.
abbrev pub max_path : ℕ
max_path = 260

-- A value of a key: `data_text` is the text that its data hold up to a NUL, `data_size` how many bytes
-- its data have.
pub record RegValue : Type 0 where
  pub name : List Char
  pub type : ℕ
  pub data_text : List Char
  pub data_size : ℕ

pub record FindData : Type 0 where
  pub attributes : ℕ
  pub file_name : List Char

pub data Call : Type 0 where
  spawn_process : (path : List Char) → (wait : Bool) → Call
  delete_value : Key → (name : List Char) → Call
  shell_execute : (file directory : List Char) → Call

-- `open_key` is whether RegOpenKeyEx succeeds, `enum_value` is RegEnumValue with the sizes of its
-- two buffers, in characters and in bytes, or without the second, and `none` where it fails; `folder_path` is SHGetFolderPath, and `find_files` is what FindFirstFile and FindNextFile give.
pub record Windows : Type 1 where
  pub State : Type 0
  pub open_key : State → Key → Bool
  pub enum_value :
      State → Key → (index value_name_count : ℕ) → (data_count : Option ℕ) → Option RegValue
  pub folder_path : State → Folder → Option (List Char)
  pub find_files : State → (pattern : List Char) → List FindData
  pub after : Call → State → State

module _ (W : Windows) where
  -- Windows, and the calls that it has got, the last one first.
  pub record World : Type 0 where
    pub state : W.State
    pub calls : List Call

  abbrev pub perform : Call → World → World
  perform call w = record { state = W.after call w.state; calls = call ∷ w.calls }

  abbrev pub is_text : RegValue → Bool
  is_text v = v.type == reg_sz || v.type == reg_expand_sz

  -- The last character of the buffer is set to NUL before its text is used.
  abbrev pub spawn_item : RegValue → (wait : Bool) → World → World
  spawn_item v wait w =
      if is_text v then perform (spawn_process (take (max_path - 1) v.data_text) wait) w else w

  abbrev pub delete_item : Key → RegValue → World → World
  delete_item key v w =
      if is_text v then perform (delete_value key (take (max_path - 1) v.name)) w else w

  -- The end of a loop over the values, or its body.
  abbrev pub each_value : Option RegValue → World → (RegValue → Option World) → Option World
  each_value none w body = some w
  each_value (some v) w body = body v

  -- The first loop of run_registry_items, from the value `i` on, with a buffer of MAX_PATH characters for
  -- the data too, each of two bytes; `none` where it does not end in as many
  -- rounds.
  pub spawn_loop : (rounds : ℕ) → Key → (wait : Bool) → (i : ℕ) → World → Option World
  spawn_loop zero key wait i w = none
  spawn_loop (suc rounds) key wait i w =
      each_value (W.enum_value w.state key i max_path (some (2 * max_path))) w
        (λ v. spawn_loop rounds key wait (i + 1) (spawn_item v wait w))

  -- The second loop, which asks for no data: the value 0 is deleted until there is none.
  pub delete_loop : (rounds : ℕ) → Key → World → Option World
  delete_loop zero key w = none
  delete_loop (suc rounds) key w =
      each_value (W.enum_value w.state key 0 max_path none) w
        (λ v. delete_loop rounds key (delete_item key v w))

  pub run_registry_items :
      (rounds : ℕ) → Key → (delete_after_execute wait_for_quit : Bool) → World → Option World
  unfolding spawn_loop delete_loop
  run_registry_items rounds key delete_after_execute wait_for_quit w =
      if not (W.open_key w.state key)
      then some w
      else spawn_loop rounds key wait_for_quit 0 w >>= λ spawned.
          if delete_after_execute then delete_loop rounds key spawned else some spawned

-- The text before a `\` at the end, if there is one.
pub split_last : List Char → List Char × Bool
split_last [] = ([], false)
split_last (c ∷ []) = if c == b'\\' then ([], true) else (c ∷ [], false)
split_last (c ∷ d ∷ cs) = let (before, found) = split_last (d ∷ cs) in (c ∷ before, found)

-- The search pattern and the directory for a path, with what is before its last character and whether that
-- is a separator.
pub search_parts : (path before : List Char) → (ends_with_separator : Bool) → List Char × List Char
search_parts path before true = (path ++ (b'*' ∷ b'.' ∷ b'*' ∷ []), before)
search_parts path before false = (path ++ (b'\\' ∷ b'*' ∷ b'.' ∷ b'*' ∷ []), path)

-- The search pattern and the directory of run_folder_items. Of an empty path the code reads the
-- character before the first: `none`.
unfoldable pub folder_search : List Char → Option (List Char × List Char)
unfolding split_last search_parts
folder_search [] = none
folder_search (c ∷ cs) =
    let (before, ends_with_separator) = split_last (c ∷ cs) in
    some (search_parts (c ∷ cs) before ends_with_separator)

module _ (W : Windows) where
  abbrev pub execute_file : (directory : List Char) → FindData → World W → World W
  execute_file directory file w =
      if bit_and file.attributes hidden_attributes == 0
      then perform W (shell_execute file.file_name directory) w
      else w

  -- The loop of run_folder_items.
  pub execute_files : (directory : List Char) → List FindData → World W → World W
  execute_files directory [] w = w
  execute_files directory (file ∷ files) w =
      execute_files directory files (execute_file directory file w)

  -- The search of run_folder_items in a folder that has a path.
  pub search_folder : Option (List Char) → World W → Option (World W)
  unfolding folder_search execute_files
  search_folder none w = some w
  search_folder (some path) w = folder_search path >>= λ (pattern, directory).
      some (execute_files directory (W.find_files w.state pattern) w)

  pub run_folder_items : Folder → World W → Option (World W)
  unfolding search_folder
  run_folder_items folder w = search_folder (W.folder_path w.state folder) w

  pub shell_run_startup_programs : (rounds : ℕ) → World W → Option (World W)
  unfolding run_registry_items run_folder_items
  shell_run_startup_programs rounds w =
      run_registry_items W rounds machine_run_once true true w >>= λ w1.
      run_registry_items W rounds machine_run false false w1 >>= λ w2.
      run_registry_items W rounds user_run false false w2 >>= λ w3.
      run_folder_items common_startup w3 >>= λ w4.
      run_folder_items startup w4 >>= λ w5. run_registry_items W rounds user_run_once true false w5
