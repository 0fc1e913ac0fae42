-- ===== src/Directories.antt =====
-- The directories of the program: `Crj_UserDirectory` and `Crj_SystemDirectory` of src/api.c, and the paths
-- of `get_libcereja_dir` and `load_lua_part` in src/builtins.c. A buffer is the list of its characters.
pub mod Writes
pub mod Module
use cereja.Utf8.{Converter, get_module_file_name_u}
use cereja.Prelude.{
  ℕ, suc, ◌+◌, ◌-◌, Bool, true, false, not, Option, none, some, ◌>>=◌, List, [], ◌∷◌, ◌++◌, length,
  take, drop, ltb, leb, ◌==◌, if◌then◌else◌,
}

abbrev pub Char : Type 0
Char = ℕ

-- A write of these characters from the place `i` on, `none` where it leaves the buffer.
abbrev pub write_at : (buf : List Char) → (i : ℕ) → List Char → Option (List Char)
write_at buf i text =
    if leb (i + length text) (length buf)
    then some (take i buf ++ (text ++ drop (i + length text) buf))
    else none

-- The string in a buffer, `none` where no NUL ends it.
unfoldable pub string_in : List Char → Option (List Char)
string_in [] = none
string_in (c ∷ cs) =
    let rest = string_in cs in if c == 0 then some [] else rest >>= λ text. some (c ∷ text)

abbrev pub strcpy : (buf text : List Char) → Option (List Char)
strcpy buf text = write_at buf 0 (text ++ (0 ∷ []))

unfoldable pub strcat : (buf text : List Char) → Option (List Char)
unfolding string_in
strcat buf text = string_in buf >>= λ before. write_at buf (length before) (text ++ (0 ∷ []))

-- The variables CEREJA_USERDIR and HOME, and the folder CSIDL_APPDATA, where they are there.
pub record Environment : Type 0 where
  pub cereja_userdir : Option (List Char)
  pub home : Option (List Char)
  pub appdata : Option (List Char)

-- The buffer of a function that returns, or its error.
pub data Directory : Type 0 where
  written : List Char → Directory
  cannot_be_determined : Directory
  insufficient_buffer : Directory
  strange : Directory

-- "\.cereja" and "\cereja"
abbrev pub home_postfix : List Char
home_postfix = b'\\' ∷ b'.' ∷ b'c' ∷ b'e' ∷ b'r' ∷ b'e' ∷ b'j' ∷ b'a' ∷ []

abbrev pub appdata_postfix : List Char
appdata_postfix = b'\\' ∷ b'c' ∷ b'e' ∷ b'r' ∷ b'e' ∷ b'j' ∷ b'a' ∷ []

-- `base_dir` and `postfix`, by the first of the three that is there.
unfoldable pub base_directory :
    (userdir home appdata : Option (List Char)) → Option (List Char × List Char)
base_directory (some base_dir) home appdata = some (base_dir, [])
base_directory none (some base_dir) appdata = some (base_dir, home_postfix)
base_directory none none (some base_dir) = some (base_dir, appdata_postfix)
base_directory none none none = none

-- The end of Crj_UserDirectory: its test on the size, strcpy and strcat.
pub write_directory : (size : ℕ) → (buf base_dir postfix : List Char) → Option Directory
unfolding strcat
write_directory size buf base_dir postfix =
    if not (leb (length base_dir + length postfix + 1) size)
    then some insufficient_buffer
    else strcpy buf base_dir >>= λ copied. strcat copied postfix >>= λ whole. some (written whole)

pub directory_for :
    Option (List Char × List Char) → (size : ℕ) → (buf : List Char) → Option Directory
unfolding write_directory
directory_for none size buf = some cannot_be_determined
directory_for (some (base_dir, postfix)) size buf = write_directory size buf base_dir postfix

unfoldable pub crj_user_directory : Environment → (size : ℕ) → (buf : List Char) → Option Directory
unfolding base_directory directory_for
crj_user_directory env size buf =
    directory_for (base_directory env.cereja_userdir env.home env.appdata) size buf

-- strrchr: what stands before the last `c`, and the text from it on.
pub strrchr : (c : Char) → List Char → Option (List Char × List Char)
strrchr c [] = none
strrchr c (d ∷ ds) =
    let later = strrchr c ds in
    elim later [
      | none ↦ if d == c then some ([], d ∷ ds) else none
      | some (before, found) ↦ some (d ∷ before, found)
    ]

-- The tests of the length that GetModuleFileName gives with a path.
pub module_path : ℕ × List Char → (size : ℕ) → (List Char → Directory) → Directory
module_path (length, path) size next =
    if length == 0
    then cannot_be_determined
    else if leb size (length + 1)
    then insufficient_buffer
    else next path

abbrev pub directory_of : Option (List Char × List Char) → Directory
directory_of none = strange
directory_of (some (directory, found)) = written directory

-- GetModuleFileName is mapped to the function of src/utf8api.c; `file_name` is what Windows gives.
module _ (C : Converter) where
  unfoldable pub crj_system_directory : (file_name : Option (List ℕ)) → (size : ℕ) → Directory
  unfolding strrchr module_path
  crj_system_directory file_name size =
      module_path (get_module_file_name_u C size file_name) size
        (λ p. directory_of (strrchr b'\\' p))

-- The path of libcereja.lua that load_lua_part makes from that of libcereja.dll.
abbrev pub lua_path : Option (List Char × List Char) → Directory
lua_path none = strange
lua_path (some (before, found)) =
    if not (length found == 4)
    then strange
    else written (before ++ (b'.' ∷ b'l' ∷ b'u' ∷ b'a' ∷ []))

module _ (C : Converter) where
  unfoldable pub load_lua_part : (file_name : Option (List ℕ)) → (size : ℕ) → Directory
  unfolding strrchr module_path
  load_lua_part file_name size =
      module_path (get_module_file_name_u C size file_name) size (λ p. lua_path (strrchr b'.' p))
