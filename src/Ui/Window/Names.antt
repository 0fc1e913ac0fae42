-- ===== src/Ui/Window/Names.antt =====
-- The class names and titles of windows in lib/ui/window.c, converted by src/utf8api.c. What Windows answers
-- is given.
pub mod Fits
use cereja.Prelude.{
  ℕ, ◌+◌, ◌-◌, ◌*◌, Bool, ◌||◌, Option, none, some, List, [], take, ltb, ◌==◌, if◌then◌else◌,
}
use cereja.Utf8.{Converter, from_native}

-- Utf8_NATIVE_RATIO of src/utf8api.h.
abbrev pub native_ratio : ℕ
native_ratio = 3

-- The number of characters of the buffer for a class name.
abbrev pub class_size : ℕ
class_size = 256

-- The text that is returned, or the error.
pub data Name : Type 0 where
  name : List ℕ → Name
  get_class_name_failed get_window_text_failed from_native_failed : Name

abbrev pub converted_name : ℕ × List ℕ → Name
converted_name (result, text) = if result == 0 then from_native_failed else name text

module _ (C : Converter) where
  -- `class` is the name of the window's class, `none` where GetClassName fails.
  unfoldable pub get_class_name : (class : Option (List ℕ)) → Name
  unfolding from_native
  get_class_name none = get_class_name_failed
  get_class_name (some class) =
      converted_name (from_native C (class_size * native_ratio) (take (class_size - 1) class))

  -- `length` is what GetWindowTextLength gives, and `length_fails` says whether it left an error. `title` is
  -- the title at the time of GetWindowText, `none` where this fails.
  unfoldable pub get_title_name :
      (length : ℕ) → (length_fails : Bool) → (title : Option (List ℕ)) → Name
  unfolding from_native
  get_title_name length length_fails none =
      if ltb 0 length || length_fails then get_window_text_failed else name []
  get_title_name length length_fails (some title) =
      if ltb 0 length
      then converted_name (from_native C ((length + 1) * native_ratio) (take length title))
      else if length_fails
      then get_window_text_failed
      else name []
