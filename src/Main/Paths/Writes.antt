-- ===== src/Main/Paths/Writes.antt =====
-- The buffer of run_file in src/main.c.
use cereja.Prelude.{
  ◌+◌, ◌≤◌, ◌≡◌, refl, true, false, some, List, [], ◌∷◌, ◌++◌, length, length-append, drop, ltb,
  leb, leb→le, if◌then◌else◌, arith, inl, inr, Bool-cases,
}
use cereja.Directories.{Char, Environment, insufficient_buffer, base_directory}
use cereja.Directories.Writes.{
  is_text, string_in-text, copied, strcat-appends, crj_user_directory-writes,
}
use cereja.Main.Paths.{runs, fails, append_file, run_file_in, run_file}

is_text-append :
    (xs ys : List Char) → is_text xs ≡ true → is_text ys ≡ true → is_text (xs ++ ys) ≡ true
is_text-append [] ys h k = k
is_text-append (x ∷ xs) ys h k = ground (arith, is_text-append xs ys)

append_file-appends :
    (buf directory filename : List Char)
    → is_text directory ≡ true
    → is_text filename ≡ true
    → append_file (length buf) (copied buf directory) filename
      ≡ some (
          if leb (length directory + 1 + length filename + 1) (length buf)
          then runs ((directory ++ b'\\' ∷ []) ++ filename)
          else fails insufficient_buffer)
unfolding append_file
append_file-appends buf directory filename d f =
    let separated = directory ++ b'\\' ∷ [] in
    let whole = separated ++ filename in
    let text = is_text-append directory (b'\\' ∷ []) d refl in
    elim (Bool-cases (leb (length directory + 1 + length filename + 1) (length buf))) [
      | inl room ↦
          let fits : length directory + 1 + length filename + 1 ≤ length buf = leb→le _ _ room in
          let enough : ltb (length buf) (length directory + 1 + length filename + 1) ≡ false =
            ground (arith, room) in
          rw
            (
              string_in-text directory (drop (length directory + 1) buf) d,
              room,
              enough,
              strcat-appends buf directory (b'\\' ∷ []) d (omega (arith, fits)),
              strcat-appends buf separated filename text
                  (omega (arith, fits, length-append directory (b'\\' ∷ []))),
              string_in-text whole (drop (length whole + 1) buf)
                  (is_text-append separated filename text f),
            )
            refl
      | inr small ↦
          let more : ltb (length buf) (length directory + 1 + length filename + 1) ≡ true =
            ground (arith, small) in
          rw (string_in-text directory (drop (length directory + 1) buf) d, small, more) refl
    ]

-- Where there is a user directory that fits the buffer, and the texts have no NUL, run_file runs
-- the file in this directory, with a backslash between the two, where the buffer has room for that
-- path and its NUL, and else raises the error of an insufficient buffer; it never writes outside
-- the buffer.
pub run_file-runs :
    (env : Environment) (buf filename base_dir postfix : List Char)
    → base_directory env.cereja_userdir env.home env.appdata ≡ some (base_dir, postfix)
    → is_text base_dir ≡ true
    → is_text postfix ≡ true
    → is_text filename ≡ true
    → length base_dir + length postfix + 1 ≤ length buf
    → run_file env (length buf) buf filename
      ≡ some (
          if leb (length (base_dir ++ postfix) + 1 + length filename + 1) (length buf)
          then runs (((base_dir ++ postfix) ++ b'\\' ∷ []) ++ filename)
          else fails insufficient_buffer)
unfolding run_file run_file_in
run_file-runs env buf filename base_dir postfix found b p f fits =
    rw (crj_user_directory-writes env buf base_dir postfix found b fits) (
      append_file-appends buf (base_dir ++ postfix) filename (is_text-append base_dir postfix b p)
        f)
