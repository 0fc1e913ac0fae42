-- ===== src/Main/Paths.antt =====
-- The texts of src/main.c: the path that run_file makes in its buffer, and the arguments of the program,
-- which main converts into one buffer.
pub mod Writes
pub mod Arguments
use cereja.Prelude.{
  ℕ, ◌+◌, ◌-◌, Bool, true, false, Option, none, some, ◌>>=◌, List, [], ◌∷◌, ◌++◌, length, drop, ltb,
  ◌==◌, if◌then◌else◌,
}
use cereja.Directories.{
  Char, write_at, string_in, strcat, Environment, Directory, written, insufficient_buffer,
  crj_user_directory,
}
use cereja.Utf8.{Converter, from_native}

-- The file that is run, or the error that is raised.
pub data Run : Type 0 where
  runs : (path : List Char) → Run
  fails : Directory → Run

-- run_file from the directory in its buffer on.
pub append_file : (size : ℕ) → (path filename : List Char) → Option Run
append_file size path filename = string_in path >>= λ directory.
    if ltb size (length directory + 1 + length filename + 1)
    then some (fails insufficient_buffer)
    else (strcat path (b'\\' ∷ []) >>= λ separated.
        strcat separated filename >>= λ whole. string_in whole >>= λ text. some (runs text))

pub run_file_in : Directory → (size : ℕ) → (filename : List Char) → Option Run
unfolding append_file
run_file_in (written path) size filename = append_file size path filename
run_file_in other size filename = some (fails other)

unfoldable pub run_file : Environment → (size : ℕ) → (buf filename : List Char) → Option Run
unfolding run_file_in
run_file env size buf filename =
    crj_user_directory env size buf >>= λ directory. run_file_in directory size filename

-- The texts that the places point to.
abbrev pub texts_at : List ℕ → List Char → List (Option (List Char))
texts_at [] u_buf = []
texts_at (u_p ∷ u_av) u_buf = string_in (drop u_p u_buf) ∷ texts_at u_av u_buf

module _ (C : Converter) where
  -- A conversion into the buffer at the place `u_p`; where it fails nothing is written.
  pub convert_at : ℕ × List ℕ → (u_p : ℕ) → (u_buf : List Char) → Option (List Char)
  convert_at (result, text) u_p u_buf =
      if result == 0 then some u_buf else write_at u_buf u_p (text ++ (0 ∷ []))

  -- The loop over the arguments: where each of them begins in the buffer, and the buffer.
  pub arguments_loop :
      (w_av : List (List ℕ))
      → (u_p u_buf_rest : ℕ) → (u_buf : List Char) → Option (List ℕ × List Char)
  unfolding convert_at from_native
  arguments_loop [] u_p u_buf_rest u_buf = some ([], u_buf)
  arguments_loop (w ∷ ws) u_p u_buf_rest u_buf =
      let converted = from_native C u_buf_rest w in
      convert_at converted u_p u_buf >>= λ next.
      arguments_loop ws (u_p + converted.0) (u_buf_rest - converted.0) next >>= λ (u_av, after).
      some (u_p ∷ u_av, after)

  -- The arguments of inner_main: those of main where the command line is as long in UTF-8 as in UTF-16,
  -- else those that are converted into a buffer of the length of the command line.
  unfoldable pub main_arguments :
      (av : List (Option (List Char)))
      → (cmdline : List ℕ) → (w_av : Option (List (List ℕ))) → (u_buf : (size : ℕ) → List Char)
      → Option (Option (List (Option (List Char))))
  unfolding arguments_loop
  main_arguments av cmdline w_av u_buf =
      let u_buf_len = (from_native C 0 cmdline).0 in
      if u_buf_len == length cmdline + 1 then some (some av) else elim w_av [
        | none ↦ some none
        | some ws ↦ arguments_loop ws 0 u_buf_len (u_buf u_buf_len) >>= λ (u_av, after).
            some (some (texts_at u_av after))
      ]
