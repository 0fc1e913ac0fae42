-- ===== src/Directories/Module.antt =====
-- The directory of the program, of a path of any length.
use cereja.Prelude.{
  ℕ, ◌+◌, ◌-◌, ◌<◌, ◌≡◌, some, List, length, take, leb, leb→le, if◌then◌else◌, arith, inl, inr,
  Bool-cases,
}
use cereja.Utf8.{Converter, Converts, get_module_file_name_u}
use cereja.Utf8.Texts.{from_native-fits, from_native-too_small}
use cereja.Directories.{
  insufficient_buffer, cannot_be_determined, strrchr, module_path, directory_of,
  crj_system_directory,
}

module _ (C : Converter) (encode : List ℕ → List ℕ) (converts : Converts C encode) where
  -- For a path of any length, as far as the buffer takes it, Crj_SystemDirectory gives the
  -- directory in it where the buffer has room for three characters more than the path, NUL
  -- included, the error of an insufficient buffer where it has room for the path and one or two
  -- more, and else the error that the directory cannot be obtained.
  pub crj_system_directory-answers :
      (file_name : List ℕ) (size : ℕ)
      → 0 < size
      → let path = encode (take (size - 1) file_name) in
        crj_system_directory C (some file_name) size ≡ (
          if leb (length path + 3) size
          then directory_of (strrchr b'\\' path)
          else if leb (length path + 1) size
          then insufficient_buffer
          else cannot_be_determined)
  unfolding crj_system_directory module_path get_module_file_name_u
  crj_system_directory-answers file_name size h =
      let src = take (size - 1) file_name in
      elim (Bool-cases (leb (length (encode src) + 1) size)) [
        | inl room ↦
            rw (from_native-fits C encode converts size src (leb→le _ _ room), room) (ground arith)
        | inr small ↦
            rw (small, from_native-too_small C encode converts size src h (ground (arith, small)))
              (ground (arith, small))
      ]
