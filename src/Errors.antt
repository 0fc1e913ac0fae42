-- ===== src/Errors.antt =====
-- `Crj_PushWindowsError` of src/api.c: the text of an error of Windows, by FormatMessageU of src/utf8api.c.
pub mod Chomps
use cereja.Prelude.{
  ℕ, zero, suc, ◌+◌, ◌-◌, Bool, true, false, Option, none, some, ◌>>=◌, List, [], ◌∷◌, ◌++◌, length,
  get_elem?, set, ◌==◌, if◌then◌else◌,
}
use cereja.Directories.{Char, string_in}
use cereja.Utf8.{Converter, Message, BlockCall, local_buffer, freed, format_message_u}

-- "Windows error %d" and "Windows error %d `%s'".
pub data ErrorText : Type 0 where
  code_only : (error_code : ℕ) → ErrorText
  with_message : (error_code : ℕ) → List Char → ErrorText

-- The loop that writes NULs over the control characters before `length`; `none` is a read outside.
pub chomp_loop : (is_control : Char → Bool) → (length : ℕ) → (buf : List Char) → Option (List Char)
chomp_loop is_control zero buf = some buf
chomp_loop is_control (suc n) buf =
    let next = chomp_loop is_control n (set buf n 0) in
    get_elem? buf n >>= λ c. if is_control c then next else some buf

module _ (C : Converter) (is_control : Char → Bool) where
  -- What is pushed for a message, with the calls that free its memory.
  pub push_message : (error_code : ℕ) → Message → Option (ErrorText × List BlockCall)
  unfolding chomp_loop string_in
  push_message error_code m =
      if m.result == 0
      then some (code_only error_code, m.calls)
      else (m.text >>= λ text. chomp_loop is_control m.result (text ++ 0 ∷ []) >>= λ buf.
          string_in buf >>= λ chomped.
          some (with_message error_code chomped, freed local_buffer ∷ m.calls))

  -- `last_error` is GetLastError. `local_alloc` and `message` are answers of Windows.
  unfoldable pub crj_push_windows_error :
      (error_code last_error : ℕ)
      → (local_alloc : Bool) → (message : ℕ → Option (List ℕ)) → Option (ErrorText × List BlockCall)
  unfolding push_message
  crj_push_windows_error error_code last_error local_alloc message =
      let code = if error_code == 0 then last_error else error_code in
      push_message code (format_message_u C true 0 local_alloc (message code))
