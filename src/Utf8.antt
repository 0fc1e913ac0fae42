-- ===== src/Utf8.antt =====
-- src/utf8api.c: the functions that stand between the program's texts, in UTF-8, and those of Windows, in
-- UTF-16. The conversions are calls of Windows, a parameter. A text is given without its NUL.
pub mod Messages
pub mod Texts
use cereja.Prelude.{
  ℕ, ◌+◌, ◌-◌, ◌≤◌, ◌<◌, ◌≡◌, Bool, true, false, Option, none, some, List, [], ◌∷◌, length, take,
  ◌==◌, if◌then◌else◌,
}

-- WideCharToMultiByte with CP_UTF8: its result, and the text that it writes.
pub record Converter : Type 0 where
  pub wide_char_to_multi_byte : (dest_size : ℕ) → (src : List ℕ) → ℕ × List ℕ

-- What its documentation says, for the text `encode src` in UTF-8: a size of 0 asks for the size that is
-- needed, the NUL included; another size is enough, or the result is 0.
pub record Converts (C : Converter) (encode : List ℕ → List ℕ) : Type 0 where
  pub asked : (src : List ℕ) → (C.wide_char_to_multi_byte 0 src).0 ≡ length (encode src) + 1
  pub fits :
      (dest_size : ℕ) (src : List ℕ)
      → length (encode src) + 1 ≤ dest_size
      → C.wide_char_to_multi_byte dest_size src ≡ (length (encode src) + 1, encode src)
  pub too_small :
      (dest_size : ℕ) (src : List ℕ)
      → 0 < dest_size
      → dest_size < length (encode src) + 1
      → (C.wide_char_to_multi_byte dest_size src).0 ≡ 0

-- The blocks of memory that FormatMessageU frees.
pub data Block : Type 0 where
  system_buffer : Block
  local_buffer : Block
  stack_buffer : Block

pub data BlockCall : Type 0 where
  allocated : Block → BlockCall
  freed : Block → BlockCall

-- The result, the text that stands in the caller's buffer, and the calls, the last one first.
pub record Message : Type 0 where
  pub result : ℕ
  pub text : Option (List ℕ)
  pub calls : List BlockCall

module _ (C : Converter) where
  -- `Utf8_FromNative`.
  unfoldable pub from_native : (dest_size : ℕ) → (src : List ℕ) → ℕ × List ℕ
  from_native dest_size src = C.wide_char_to_multi_byte dest_size src

  -- FormatMessageU with FORMAT_MESSAGE_ALLOCATE_BUFFER from the conversion on: `local_alloc` says whether
  -- LocalAlloc succeeds.
  pub allocated_message : (local_alloc : Bool) → (message : List ℕ) → Message
  unfolding from_native
  allocated_message local_alloc message =
      let made : List BlockCall = allocated system_buffer ∷ [] in
      let buffer_size = (from_native 0 message).0 in
      let converted = from_native buffer_size message in
      if local_alloc
      then (if converted.0 == 0
          then (record {
            result = 0;
            text = none;
            calls = freed system_buffer ∷ freed local_buffer ∷ allocated local_buffer ∷ made;
          })
          else (record {
            result = converted.0 - 1;
            text = some converted.1;
            calls = freed system_buffer ∷ allocated local_buffer ∷ made;
          }))
      else record { result = 0; text = none; calls = freed system_buffer ∷ made }

  -- The same without the flag, with the caller's buffer of `size` bytes.
  pub written_message : (size : ℕ) → (message : List ℕ) → Message
  unfolding from_native
  written_message size message =
      let converted = from_native size message in
      if converted.0 == 0
      then record { result = 0; text = none; calls = freed stack_buffer ∷ [] }
      else record { result = converted.0 - 1; text = some converted.1; calls = [] }

  -- `message` is what FormatMessage of Windows gives, `none` where it fails.
  unfoldable pub format_message_u :
      (allocatep : Bool) → (size : ℕ) → (local_alloc : Bool) → (message : Option (List ℕ)) → Message
  unfolding allocated_message written_message
  format_message_u allocatep size local_alloc none = record { result = 0; text = none; calls = [] }
  format_message_u allocatep size local_alloc (some message) =
      if allocatep then allocated_message local_alloc message else written_message size message

  -- `file_name` is what GetModuleFileName of Windows writes to a buffer of `size` characters.
  unfoldable pub get_module_file_name_u : (size : ℕ) → (file_name : Option (List ℕ)) → ℕ × List ℕ
  unfolding from_native
  get_module_file_name_u size none = (0, [])
  get_module_file_name_u size (some file_name) = from_native size (take (size - 1) file_name)

  -- `Utf8_GetEnv` of a variable with a value, `none` where there is none.
  unfoldable pub get_env : (value : Option (List ℕ)) → (buf_size : ℕ) → ℕ × List ℕ
  unfolding from_native
  get_env none buf_size = (0, [])
  get_env (some value) buf_size = from_native buf_size value

  -- The macro Utf8_GetEnvA: NULL is `none`.
  unfoldable pub get_env_a : (value : Option (List ℕ)) → Option (List ℕ)
  unfolding get_env
  get_env_a value =
      let required_buf_size = (get_env value 0).0 in
      if required_buf_size == 0 then none else some (get_env value required_buf_size).1

-- MultiByteToWideChar with CP_UTF8 and with CP_OEMCP: the result is 0 for a text that is not valid.
pub record Decoder : Type 0 where
  pub from_utf8 : (dest_size : ℕ) → (src : List ℕ) → ℕ × List ℕ
  pub from_oem : (dest_size : ℕ) → (src : List ℕ) → ℕ × List ℕ

module _ (D : Decoder) where
  -- `Utf8_ToNative`.
  pub to_native : (dest_size : ℕ) → (src : List ℕ) → ℕ × List ℕ
  to_native dest_size src =
      if (D.from_utf8 dest_size src).0 == 0
      then D.from_oem dest_size src
      else D.from_utf8 dest_size src

  -- DEFINE_NATIVE_STRING: NULL stays NULL, and the buffer has a place for each byte and the NUL. The result
  -- `none` is a buffer with no text.
  unfoldable pub native_string : Option (List ℕ) → Option (Option (List ℕ))
  unfolding to_native
  native_string none = some none
  native_string (some v) =
      let converted = to_native (length v + 1) v in
      if converted.0 == 0 then none else some (some converted.1)
