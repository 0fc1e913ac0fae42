-- ===== src/TextTests.antt =====
-- Texts between UTF-16 and UTF-8 in src/utf8api.c, errors of Windows, directories and arguments, on
-- concrete texts of ASCII.
use cereja.Snarl.{Snarl, MessageArgs, int_of, hide_message}
use cereja.Snarl.Reads.{Shows, show_message-Shows}
use cereja.Prelude.Int.{pos, negsuc}
use cereja.Ui.Window.Names.{name, get_class_name, get_title_name}
use cereja.Ui.Window.Names.Fits.{names-fit}
use cereja.Main.Paths.{runs, fails, run_file, main_arguments}
use cereja.Main.Paths.Writes.{run_file-runs}
use cereja.Main.Paths.Arguments.{main_arguments-converts}
use cereja.Directories.{Environment, base_directory, crj_user_directory, strcat, string_in}
use cereja.Prelude.{
  ◌*◌, replicate, length-replicate, ltb, ◌++◌, ℕ, ◌+◌, ◌≤◌, ◌<◌, ◌≡◌, refl, Bool, true, false, ◌||◌,
  Option, none, some, List, [], ◌∷◌, length, leb, ltb, ◌==◌, if◌then◌else◌, arith,
}
use cereja.Utf8.{
  Converter, Converts, Message, format_message_u, get_module_file_name_u, get_env_a, Decoder,
  native_string,
}
use cereja.Utf8.Messages.{frees_own, left, has_room, handed_over, format_message_u-frees}
use cereja.Errors.{code_only, crj_push_windows_error}
use cereja.Errors.Chomps.{Pushes, code_of, crj_push_windows_error-Pushes}
use cereja.Directories.{
  written, insufficient_buffer, cannot_be_determined, crj_system_directory, load_lua_part, strrchr,
  directory_of,
}
use cereja.Directories.Module.{crj_system_directory-answers}

-- Each character is one byte.
abbrev ascii : List ℕ → List ℕ
ascii src = src

abbrev convert : (dest_size : ℕ) → (src : List ℕ) → ℕ × List ℕ
convert dest_size src =
    if dest_size == 0
    then (length src + 1, [])
    else if leb (length src + 1) dest_size
    then (length src + 1, src)
    else (0, [])

abbrev converter : Converter
converter = record { wide_char_to_multi_byte = convert }

convert-fits :
    (dest_size : ℕ) (src : List ℕ)
    → length src + 1 ≤ dest_size
    → convert dest_size src ≡ (length src + 1, src)
convert-fits dest_size src h = ground arith

convert-too_small :
    (dest_size : ℕ) (src : List ℕ)
    → 0 < dest_size
    → dest_size < length src + 1
    → (convert dest_size src).0 ≡ 0
convert-too_small dest_size src h k = ground arith

abbrev converts : Converts converter ascii
converts = record {
  asked = λ src. refl;
  fits = λ n src h. convert-fits n src h;
  too_small = λ n src h k. convert-too_small n src h k;
}

-- "ab" in a buffer of two bytes.
abbrev two_bytes : Message
two_bytes = format_message_u converter false 2 true (some (b'a' ∷ b'b' ∷ []))

format_message_u-frees_example :
    (frees_own two_bytes.calls ≡ (false || has_room ascii 2 (some (b'a' ∷ b'b' ∷ []))))
    × (left two_bytes.calls ≡ handed_over false two_bytes.text)
format_message_u-frees_example =
    format_message_u-frees converter ascii converts false 2 true (some (b'a' ∷ b'b' ∷ []))
      (omega arith)

-- The buffer on the stack is freed.
stack_is_freed : frees_own two_bytes.calls ≡ false
unfolding format_message_u
stack_is_freed = refl

-- The error 5 is "no" with a carriage return and a line feed.
abbrev no_access : ℕ → Option (List ℕ)
no_access code = if code == 5 then some (b'n' ∷ b'o' ∷ 13 ∷ 10 ∷ []) else none

abbrev is_control : ℕ → Bool
is_control c = ltb c 32

crj_push_windows_error-Pushes_example :
    Pushes is_control
      (code_of 0 5)
      (ascii (b'n' ∷ b'o' ∷ 13 ∷ 10 ∷ []))
      (crj_push_windows_error converter is_control 0 5 true no_access)
crj_push_windows_error-Pushes_example =
    crj_push_windows_error-Pushes converter ascii converts is_control 0 5 no_access
      (b'n' ∷ b'o' ∷ 13 ∷ 10 ∷ []) refl (omega arith) refl

no_message : crj_push_windows_error converter is_control 7 5 true no_access ≡ some (code_only 7, [])
unfolding crj_push_windows_error format_message_u
no_message = refl

crj_system_directory-answers_example :
    crj_system_directory converter (some (b'a' ∷ b'\\' ∷ b'b' ∷ [])) 5 ≡ (
      if leb 6 5
      then directory_of (strrchr b'\\' (b'a' ∷ b'\\' ∷ b'b' ∷ []))
      else if leb 4 5
      then insufficient_buffer
      else cannot_be_determined)
crj_system_directory-answers_example =
    crj_system_directory-answers converter ascii converts (b'a' ∷ b'\\' ∷ b'b' ∷ []) 5 (omega arith)

-- "a\b" is in the directory "a".
in_directory :
    crj_system_directory converter (some (b'a' ∷ b'\\' ∷ b'b' ∷ [])) 9 ≡ written (b'a' ∷ [])
unfolding crj_system_directory get_module_file_name_u
in_directory = refl

-- "c.dll" is made "c.lua".
beside_the_library :
    load_lua_part converter (some (b'c' ∷ b'.' ∷ b'd' ∷ b'l' ∷ b'l' ∷ [])) 9
    ≡ written (b'c' ∷ b'.' ∷ b'l' ∷ b'u' ∷ b'a' ∷ [])
unfolding load_lua_part get_module_file_name_u
beside_the_library = refl

home_is_read : get_env_a converter (some (b'h' ∷ [])) ≡ some (b'h' ∷ [])
unfolding get_env_a
home_is_read = refl

-- A text that is no UTF-8 is read in the code page of the machine.
abbrev decoder : Decoder
decoder = record { from_utf8 = λ n src. (0, []); from_oem = λ n src. (length src + 1, src) }

oem_is_read : native_string decoder (some (200 ∷ [])) ≡ some (some (200 ∷ []))
unfolding native_string
oem_is_read = refl

-- CEREJA_USERDIR is "d", and the file is "f".
abbrev environment : Environment
environment = record { cereja_userdir = some (b'd' ∷ []); home = none; appdata = none }

abbrev buffer : List ℕ
buffer = 1 ∷ 2 ∷ 3 ∷ 4 ∷ []

run_file-runs_example :
    run_file environment 4 buffer (b'f' ∷ [])
    ≡ some (
        if leb 4 4
        then runs (((b'd' ∷ []) ++ b'\\' ∷ []) ++ b'f' ∷ [])
        else fails insufficient_buffer)
unfolding base_directory
run_file-runs_example =
    run_file-runs environment buffer (b'f' ∷ []) (b'd' ∷ []) [] refl refl refl refl (omega arith)

no_room_for_file :
    run_file environment 3 (1 ∷ 2 ∷ 3 ∷ []) (b'f' ∷ []) ≡ some (fails insufficient_buffer)
unfolding run_file crj_user_directory strcat string_in
no_room_for_file = refl

-- Characters above 127 take two bytes.
abbrev two_for_some : List ℕ → List ℕ
two_for_some [] = []
two_for_some (c ∷ cs) = if ltb c 128 then c ∷ two_for_some cs else 195 ∷ c ∷ two_for_some cs

abbrev convert_some : (dest_size : ℕ) → (src : List ℕ) → ℕ × List ℕ
convert_some dest_size src = convert dest_size (two_for_some src)

abbrev some_converter : Converter
some_converter = record { wide_char_to_multi_byte = convert_some }

abbrev some_converts : Converts some_converter two_for_some
some_converts = record {
  asked = λ src. refl;
  fits = λ n src h. convert-fits n (two_for_some src) h;
  too_small = λ n src h k. convert-too_small n (two_for_some src) h k;
}

-- The command line is "c", a space and a character above 127.
main_arguments-converts_example :
    main_arguments some_converter []
      (b'c' ∷ b' ' ∷ 233 ∷ [])
      (some ((b'c' ∷ []) ∷ (233 ∷ []) ∷ []))
      (λ size. replicate size 1)
    ≡ some (some (if ◌==◌ 4 3 then [] else some (b'c' ∷ []) ∷ some (195 ∷ 233 ∷ []) ∷ []))
main_arguments-converts_example =
    main_arguments-converts some_converter two_for_some some_converts [] (b'c' ∷ b' ' ∷ 233 ∷ [])
      ((b'c' ∷ []) ∷ (233 ∷ []) ∷ []) (λ size. replicate size 1) (λ size. length-replicate size 1)
      (omega arith) refl

le_of_three : (n : ℕ) → n ≤ 3 * n
le_of_three n = omega arith

-- A title that has grown since its length was asked is cut.
names-fit_example :
    (get_class_name converter (some (b'a' ∷ [])) ≡ name (b'a' ∷ []))
    × (get_title_name converter 1 false (some (b'a' ∷ b'b' ∷ [])) ≡ name (b'a' ∷ []))
names-fit_example =
    names-fit converter ascii converts (λ src. le_of_three (length src)) 1 (b'a' ∷ [])
      (b'a' ∷ b'b' ∷ [])

abbrev snarl : Snarl
snarl = record { hwnd = 5; is_window = true; result_of = λ message. 7 }

abbrev greeting : MessageArgs
greeting = record {
  title = b'c' ∷ b'r' ∷ b'j' ∷ [];
  text = b'o' ∷ b'k' ∷ [];
  timeout = some (pos 3);
  icon_path = none;
  hwnd_to_reply = some 4_294_967_295;
  reply_message = none;
}

show_message-Shows_example : Shows snarl greeting
show_message-Shows_example = show_message-Shows snarl greeting refl refl refl

high_word-negative : int_of 4_294_967_295 ≡ negsuc 0
unfolding int_of
high_word-negative = refl

hide_message-refused : (hide_message (record snarl { is_window = false }) (pos 7)).0 ≡ false
unfolding hide_message
hide_message-refused = refl
