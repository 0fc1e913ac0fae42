-- ===== src/Snarl.antt =====
-- The extension app.snarl, lib/app/snarl.c: messages to the program Snarl by WM_COPYDATA. Its members for
-- texts are arrays of 1024 characters; what Windows and Snarl answer is given.
pub mod Reads
use cereja.Prelude.{
  ℕ, zero, suc, ◌-◌, ◌%◌, ◌^◌, Bool, Option, none, some, ◌>>=◌, List, [], ◌∷◌, length, replicate,
  ltb, ◌==◌, not, if◌then◌else◌,
}
use cereja.Prelude.Int.{ℤ, pos, negsuc}
use cereja.Directories.{Char, write_at}

abbrev pub member_size : ℕ
member_size = 1024

-- A word of 32 bits as an `int`.
unfoldable pub int_of : ℕ → ℤ
int_of word = let w = word % 2 ^ 32 in if ltb w (2 ^ 31) then pos w else negsuc (2 ^ 32 - 1 - w)

-- SNARLSTRUCT
pub record SnarlStruct : Type 0 where
  pub cmd : ℕ
  pub id : ℤ
  pub timeout : ℤ
  pub lng_data2 : ℤ
  pub title : List Char
  pub text : List Char
  pub icon : List Char

-- The message after ZeroMemory.
abbrev pub zeroed : SnarlStruct
zeroed = record {
  cmd = 0;
  id = pos 0;
  timeout = pos 0;
  lng_data2 = pos 0;
  title = replicate member_size 0;
  text = replicate member_size 0;
  icon = replicate member_size 0;
}

-- The `n` characters that strncpy writes of a text.
abbrev pub padded : (n : ℕ) → (src : List Char) → List Char
padded zero src = []
padded (suc n) [] = 0 ∷ padded n []
padded (suc n) (c ∷ src) = c ∷ padded n src

-- The macro STRCPY.
unfoldable pub str_cpy : (dest src : List Char) → Option (List Char)
str_cpy dest src = write_at dest 0 (padded (length dest) src) >>= λ written.
    write_at written (length dest - 1) (0 ∷ [])

-- The window of FindWindow, 0 where there is none, whether IsWindow says that it is there, and what
-- SendMessageTimeout leaves in `result` for a message.
pub record Snarl : Type 0 where
  pub hwnd : ℕ
  pub is_window : Bool
  pub result_of : SnarlStruct → ℕ

-- The result, and the message where one was sent.
abbrev pub send_snarl_message : Snarl → SnarlStruct → ℕ × Option SnarlStruct
send_snarl_message s message =
    if s.is_window then (s.result_of message, some message) else (0, none)

abbrev pub get_window : Snarl → ℕ
get_window s = if s.is_window then s.hwnd else 0

-- The arguments of app.snarl.show_message, those behind `|` optional.
pub record MessageArgs : Type 0 where
  pub title : List Char
  pub text : List Char
  pub timeout : Option ℤ
  pub icon_path : Option (List Char)
  pub hwnd_to_reply : Option ℕ
  pub reply_message : Option ℕ

abbrev pub or_default {ℓ} : {A : Type ℓ} → A → Option A → A
or_default d none = d
or_default d (some a) = a

-- The integer that is pushed and the message that was sent, `none` on a write outside a member.
unfoldable pub show_message : Snarl → MessageArgs → Option (ℤ × Option SnarlStruct)
unfolding str_cpy int_of
show_message s a = str_cpy zeroed.title a.title >>= λ title. str_cpy zeroed.text a.text >>= λ text.
    str_cpy zeroed.icon (or_default [] a.icon_path) >>= λ icon.
    let sent = send_snarl_message s (record {
      cmd = 1;
      id = int_of (or_default 0 a.reply_message);
      timeout = or_default (pos 0) a.timeout;
      lng_data2 = int_of (or_default 0 a.hwnd_to_reply);
      title = title;
      text = text;
      icon = icon;
    }) in
    some (int_of sent.0, sent.1)

unfoldable pub hide_message : Snarl → ℤ → Bool × Option SnarlStruct
hide_message s snarl_message_id =
    let sent = send_snarl_message s (record zeroed { cmd = 2; id = snarl_message_id }) in
    (not (sent.0 == 0), sent.1)
