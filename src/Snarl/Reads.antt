-- ===== src/Snarl/Reads.antt =====
-- What Snarl reads in the messages of lib/app/snarl.c.
use cereja.Prelude.{
  ℕ, zero, suc, ◌-◌, ◌≡◌, true, not, Option, none, some, ◌>>=◌, List, [], ◌∷◌, ◌++◌, length,
  length-append, replicate, length-replicate, take, ◌==◌, if◌then◌else◌, arith, refl, sym, ap, ◌∙◌,
  both_true, inl, inr, Bool-cases,
}
use cereja.Prelude.Int.{ℤ, pos}
use cereja.Prelude.Slices.{drop-all}
use cereja.Directories.{Char, write_at, string_in}
use cereja.Directories.Writes.{is_text, false_of_not, write_at-behind}
use cereja.Snarl.{
  member_size, int_of, SnarlStruct, padded, str_cpy, Snarl, MessageArgs, or_default, show_message,
  send_snarl_message,
}

length-padded : (n : ℕ) (src : List Char) → length (padded n src) ≡ n
length-padded zero src = refl
length-padded (suc n) [] = ap suc (length-padded n [])
length-padded (suc n) (c ∷ src) = ap suc (length-padded n src)

padded-snoc : (m : ℕ) (src : List Char) → (c : Char) × (padded (suc m) src ≡ padded m src ++ c ∷ [])
padded-snoc zero [] = (0, refl)
padded-snoc zero (c ∷ src) = (c, refl)
padded-snoc (suc m) [] = let (d, e) = padded-snoc m [] in (d, ap (◌∷◌ 0) e)
padded-snoc (suc m) (c ∷ src) = let (d, e) = padded-snoc m src in (d, ap (◌∷◌ c) e)

string_in-padded :
    (m : ℕ) (src : List Char)
    → is_text src ≡ true
    → string_in (padded m src ++ 0 ∷ []) ≡ some (take m src)
unfolding string_in
string_in-padded zero src e = refl
string_in-padded (suc m) [] e = refl
string_in-padded (suc m) (c ∷ src) e =
    let (head, tail) = both_true (not (c == 0)) (is_text src) e in
    rw (false_of_not (c == 0) head, string_in-padded m src tail) refl

append_nil : (xs : List Char) → xs ++ [] ≡ xs
append_nil [] = refl
append_nil (x ∷ xs) = ap (◌∷◌ x) (append_nil xs)

-- strncpy fills the whole array.
strncpy-fills :
    (dest src : List Char) (n : ℕ)
    → length dest ≡ n
    → write_at dest 0 (padded n src) ≡ some (padded n src)
strncpy-fills dest src n e =
    write_at-behind [] (padded n src) dest 0 refl (omega (arith, e, length-padded n src))
    ∙ ap (λ xs. some (padded n src ++ xs))
        (drop-all (length (padded n src)) dest (omega (arith, e, length-padded n src)))
    ∙ ap some (append_nil (padded n src))

str_cpy-fills :
    (dest src : List Char) (m : ℕ)
    → length dest ≡ suc m
    → str_cpy dest src ≡ some (padded m src ++ 0 ∷ [])
unfolding str_cpy
str_cpy-fills dest src m e =
    let (c, last) = padded-snoc m src in
    let nul = λ (written : List Char). write_at written (suc m - 1) (0 ∷ []) in
    ap (λ n. write_at dest 0 (padded n src) >>= λ written. write_at written (n - 1) (0 ∷ [])) e
    ∙ ap (λ copied. copied >>= nul) (strncpy-fills dest src (suc m) e)
    ∙ ap nul last
    ∙ write_at-behind (padded m src) (0 ∷ []) (c ∷ []) (suc m - 1)
        (omega (arith, length-padded m src)) (omega arith)

-- A member for a text: how long it is, and what Snarl reads in it.
pub record Holds (member src : List Char) : Type 0 where
  pub long : length member ≡ member_size
  pub read : string_in member ≡ some (take (member_size - 1) src)

-- What the sending of a message answers, and the message where it was sent.
abbrev pub told : Snarl → SnarlStruct → ℤ × Option SnarlStruct
told s message = if s.is_window then (int_of (s.result_of message), some message) else (pos 0, none)

-- What a call of app.snarl.show_message has done.
pub record Shows (s : Snarl) (a : MessageArgs) : Type 0 where
  pub message : SnarlStruct
  pub runs : show_message s a ≡ some (told s message)
  pub title : Holds message.title a.title
  pub text : Holds message.text a.text
  pub icon : Holds message.icon (or_default [] a.icon_path)
  pub cmd : message.cmd ≡ 1
  pub timeout : message.timeout ≡ or_default (pos 0) a.timeout
  pub id : message.id ≡ int_of (or_default 0 a.reply_message)
  pub lng_data2 : message.lng_data2 ≡ int_of (or_default 0 a.hwnd_to_reply)

copies :
    (src : List Char)
    → is_text src ≡ true
    → (member : List Char) × (str_cpy (replicate member_size 0) src ≡ some member)
      × Holds member src
copies src e = (
  padded 1023 src ++ 0 ∷ [],
  str_cpy-fills (replicate member_size 0) src 1023 (length-replicate {A = Char} member_size 0),
  record {
    long = omega (arith, length-append (padded 1023 src) (0 ∷ []), length-padded 1023 src);
    read = string_in-padded 1023 src e;
  },
)

answered :
    (s : Snarl) (message : SnarlStruct)
    → told s message ≡ (int_of (send_snarl_message s message).0, (send_snarl_message s message).1)
unfolding int_of
answered s message = elim (Bool-cases s.is_window) [
  | inl there ↦ rw there refl
  | inr missing ↦ rw missing refl
]

-- Where the texts have no NUL, app.snarl.show_message returns, writes nothing outside the members
-- of its message, and, just where the window of Snarl is there, sends it: Snarl reads in it the
-- first 1023 characters of the title, of the text and of the path of the icon, and the timeout,
-- the window and the message for the reply, each with its default where it is not given. The
-- result is Snarl's, and 0 where nothing is sent.
pub show_message-Shows :
    (s : Snarl) (a : MessageArgs)
    → is_text a.title ≡ true
    → is_text a.text ≡ true
    → is_text (or_default [] a.icon_path) ≡ true
    → Shows s a
unfolding show_message
show_message-Shows s a h k l =
    let (title, t, titled) = copies a.title h in
    let (text, x, written) = copies a.text k in
    let (icon, i, pictured) = copies (or_default [] a.icon_path) l in
    let message : SnarlStruct = record {
      cmd = 1;
      id = int_of (or_default 0 a.reply_message);
      timeout = or_default (pos 0) a.timeout;
      lng_data2 = int_of (or_default 0 a.hwnd_to_reply);
      title = title;
      text = text;
      icon = icon;
    } in
    record {
      message = message;
      runs = rw (t, x, i) (ap some (sym (answered s message)));
      title = titled;
      text = written;
      icon = pictured;
      cmd = refl;
      timeout = refl;
      id = refl;
      lng_data2 = refl;
    }
