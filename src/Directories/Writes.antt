-- ===== src/Directories/Writes.antt =====
-- The writes of Crj_UserDirectory of src/api.c into its buffer.
use mathlib.Core.List.{append_assoc}
use cereja.Prelude.{
  ℕ, zero, suc, ◌+◌, ◌≤◌, ◌≡◌, Bool, true, false, not, ◌&&◌, some, List, [], ◌∷◌, ◌++◌, length,
  length-append, take, drop, ◌==◌, arith, refl, sym, ap, ◌∙◌, le→leb, length-drop, both_true,
}
use cereja.Prelude.Slices.{take-append}
use cereja.Directories.{
  Char, write_at, string_in, strcpy, strcat, Environment, written, base_directory, write_directory,
  directory_for, crj_user_directory,
}

abbrev pub is_text : List Char → Bool
is_text [] = true
is_text (c ∷ cs) = not (c == 0) && is_text cs

pub false_of_not : (b : Bool) → not b ≡ true → b ≡ false
false_of_not true h = absurd (ground arith)
false_of_not false h = refl

pub string_in-text :
    (text rest : List Char) → is_text text ≡ true → string_in (text ++ (0 ∷ rest)) ≡ some text
unfolding string_in
string_in-text [] rest e = refl
string_in-text (c ∷ cs) rest e =
    let (head, tail) = both_true (not (c == 0)) (is_text cs) e in
    rw (false_of_not (c == 0) head, string_in-text cs rest tail) refl

pub drop-append : (xs ys : List Char) (k n : ℕ) → k ≡ length xs + n → drop k (xs ++ ys) ≡ drop n ys
drop-append [] ys k n e = ap (λ i. drop i ys) (omega (arith, e))
drop-append (x ∷ xs) ys zero n e = absurd (omega (arith, e))
drop-append (x ∷ xs) ys (suc k) n e = drop-append xs ys k n (omega (arith, e))

drop-drop : (m n k : ℕ) (xs : List Char) → k ≡ n + m → drop m (drop n xs) ≡ drop k xs
drop-drop m zero k xs e = ap (λ i. drop i xs) (omega (arith, e))
drop-drop zero (suc n) (suc k) [] e = refl
drop-drop (suc m) (suc n) (suc k) [] e = refl
drop-drop m (suc n) zero xs e = absurd (omega (arith, e))
drop-drop m (suc n) (suc k) (x ∷ xs) e = drop-drop m n k xs (omega (arith, e))

-- The buffer after strcpy.
abbrev pub copied : (buf text : List Char) → List Char
copied buf text = text ++ (0 ∷ drop (length text + 1) buf)

pub write_at-fits :
    (buf : List Char) (i : ℕ) (text : List Char)
    → i + length text ≤ length buf
    → write_at buf i text ≡ some (take i buf ++ (text ++ drop (i + length text) buf))
write_at-fits buf i text fits = rw (le→leb (i + length text) (length buf) fits) refl

-- A write of `part` behind `pre` and over the beginning of `rest`.
pub write_at-behind :
    (pre part rest : List Char) (i : ℕ)
    → i ≡ length pre
    → length part ≤ length rest
    → write_at (pre ++ rest) i part ≡ some (pre ++ (part ++ drop (length part) rest))
write_at-behind pre part rest i e h =
    write_at-fits (pre ++ rest) i part (omega (arith, length-append pre rest))
    ∙ rw
        (
          take-append pre rest i e,
          drop-append pre rest (i + length part) (length part) (omega arith),
        )
        refl

strcpy-copies :
    (buf text : List Char) → length text + 1 ≤ length buf → strcpy buf text ≡ some (copied buf text)
strcpy-copies buf text fits =
    write_at-fits buf 0 (text ++ (0 ∷ [])) (omega (arith, fits, length-append text (0 ∷ [])))
    ∙ ap some (
        append_assoc text (0 ∷ []) (drop (0 + length (text ++ (0 ∷ []))) buf)
        ∙ ap (λ i. text ++ (0 ∷ drop i buf)) (omega (arith, length-append text (0 ∷ []))))

rest_of-copied :
    (buf text postfix : List Char)
    → drop (length text + length (postfix ++ (0 ∷ []))) (copied buf text)
      ≡ drop (length (text ++ postfix) + 1) buf
rest_of-copied buf text postfix =
    drop-append text (0 ∷ drop (length text + 1) buf) (length text + length (postfix ++ (0 ∷ [])))
      (suc (length postfix)) (omega (arith, length-append postfix (0 ∷ [])))
    ∙ drop-drop (length postfix) (length text + 1) (length (text ++ postfix) + 1) buf
        (omega (arith, length-append text postfix))

pub strcat-appends :
    (buf text postfix : List Char)
    → is_text text ≡ true
    → length text + length postfix + 1 ≤ length buf
    → strcat (copied buf text) postfix ≡ some (copied buf (text ++ postfix))
unfolding strcat
strcat-appends buf text postfix e fits =
    let rest = drop (length text + length (postfix ++ (0 ∷ []))) (copied buf text) in
    rw (string_in-text text (drop (length text + 1) buf) e) (
      write_at-fits (copied buf text) (length text) (postfix ++ (0 ∷ [])) (
        omega (
          arith,
          fits,
          length-append text (0 ∷ drop (length text + 1) buf),
          length-append postfix (0 ∷ []),
          length-drop (length text + 1) buf,
        ))
      ∙ ap some (
          ap (λ xs. xs ++ ((postfix ++ (0 ∷ [])) ++ rest))
            (take-append text (0 ∷ drop (length text + 1) buf) (length text) refl)
          ∙ ap (λ xs. text ++ xs) (append_assoc postfix (0 ∷ []) rest)
          ∙ sym (append_assoc text postfix (0 ∷ rest))
          ∙ ap (λ xs. (text ++ postfix) ++ (0 ∷ xs)) (rest_of-copied buf text postfix)))

write_directory-writes :
    (buf base_dir postfix : List Char)
    → is_text base_dir ≡ true
    → length base_dir + length postfix + 1 ≤ length buf
    → write_directory (length buf) buf base_dir postfix
      ≡ some (written (copied buf (base_dir ++ postfix)))
unfolding write_directory
write_directory-writes buf base_dir postfix e fits =
    rw
      (
        le→leb (length base_dir + length postfix + 1) (length buf) fits,
        strcpy-copies buf base_dir (omega (arith, fits)),
        strcat-appends buf base_dir postfix e fits,
      )
      refl

-- Where there is a directory, a text without NUL, and the buffer has room for it, its postfix and
-- a NUL, Crj_UserDirectory writes just these into the buffer and leaves the rest of the buffer as
-- it was.
pub crj_user_directory-writes :
    (env : Environment) (buf base_dir postfix : List Char)
    → base_directory env.cereja_userdir env.home env.appdata ≡ some (base_dir, postfix)
    → is_text base_dir ≡ true
    → length base_dir + length postfix + 1 ≤ length buf
    → crj_user_directory env (length buf) buf ≡ some (written (copied buf (base_dir ++ postfix)))
unfolding crj_user_directory directory_for
crj_user_directory-writes env buf base_dir postfix found e fits =
    rw found (write_directory-writes buf base_dir postfix e fits)
