-- ===== src/Errors/Chomps.antt =====
-- The texts that Crj_PushWindowsError of src/api.c pushes.
use mathlib.Core.Path.{subst}
use mathlib.Core.List.{append_assoc, append-nil}
use cereja.Prelude.{
  ℕ, zero, suc, ◌<◌, ◌≡◌, refl, ap, sym, ◌∙◌, Bool, true, false, not, ◌&&◌, Option, some, List, [],
  ◌∷◌, ◌++◌, length, ◌==◌, if◌then◌else◌, arith, inl, inr, Bool-cases, all_true, both_true,
}
use cereja.Prelude.Slices.{get_elem?-append, set-append, snoc-append, unsnoc, length-snoc}
use cereja.Directories.{Char}
use cereja.Directories.Writes.{is_text, string_in-text}
use cereja.Utf8.{
  Converter, Converts, BlockCall, allocated, freed, system_buffer, local_buffer, format_message_u,
}
use cereja.Utf8.Messages.{left, frees_own, allocated_message-converted}
use cereja.Errors.{ErrorText, with_message, chomp_loop, push_message, crj_push_windows_error}

abbrev all_controls : (Char → Bool) → List Char → Bool
all_controls is_control [] = true
all_controls is_control (c ∷ cs) = is_control c && all_controls is_control cs

abbrev ends_in_control : (Char → Bool) → List Char → Bool
ends_in_control is_control [] = false
ends_in_control is_control (c ∷ []) = is_control c
ends_in_control is_control (c ∷ d ∷ ds) = ends_in_control is_control (d ∷ ds)

-- A text without the control characters at its end.
pub record IsChomped (is_control : Char → Bool) (text chomped : List Char) : Type 0 where
  pub controls : List Char
  pub joined : text ≡ chomped ++ controls
  pub are_controls : all_controls is_control controls ≡ true
  pub ends : ends_in_control is_control chomped ≡ false

ends_in_control-snoc :
    (is_control : Char → Bool) (pre : List Char) (c : Char)
    → ends_in_control is_control (pre ++ c ∷ []) ≡ is_control c
ends_in_control-snoc is_control [] c = refl
ends_in_control-snoc is_control (p ∷ []) c = refl
ends_in_control-snoc is_control (p ∷ q ∷ pre) c = ends_in_control-snoc is_control (q ∷ pre) c

is_text-prefix : (xs ys : List Char) → is_text (xs ++ ys) ≡ true → is_text xs ≡ true
is_text-prefix [] ys e = refl
is_text-prefix (x ∷ xs) ys e =
    let (head, tail) = both_true (not (x == 0)) (is_text (xs ++ ys)) e in
    all_true head (is_text-prefix xs ys tail)

-- The buffer after the loop: the chomped text, and a NUL behind it.
abbrev Chomps : (is_control : Char → Bool) → (n : ℕ) → (text rest : List Char) → Type 0
Chomps is_control n text rest =
    (chomped : List Char) × (after : List Char) × (chomp_loop is_control n (text ++ (0 ∷ rest))
      ≡ some (chomped ++ (0 ∷ after)))
    × IsChomped is_control text chomped

all_controls-snoc :
    (is_control : Char → Bool) (cs : List Char) (c : Char)
    → all_controls is_control cs ≡ true
    → is_control c ≡ true
    → all_controls is_control (cs ++ c ∷ []) ≡ true
all_controls-snoc is_control [] c h k = rw k
all_controls-snoc is_control (d ∷ ds) c h k =
    let (head, tail) = both_true (is_control d) (all_controls is_control ds) h in
    all_true head (all_controls-snoc is_control ds c tail k)

chomp_step :
    (is_control : Char → Bool) (n : ℕ) (init : List Char) (last : Char) (rest : List Char)
    → length init ≡ n
    → Chomps is_control n init (0 ∷ rest)
    → Chomps is_control (suc n) (init ++ last ∷ []) rest
unfolding chomp_loop
chomp_step is_control n init last rest e (chomped, after, run, c) =
    elim (Bool-cases (is_control last)) [
      | inl control ↦ (
        chomped,
        after,
        rw
            (
              snoc-append init last (0 ∷ rest),
              get_elem?-append init last (0 ∷ rest) n (sym e),
              control,
              set-append init last (0 ∷ rest) n 0 (sym e),
            )
            run,
        record {
          controls = c.controls ++ last ∷ [];
          joined = ap (λ x. x ++ last ∷ []) c.joined ∙ append_assoc chomped c.controls (last ∷ []);
          are_controls = all_controls-snoc is_control c.controls last c.are_controls control;
          ends = c.ends;
        },
      )
      | inr other ↦ (
        init ++ last ∷ [],
        rest,
        rw
            (
              snoc-append init last (0 ∷ rest),
              get_elem?-append init last (0 ∷ rest) n (sym e),
              other,
            )
            refl,
        record {
          controls = [];
          joined = sym (append-nil (init ++ last ∷ []));
          are_controls = refl;
          ends = ends_in_control-snoc is_control init last ∙ other;
        },
      )
    ]

chomp_loop-Chomps :
    (is_control : Char → Bool) (n : ℕ) (text rest : List Char)
    → length text ≡ n
    → Chomps is_control n text rest
unfolding chomp_loop
chomp_loop-Chomps is_control zero [] rest e =
    ([], rest, refl, record { controls = []; joined = refl; are_controls = refl; ends = refl })
chomp_loop-Chomps is_control zero (c ∷ cs) rest e = absurd (omega (arith, e))
chomp_loop-Chomps is_control (suc n) [] rest e = absurd (omega (arith, e))
chomp_loop-Chomps is_control (suc n) (c ∷ cs) rest e =
    let (init, last, eq) = unsnoc c cs in
    let size : length init ≡ n =
      omega (arith, e, ap (λ (x : List Char). length x) eq, length-snoc init last) in
    subst (λ t. Chomps is_control (suc n) t rest) (sym eq)
      (chomp_step is_control n init last rest size
        (chomp_loop-Chomps is_control n init (0 ∷ rest) size))

-- What Crj_PushWindowsError does with a message that Windows gives in the text `text`.
pub record Pushes (is_control : Char → Bool) (error_code : ℕ) (text : List Char)
    (result : Option (ErrorText × List BlockCall)) : Type 0 where
  pub chomped : List Char
  pub is_chomped : IsChomped is_control text chomped
  pub calls : List BlockCall
  pub pushed : result ≡ some (with_message error_code chomped, calls)
  pub frees : frees_own calls ≡ true
  pub none_left : left calls ≡ []

-- The error that the function is about: the last one of Windows for the code 0.
abbrev pub code_of : (error_code last_error : ℕ) → ℕ
code_of error_code last_error = if error_code == 0 then last_error else error_code

module _ (C : Converter) (encode : List ℕ → List ℕ) (converts : Converts C encode) where
  message_of-converted :
      (m : List ℕ)
      → format_message_u C true 0 true (some m) ≡ (record {
        result = length (encode m);
        text = some (encode m);
        calls = freed system_buffer ∷ allocated local_buffer ∷ allocated system_buffer ∷ [];
      })
  unfolding format_message_u
  message_of-converted m = allocated_message-converted C encode converts m

  -- Where Windows has a message for the error, the last error for the code 0, whose text is not
  -- empty and has no NUL, and LocalAlloc succeeds, Crj_PushWindowsError pushes the code and the
  -- text without the control characters at its end, reads and writes inside its buffer, frees only
  -- what is allocated, and leaves no block allocated.
  pub crj_push_windows_error-Pushes :
      (is_control : Char → Bool) (error_code last_error : ℕ) (message : ℕ → Option (List ℕ))
      (m : List ℕ)
      → message (code_of error_code last_error) ≡ some m
      → 0 < length (encode m)
      → is_text (encode m) ≡ true
      → Pushes is_control
          (code_of error_code last_error)
          (encode m)
          (crj_push_windows_error C is_control error_code last_error true message)
  unfolding crj_push_windows_error push_message
  crj_push_windows_error-Pushes is_control error_code last_error message m e full text =
      let (chomped, after, run, c) =
        chomp_loop-Chomps is_control (length (encode m)) (encode m) [] refl in
      let same = ap (λ t. is_text t) (sym c.joined) ∙ text in
      let nonzero : (length (encode m) == 0) ≡ false = ground (arith, full) in
      record {
        chomped = chomped;
        is_chomped = c;
        calls =
            freed local_buffer
            ∷ freed system_buffer
            ∷ allocated local_buffer
            ∷ allocated system_buffer
            ∷ [];
        pushed =
            rw
              (
                e,
                message_of-converted m,
                nonzero,
                run,
                string_in-text chomped after (is_text-prefix chomped c.controls same),
              )
              refl;
        frees = refl;
        none_left = refl;
      }
