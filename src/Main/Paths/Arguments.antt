-- ===== src/Main/Paths/Arguments.antt =====
-- The arguments that main of src/main.c converts.
use mathlib.Core.List.{append_assoc}
use cereja.Prelude.{
  ℕ, ◌+◌, ◌-◌, ◌≤◌, ◌≡◌, refl, sym, ap, ◌∙◌, Bool, true, false, ◌&&◌, Option, some, List, [], ◌∷◌,
  ◌++◌, map, length, length-append, length-drop, drop, ◌==◌, if◌then◌else◌, arith, both_true, inl,
  inr, Bool-cases,
}
use cereja.Directories.{Char, string_in}
use cereja.Directories.Writes.{is_text, string_in-text, drop-append, write_at-behind}
use cereja.Utf8.{Converter, Converts, from_native}
use cereja.Utf8.Texts.{from_native-fits}
use cereja.Main.Paths.{convert_at, arguments_loop, texts_at, main_arguments}

-- The texts one behind the other, each with its NUL, and where they begin.
abbrev pub packed : (List ℕ → List Char) → List (List ℕ) → List Char
packed encode [] = []
packed encode (w ∷ ws) = encode w ++ (0 ∷ packed encode ws)

abbrev places : (List ℕ → List Char) → (k : ℕ) → List (List ℕ) → List ℕ
places encode k [] = []
places encode k (w ∷ ws) = k ∷ places encode (k + (length (encode w) + 1)) ws

abbrev pub are_texts : (List ℕ → List Char) → List (List ℕ) → Bool
are_texts encode [] = true
are_texts encode (w ∷ ws) = is_text (encode w) && are_texts encode ws

module _ (C : Converter) (encode : List ℕ → List ℕ) (converts : Converts C encode) where
  converts_at :
      (w : List ℕ) (pre tail : List Char) (k : ℕ)
      → k ≡ length pre
      → length (encode w) + 1 ≤ length tail
      → convert_at C (length (encode w) + 1, encode w) k (pre ++ tail)
        ≡ some (pre ++ ((encode w ++ (0 ∷ [])) ++ drop (length (encode w ++ (0 ∷ []))) tail))
  unfolding convert_at
  converts_at w pre tail k e fits =
      let nonzero : (length (encode w) + 1 == 0) ≡ false = ground arith in
      rw nonzero (
        write_at-behind pre (encode w ++ (0 ∷ [])) tail k e
          (omega (arith, fits, length-append (encode w) (0 ∷ []))))

  -- The loop from the place behind `pre` on.
  loop-packs :
      (ws : List (List ℕ)) (pre tail : List Char) (k rest : ℕ)
      → k ≡ length pre
      → rest ≡ length tail
      → length (packed encode ws) ≤ length tail
      → (garbage : List Char) × (arguments_loop C ws k rest (pre ++ tail)
          ≡ some (places encode k ws, pre ++ (packed encode ws ++ garbage)))
  unfolding arguments_loop
  loop-packs [] pre tail k rest e f fits = (tail, refl)
  loop-packs (w ∷ ws) pre tail k rest e f fits =
      let n = length (encode w) in
      let part = encode w ++ (0 ∷ []) in
      let size : length part ≡ n + 1 = length-append (encode w) (0 ∷ []) in
      let total : length (encode w ++ (0 ∷ packed encode ws))
          ≡ n + (length (packed encode ws) + 1) =
        omega (arith, length-append (encode w) (0 ∷ packed encode ws)) in
      let (garbage, run) =
        loop-packs ws (pre ++ part) (drop (length part) tail) (k + (n + 1)) (rest - (n + 1))
          (omega (arith, e, size, length-append pre part))
          (omega (arith, f, size, length-drop (length part) tail))
          (omega (arith, fits, total, size, length-drop (length part) tail)) in
      (
        garbage,
        rw
            (
              from_native-fits C encode converts rest w (omega (arith, f, fits, total)),
              converts_at w pre tail k e (omega (arith, fits, total)),
              ← append_assoc pre part (drop (length part) tail),
              run,
              append_assoc pre part (packed encode ws ++ garbage),
              append_assoc (encode w) (0 ∷ []) (packed encode ws ++ garbage),
              append_assoc (encode w) (0 ∷ packed encode ws) garbage,
            )
            refl,
      )

texts_at-places :
    (encode : List ℕ → List Char) (ws : List (List ℕ)) (pre garbage : List Char) (k : ℕ)
    → k ≡ length pre
    → are_texts encode ws ≡ true
    → texts_at (places encode k ws) (pre ++ (packed encode ws ++ garbage))
      ≡ map (λ w. some (encode w)) ws
texts_at-places encode [] pre garbage k e h = refl
texts_at-places encode (w ∷ ws) pre garbage k e h =
    let (text, texts) = both_true (is_text (encode w)) (are_texts encode ws) h in
    let part = encode w ++ (0 ∷ []) in
    let here : (encode w ++ (0 ∷ packed encode ws)) ++ garbage
        ≡ encode w ++ (0 ∷ (packed encode ws ++ garbage)) =
      append_assoc (encode w) (0 ∷ packed encode ws) garbage in
    let there : pre ++ (encode w ++ (0 ∷ (packed encode ws ++ garbage)))
        ≡ (pre ++ part) ++ (packed encode ws ++ garbage) =
      ap (λ x. pre ++ x) (sym (append_assoc (encode w) (0 ∷ []) (packed encode ws ++ garbage)))
      ∙ sym (append_assoc pre part (packed encode ws ++ garbage)) in
    let first : string_in (drop k (pre ++ ((encode w ++ (0 ∷ packed encode ws)) ++ garbage)))
        ≡ some (encode w) =
      ap string_in
        (drop-append pre ((encode w ++ (0 ∷ packed encode ws)) ++ garbage) k 0 (omega arith) ∙ here)
      ∙ string_in-text (encode w) (packed encode ws ++ garbage) text in
    let rest : texts_at (places encode (k + (length (encode w) + 1)) ws)
          (pre ++ ((encode w ++ (0 ∷ packed encode ws)) ++ garbage))
        ≡ map (λ v. some (encode v)) ws =
      ap (λ x. texts_at (places encode (k + (length (encode w) + 1)) ws) x)
        (ap (λ x. pre ++ x) here ∙ there)
      ∙ texts_at-places encode ws (pre ++ part) garbage (k + (length (encode w) + 1))
          (omega (arith, e, length-append pre part, length-append (encode w) (0 ∷ []))) texts in
    rw (first, rest) refl

module _ (C : Converter) (encode : List ℕ → List ℕ) (converts : Converts C encode) where
  -- Where the conversion works as documented, the arguments of the command line are no longer in
  -- UTF-8, with a NUL each, than the whole command line with its NUL, and none of them has a NUL
  -- inside, main stays inside its buffer and hands each argument to inner_main in UTF-8, in their
  -- order, or its own arguments where the command line has the same length in both encodings.
  pub main_arguments-converts :
      (av : List (Option (List Char))) (cmdline : List ℕ) (ws : List (List ℕ))
      (u_buf : (size : ℕ) → List Char)
      → ((size : ℕ) → length (u_buf size) ≡ size)
      → length (packed encode ws) ≤ length (encode cmdline) + 1
      → are_texts encode ws ≡ true
      → main_arguments C av cmdline (some ws) u_buf
        ≡ some (
            some (
              if length (encode cmdline) == length cmdline
              then av
              else map (λ w. some (encode w)) ws))
  unfolding main_arguments from_native
  main_arguments-converts av cmdline ws u_buf sized fits texts =
      let n = length (encode cmdline) + 1 in
      let (garbage, run) =
        loop-packs C encode converts ws [] (u_buf n) 0 n refl (sym (sized n))
          (omega (arith, sized n, fits)) in
      let done = texts_at-places encode ws [] garbage 0 refl texts in
      let asked = converts.asked cmdline in
      elim (Bool-cases (length (encode cmdline) == length cmdline)) [
        | inl same ↦
            let equal : (length (encode cmdline) + 1 == length cmdline + 1) ≡ true =
              ground (arith, same) in
            rw (asked, same, equal) refl
        | inr other ↦
            let unequal : (length (encode cmdline) + 1 == length cmdline + 1) ≡ false =
              ground (arith, other) in
            rw (asked, other, unequal, run, done) refl
      ]
