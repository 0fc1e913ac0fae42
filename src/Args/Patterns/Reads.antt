-- ===== src/Args/Patterns/Reads.antt =====
-- What Crj_ParseArgs of src/api.c stores for the values of a nested format.
use cereja.Prelude.{ℕ, ◌+◌, ◌≤◌, ◌≡◌, refl, ap, ◌∙◌, false, some, List, [], ◌∷◌, length, arith}
use cereja.Args.Machine.{Lua, Char, VaArg, Value, done, skip_spaces}
use cereja.Args.Shrinks.{length-skip_spaces}
use cereja.Args.{args_loop, crj_parse_args, fuel_for}
use cereja.Args.Patterns.{Pattern, pattern_text, pattern_args, Agrees, pattern_writes, pattern_fuel}
use cereja.Args.Patterns.Sizes.{pattern_fuel-le}
use cereja.Args.Patterns.Steps.{skip_pattern, skip_space, state}
use cereja.Args.Patterns.Nested.{reads_pattern_lem}

module _ (L : Lua) where
  -- A value with a pattern that it agrees with.
  pub record Argument : Type 0 where
    pub pattern : Pattern L
    pub value : L.Val
    pub agrees : Agrees L pattern value

  abbrev pub text_of : List Argument → List Char
  text_of [] = []
  text_of (a ∷ rest) = pattern_text L a.pattern (text_of rest)

  abbrev pub values_of : List Argument → List L.Val
  values_of [] = []
  values_of (a ∷ rest) = a.value ∷ values_of rest

  abbrev pub va_of : List Argument → List (VaArg L)
  va_of [] = []
  va_of (a ∷ rest) = pattern_args L a.pattern (va_of rest)

  abbrev pub writes_of : List Argument → List (ℕ × Value L) → List (ℕ × Value L)
  writes_of [] w = w
  writes_of (a ∷ rest) w = writes_of rest (pattern_writes L a.pattern a.value w)

  -- The space behind the last value is left.
  abbrev pub left_of : List Argument → (format : List Char) → List Char
  left_of [] format = format
  left_of (a ∷ rest) format = left_of rest (32 ∷ [])

  skip_text : (rest : List Argument) → skip_spaces (text_of rest) ≡ text_of rest
  unfolding skip_spaces
  skip_text [] = refl
  skip_text (a ∷ rest) = skip_pattern L a.pattern a.value (text_of rest) a.agrees

  fuel-le :
      (p : Pattern L) (format rest : List Char)
      → skip_spaces format ≡ pattern_text L p rest
      → pattern_fuel L p ≤ fuel_for L format
  fuel-le p format rest at = omega (
    arith,
    pattern_fuel-le L p rest,
    length-skip_spaces format,
    ap (λ (x : List Char). length x) at,
  )

  reads_all :
      (given : List Argument) (index : ℕ) (format : List Char) (w : List (ℕ × Value L))
      → skip_spaces format ≡ text_of given
      → args_loop L (values_of given) index (state L format (va_of given) w (some false))
        ≡ done (state L (left_of given format) [] (writes_of given w) (some false))
  unfolding args_loop
  reads_all [] index format w at = refl
  reads_all (a ∷ []) index format w at =
      rw
        (reads_pattern_lem L a.pattern (fuel_for L format) a.value index false format [] [] w
          (some false) (fuel-le a.pattern format [] at) a.agrees at)
        refl
  reads_all (a ∷ b ∷ rest) index format w at =
      let more = text_of (b ∷ rest) in
      rw
        (reads_pattern_lem L a.pattern (fuel_for L format) a.value index false format more
          (va_of (b ∷ rest)) w (some false) (fuel-le a.pattern format more at) a.agrees at)
        (reads_all (b ∷ rest) (index + 1) (32 ∷ more) (pattern_writes L a.pattern a.value w)
          (skip_space L more ∙ skip_text (b ∷ rest)))

  left_of-cons :
      (rest : List Argument) (a : Argument) (format : List Char)
      → left_of (a ∷ rest) format ≡ 32 ∷ []
  left_of-cons [] a format = refl
  left_of-cons (b ∷ rest) a format = left_of-cons rest b (32 ∷ [])

  left_of-text_of : (given : List Argument) → left_of given (text_of given) ≡ left_of given []
  left_of-text_of [] = refl
  left_of-text_of (a ∷ rest) = refl

  skip_left : (given : List Argument) → skip_spaces (left_of given []) ≡ []
  unfolding skip_spaces
  skip_left [] = refl
  skip_left (a ∷ rest) = rw (left_of-cons rest a []) refl

  -- For the printed format of any patterns, each with a space behind it, which may be tables in
  -- tables with elements, required fields, optional fields that are there, and optional plain
  -- fields that are not, and for values that agree with them, Crj_ParseArgs reads each value into
  -- its variable, in their order, leaves the variables of the absent fields alone, takes all
  -- variable arguments, and raises no error.
  pub crj_parse_args-nested :
      (given : List Argument)
      → crj_parse_args L (values_of given) (text_of given) (va_of given)
        ≡ done (record {
          format = left_of given [];
          va = [];
          written = writes_of given [];
          optional = some false;
        })
  unfolding crj_parse_args
  crj_parse_args-nested given =
      rw
        (
          reads_all given 1 (text_of given) [] (skip_text given),
          left_of-text_of given,
          skip_left given,
        )
        refl
