-- ===== src/Args/Fuel.antt =====
-- The end of Crj_ParseArgs and Crj_ParseTable of src/api.c, by the fuel for their formats.
use mathlib.Core.Path.{subst}
use cereja.Prelude.{
  ℕ, ◌+◌, ◌-◌, ◌≤◌, ◌≡◌, ◌≢◌, Bool, true, false, ◌||◌, Option, none, some, List, [], ◌∷◌, length,
  ◌==◌, arith, refl,
}
use cereja.Args.Machine.{Lua, Char, VaArg, Parsed, done, out_of_fuel, Args, skip_spaces}
use cereja.Args.{
  parse_item, args_loop, check_rest, check_end, bad_call, crj_parse_args, crj_parse_table, fuel_for,
}
use cereja.Args.Shrinks.{shrinks, bind-shrinks, shrinks-more, in_error-shrinks, either}
use cereja.Args.Enough.{enough}

module _ (L : Lua) where
  args_loop-shrinks :
      (values : List L.Val) (index : ℕ) (s : Args L)
      → shrinks L (length s.format) (args_loop L values index s) ≡ true
  unfolding args_loop
  args_loop-shrinks [] index s = ground arith
  args_loop-shrinks (value ∷ values) index s =
      let n = length s.format in
      let fuel = fuel_for L s.format in
      bind-shrinks L n n _ (args_loop L values (index + 1))
        (in_error-shrinks L n (bad_call L s.format (length values + 1) index)
          (parse_item L fuel value index false s)
          (shrinks-more L (n - 1) n (parse_item L fuel value index false s) (omega arith)
            ((enough L fuel).item value index false s (omega arith))))
        (λ t le.
          shrinks-more L (length t.format) n (args_loop L values (index + 1) t) le
            (args_loop-shrinks values (index + 1) t))

  check_rest-shrinks :
      (n : ℕ) (cs : List Char) (optional : Option Bool) (s : Args L)
      → length s.format ≤ n
      → shrinks L n (check_rest L cs optional s) ≡ true
  unfolding check_rest
  check_rest-shrinks n [] optional s h = ground arith
  check_rest-shrinks n (c ∷ rest) none s h = refl
  check_rest-shrinks n (c ∷ rest) (some optional) s h =
      let read : shrinks L n (done s) ≡ true = ground arith in
      either L n (optional || c == 124) (done s) _ read refl

  check_end-shrinks :
      (n : ℕ) (cs : List Char) (s : Args L)
      → length s.format ≤ n
      → shrinks L n (check_end L cs s) ≡ true
  unfolding check_end
  check_end-shrinks n [] s h = ground arith
  check_end-shrinks n (c ∷ rest) s h = refl

  -- A run that shrinks the format has the fuel that it wants.
  shrinks-runs : (n : ℕ) (r : Parsed L (Args L)) → shrinks L n r ≡ true → r ≢ out_of_fuel
  shrinks-runs n r h e =
      let wrong : false ≡ true = subst (λ x. shrinks L n x ≡ true) e h in ground arith

  -- Crj_ParseArgs ends on every format, whatever the values and the variable arguments are: it
  -- reads the values, raises an error or has undefined behaviour, and never wants fuel.
  pub crj_parse_args-ends :
      (values : List L.Val) (format : List Char) (va : List (VaArg L))
      → crj_parse_args L values format va ≢ out_of_fuel
  unfolding crj_parse_args
  crj_parse_args-ends values format va =
      let s : Args L = record { format = format; va = va; written = []; optional = some false } in
      let n = length format in
      shrinks-runs n (crj_parse_args L values format va) (
        bind-shrinks L n n (args_loop L values 1 s) _ (args_loop-shrinks values 1 s)
          (λ t le. check_rest-shrinks n (skip_spaces t.format) t.optional t le))

  -- Crj_ParseTable ends on every format, whatever the value and the variable arguments are, and
  -- never wants fuel.
  pub crj_parse_table-ends :
      (value : L.Val) (index : ℕ) (format : List Char) (va : List (VaArg L))
      → crj_parse_table L value index format va ≢ out_of_fuel
  unfolding crj_parse_table
  crj_parse_table-ends value index format va =
      let s : Args L = record { format = format; va = va; written = []; optional = none } in
      let n = length format in
      shrinks-runs n (crj_parse_table L value index format va) (
        bind-shrinks L (n - 1) n (parse_item L (fuel_for L format) value index false s) _
          ((enough L (fuel_for L format)).item value index false s (omega arith))
          (λ t le. check_end-shrinks n (skip_spaces t.format) t (omega arith)))
