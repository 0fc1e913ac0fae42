-- ===== src/Build.antt =====
-- `Crj_BuildValues` of src/api.c: values are pushed to the Lua stack by a format, from the variable
-- arguments. The calls of Lua are kept in a log, the last one first.
pub mod Machine
pub mod Scalars
pub mod Heights
pub mod Balance
pub mod Prints
use cereja.Prelude.{
  ℕ, zero, suc, ◌+◌, ◌-◌, ◌*◌, Bool, true, false, not, ◌&&◌, ◌||◌, Option, none, some, List, [],
  ◌∷◌, ◌++◌, length, take, leb, ◌==◌, if◌then◌else◌,
}
use cereja.Prelude.Int.{ℤ, pos, negsuc, neg, ltb_ℤ, ◌-ℤ◌}
use cereja.Args.Machine.{Lua, Char, skip_spaces}
use cereja.Build.Machine.{
  BuildArg, BuildError, Built, Call, Run, Status, bind, pushed, double, int, unsigned, long,
  unsigned_long, chars, size, address, function, push_number, push_integer, push_string,
  push_boolean, push_lightuserdata, push_function, push_value, new_table, swap_top, set_table,
  success, end_of_format, table_field_prefix, end_of_table, bad_item, unmatched_field,
  table_not_terminated, done, failed, aborted, fault, out_of_fuel,
}
use cereja.Build.Scalars.{
  after_table, argument_call, asserted, behind_table, build_bytes, build_scalar, build_simple,
  build_string, c_string, is_simple_item, paired, push_c_string, push_call, put_element, put_field,
  shifted, string_item, truth,
}

module _ (L : Lua) where
  -- build_a_value behind the white space. `table` is its loop over a table, from behind the `{` on.
  pub value_or_table :
      List Char
      → (table : List Char → Built L (Run L)) → (in_table : Bool) → (values_count : ℕ) → (Run L)
      → Built L ((Status L) × (Run L))
  unfolding build_scalar after_table
  value_or_table [] table in_table values_count s = done (end_of_format, s)
  value_or_table (c ∷ rest) table in_table values_count s =
      if c == b'{'
      then bind L (table rest) (after_table L)
      else build_scalar L c in_table values_count (record s { format = rest })

  -- What the loop over a table does with the result of build_a_value. `value` is build_a_value, `loop`
  -- the rounds that are left.
  pub build_element :
      (value : ℕ → (Run L) → Built L ((Status L) × (Run L)))
      → (loop : ℕ → (Run L) → Built L (Run L)) → (order values_count : ℕ) → (Status L)
      → (Run L)
      → Built L (Run L)
  build_element value loop order values_count success s = loop (order + 1) (put_element L order s)
  build_element value loop order values_count end_of_format s = failed table_not_terminated
  build_element value loop order values_count table_field_prefix s =
      bind L (paired L (value values_count s))
        (λ t. bind L (paired L (value (values_count + 1) t)) (λ u. loop order (put_field L u)))
  build_element value loop order values_count end_of_table s = done s

  mutual
    unfolding skip_spaces value_or_table build_element

    pub build_a_value :
        (fuel : ℕ)
        → (in_table : Bool) → (values_count : ℕ) → (Run L)
        → Built L ((Status L) × (Run L))
    build_a_value zero in_table values_count s = out_of_fuel
    build_a_value (suc fuel) in_table values_count s =
        value_or_table (skip_spaces s.format)
          (λ rest.
            build_table fuel 1 values_count
              (record s { format = rest; calls = new_table ∷ s.calls }))
          in_table values_count s

    -- The loop of build_a_value over the elements and fields of a table, up to behind the `}`.
    pub build_table : (fuel : ℕ) → (order : ℕ) → (values_count : ℕ) → (Run L) → Built L (Run L)
    build_table zero order values_count s = out_of_fuel
    build_table (suc fuel) order values_count s =
        bind L (asserted L (build_a_value fuel true values_count s)) (λ (status, t).
          build_element (build_a_value fuel true) (λ next. build_table fuel next values_count) order
            values_count status t)

  -- The fuel for a format: two for each character, which build_a_value and its loop take.
  abbrev pub fuel_for : List Char → ℕ
  fuel_for format = 2 * length format + 1

  -- What the loop of Crj_BuildValues does with the result of build_a_value. Neither of the last two is
  -- returned outside a table: lua_error would raise what happens to be on the stack.
  pub after_value : (loop : (Run L) → Built L (Run L)) → (Status L) → (Run L) → Built L (Run L)
  after_value loop success s = loop s
  after_value loop end_of_format s = done s
  after_value loop table_field_prefix s = fault
  after_value loop end_of_table s = fault

  -- The loop of Crj_BuildValues, in as many rounds as `rounds`.
  pub build_loop : (rounds : ℕ) → (values_count : ℕ) → (Run L) → Built L (Run L)
  unfolding build_a_value after_value
  build_loop zero values_count s = out_of_fuel
  build_loop (suc rounds) values_count s =
      bind L (build_a_value (fuel_for s.format) false values_count s)
        (λ (status, t). after_value (build_loop rounds (values_count + 1)) status t)

  unfoldable pub crj_build_values :
      (format : List Char) → List (BuildArg L) → Built L (List (Call L))
  unfolding build_loop
  crj_build_values format va =
      bind L (build_loop (length format + 1) 0 (record { format = format; va = va; calls = [] }))
        (λ s. done s.calls)
