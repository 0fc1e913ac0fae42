-- ===== src/Args.antt =====
-- `Crj_ParseArgs` and `Crj_ParseTable` of src/api.c: Lua values are read by a format into the variables
-- that the variable arguments point to. Lua is a parameter.
pub mod Machine
pub mod Scalars
pub mod Shrinks
pub mod Skips
pub mod Enough
pub mod Fuel
pub mod Reads
pub mod Patterns
use cereja.Prelude.{
  ℕ, zero, suc, ◌+◌, ◌-◌, ◌*◌, Bool, true, false, not, ◌&&◌, ◌||◌, Option, none, some, List, [],
  ◌∷◌, ◌++◌, length, ◌==◌, ltb, if◌then◌else◌,
}
use cereja.Prelude.Int.{ℤ, pos}
use cereja.Args.Machine.{
  Lua, get_table, in_error, Char, lua_tnil, lua_ttable, VaArg, pointer, chars, number, int, Key,
  text, num, Value, Error, invalid_item, type_mismatch, bar_in_table, not_terminated, invalid_key,
  key_not_found, at_order, at_key, bad_argument, extra_arguments, lacked_arguments, extra_items,
  Parsed, done, raised, fault, out_of_fuel, bind, Args, is_space, skip_spaces, write_next,
}
use cereja.Args.Scalars.{is_number_kind, check_type, scalar}

-- The text of a nested `{...}`, read by skip_item up to its end; `none` where it is not closed.
pub skip_braces : (level : ℕ) → List Char → Option (List Char)
skip_braces level [] = none
skip_braces level (c ∷ cs) =
    let deeper = skip_braces (level + 1) cs in
    let shallower = skip_braces (level - 1) cs in
    let same = skip_braces level cs in
    if c == 123
    then deeper
    else if c == 125
    then (if level == 1 then some cs else shallower)
    else same

module _ (L : Lua) where
  -- va_arg of a pointer that is not used.
  pub skip_pointer : Args L → Parsed L (Args L)
  skip_pointer s = elim s.va [
    | [] ↦ fault
    | pointer p ∷ va ↦ done (record s { va = va })
    | _ ∷ va ↦ fault
  ]

  -- skip_item of `s` or `z`, with the format behind it: `#` has a second variable argument.
  pub skip_string : Args L → Parsed L (Args L)
  unfolding skip_pointer
  skip_string s = elim s.format [
    | [] ↦ skip_pointer s
    | d ∷ after ↦
        if d == 35
        then bind L (skip_pointer (record s { format = after })) skip_pointer
        else skip_pointer s
  ]

  skip_nested : Option (List Char) → Args L → Parsed L (Args L)
  skip_nested none s = done s
  skip_nested (some after) s = done (record s { format = after })

  -- skip_item of the character `c`, which is followed by `rest`.
  pub skip_char : Char → List Char → Args L → Parsed L (Args L)
  unfolding skip_pointer skip_braces skip_string skip_nested is_number_kind
  skip_char c rest s =
      if is_number_kind c || c == 81 || c == 117 || c == 85
      then skip_pointer (record s { format = rest })
      else if c == 115 || c == 122
      then skip_string (record s { format = rest })
      else if c == 123
      then skip_nested (skip_braces 1 rest) s
      else done s

  pub skip_item : Args L → Parsed L (Args L)
  unfolding skip_char
  skip_item s = elim s.format [ [] ↦ done s | c ∷ rest ↦ skip_char c rest s ]

  -- The key of `=<key>` or `?<key>`, taken from the variable arguments.
  pub take_key : Args L → Parsed L (Key L × Args L)
  take_key s = elim s.format [
    | [] ↦ raised (invalid_key 0)
    | c ∷ rest ↦ elim s.va [
      | [] ↦ if c == 115 || c == 110 || c == 105 || c == 108 then fault else raised (invalid_key c)
      | a ∷ va ↦
          let next : Args L = record s { format = rest; va = va } in
          if c == 115
          then elim a [ chars t ↦ done (text t, next) | _ ↦ fault ]
          else if c == 110
          then elim a [ number n ↦ done (num n, next) | _ ↦ fault ]
          else if c == 105 || c == 108
          then elim a [ int n ↦ done (num (L.of_int n), next) | _ ↦ fault ]
          else raised (invalid_key c)
    ]
  ]

  mutual
    unfolding skip_spaces check_type scalar take_key skip_item get_table

    -- parse_item of the value at a stack index.
    pub parse_item :
        (fuel : ℕ) → L.Val → (index : ℕ) → (in_table : Bool) → Args L → Parsed L (Args L)
    parse_item zero value index in_table s = out_of_fuel
    parse_item (suc fuel) value index in_table s = elim (skip_spaces s.format) [
      | [] ↦ raised (invalid_item 0)
      | c ∷ rest ↦
          let next : Args L = record s { format = rest } in
          let table = bind L (check_type L value lua_ttable) (λ _. parse_table fuel value 1 next) in
          let retry = parse_item fuel value index in_table (record next { optional = some true }) in
          if c == 123
          then table
          else if c == 124
          then (if in_table
              then raised bar_in_table
              else elim s.optional [ none ↦ fault | some _ ↦ retry ])
          else scalar L c value index in_table next
    ]

    -- parse_table from the item numbered `order` on, up to behind the `}`.
    pub parse_table : (fuel : ℕ) → L.Val → (order : ℕ) → Args L → Parsed L (Args L)
    parse_table zero table order s = out_of_fuel
    parse_table (suc fuel) table order s = elim (skip_spaces s.format) [
      | [] ↦ raised not_terminated
      | c ∷ rest ↦
          let here : Args L = record s { format = c ∷ rest } in
          let next : Args L = record s { format = rest } in
          let keyed =
            bind L (parse_field fuel (c == 61) table next) (λ t. parse_table fuel table order t) in
          let ordered =
            bind L (parse_ordered fuel table order here)
              (λ t. parse_table fuel table (order + 1) t) in
          if c == 125 then done next else if c == 63 || c == 61 then keyed else ordered
    ]

    -- The `<value>` of parse_table_item.
    pub parse_ordered : (fuel : ℕ) → L.Val → (order : ℕ) → Args L → Parsed L (Args L)
    parse_ordered zero table order s = out_of_fuel
    parse_ordered (suc fuel) table order s =
        in_error L (at_order order s.format)
          (parse_item fuel (get_table L table (num (L.of_int (pos order)))) 0 true s)

    -- The `=<key><value>` and `?<key><value>` of parse_table_item.
    pub parse_field : (fuel : ℕ) → (required : Bool) → L.Val → Args L → Parsed L (Args L)
    parse_field zero required table s = out_of_fuel
    parse_field (suc fuel) required table s = bind L (take_key s) (λ (key, t).
        let value = get_table L table key in
        let found = in_error L (at_key key) (parse_item fuel value 0 true t) in
        if not (L.type_of value == lua_tnil)
        then found
        else if required
        then raised (key_not_found key)
        else skip_item t)

  -- The fuel for a format: three for each character, which parse_item, parse_table and the functions
  -- between them take.
  abbrev pub fuel_for : List Char → ℕ
  fuel_for format = 3 * length format + 3

  -- The error of Crj_ParseArgs, by the format before the call of parse_item that failed.
  pub bad_call : List Char → (left index : ℕ) → Error L → Error L
  bad_call [] left index e = extra_arguments left
  bad_call (_ ∷ _) left index e = bad_argument index e

  -- The loop of Crj_ParseArgs over the values on the stack.
  pub args_loop : List L.Val → (index : ℕ) → Args L → Parsed L (Args L)
  unfolding parse_item bad_call
  args_loop [] index s = done s
  args_loop (value ∷ values) index s =
      bind L
        (in_error L (bad_call s.format (length values + 1) index)
          (parse_item (fuel_for s.format) value index false s))
        (args_loop values (index + 1))

  -- What is left of the format after the last value: nothing, or optional items.
  pub check_rest : List Char → Option Bool → Args L → Parsed L (Args L)
  check_rest [] optional s = done s
  check_rest (c ∷ rest) none s = fault
  check_rest (c ∷ rest) (some optional) s =
      if optional || c == 124 then done s else raised (lacked_arguments (c ∷ rest))

  pub check_end : List Char → Args L → Parsed L (Args L)
  check_end [] s = done s
  check_end (_ ∷ _) s = raised extra_items

  unfoldable pub crj_parse_args :
      List L.Val → (format : List Char) → List (VaArg L) → Parsed L (Args L)
  unfolding args_loop check_rest skip_spaces
  crj_parse_args values format va =
      bind L
        (args_loop values 1
          (record { format = format; va = va; written = []; optional = some false }))
        (λ s. check_rest (skip_spaces s.format) s.optional s)

  unfoldable pub crj_parse_table :
      L.Val → (index : ℕ) → (format : List Char) → List (VaArg L) → Parsed L (Args L)
  unfolding parse_item skip_spaces check_end
  crj_parse_table value index format va =
      bind L
        (parse_item (fuel_for format) value index false
          (record { format = format; va = va; written = []; optional = none }))
        (λ s. check_end (skip_spaces s.format) s)
