-- ===== src/Build/Scalars.antt =====
-- build_a_value of src/api.c for the items that are no table, and the parts of its loop over a table.
use cereja.Prelude.{
  ℕ, Bool, true, not, ◌&&◌, ◌||◌, Option, none, some, List, [], ◌∷◌, length, take, leb, ◌==◌,
  if◌then◌else◌,
}
use cereja.Prelude.Int.{ℤ, pos, negsuc, neg, ltb_ℤ, ◌-ℤ◌}
use cereja.Args.Machine.{Lua, Char}
use cereja.Build.Machine.{
  BuildArg, Built, Call, Run, Status, pushed, double, int, unsigned, long, unsigned_long, chars,
  size, address, function, push_number, push_integer, push_string, push_boolean, push_lightuserdata,
  push_function, push_value, swap_top, set_table, success, end_of_format, table_field_prefix,
  end_of_table, bad_item, unmatched_field, done, failed, aborted, fault, out_of_fuel,
}

module _ (L : Lua) where
  -- strlen: the string before the first NUL, `none` where there is none.
  unfoldable pub c_string : List Char → Option (List Char)
  c_string [] = none
  c_string (c ∷ cs) =
      let rest = c_string cs in
      if c == 0 then some [] else elim rest [ none ↦ none | some t ↦ some (c ∷ t) ]

  -- The index of `O`: one relative to the top is moved by the values that are already pushed.
  -- FIRST_PSEUDO_INDEX is LUA_REGISTRYINDEX, -10000.
  unfoldable pub shifted : ℤ → (values_count : ℕ) → ℤ
  shifted index values_count =
      if ltb_ℤ (neg 10000) index && ltb_ℤ index (pos 0) then index -ℤ pos values_count else index

  abbrev pub truth : ℤ → Bool
  truth (pos n) = not (n == 0)
  truth (negsuc n) = true

  -- `s#`: the length is a variable argument too.
  unfoldable pub build_bytes :
      List Char → List (BuildArg L) → (Run L) → Built L ((Status L) × (Run L))
  build_bytes t (size n ∷ va) s =
      if leb n (length t) then pushed L (push_string (take n t)) va s else fault
  build_bytes t _ s = fault

  unfoldable pub push_c_string :
      Option (List Char) → List (BuildArg L) → (Run L) → Built L ((Status L) × (Run L))
  push_c_string none va s = fault
  push_c_string (some string) va s = pushed L (push_string string) va s

  -- `s` or `s#`, by the format behind the `s`.
  unfoldable pub string_item :
      List Char
      → List (BuildArg L)
      → (behind : List Char) → (Run L)
      → Built L ((Status L) × (Run L))
  unfolding c_string build_bytes push_c_string
  string_item t va [] s = push_c_string (c_string t) va s
  string_item t va (d ∷ after) s =
      if d == b'#'
      then build_bytes t va (record s { format = after })
      else push_c_string (c_string t) va s

  unfoldable pub build_string : List (BuildArg L) → (Run L) → Built L ((Status L) × (Run L))
  unfolding string_item
  build_string (chars t ∷ va) s = string_item t va s.format s
  build_string _ s = fault

  -- The value of one variable argument for the item `c`.
  unfoldable pub argument_call : Char → (values_count : ℕ) → (BuildArg L) → Option (Call L)
  unfolding shifted
  argument_call c values_count (double n) = if c == b'n' then some (push_number n) else none
  argument_call c values_count (int z) =
      if c == b'b' || c == b'B' || c == b'h' || c == b'H' || c == b'i'
      then some (push_number (L.of_int z))
      else if c == b'Q'
      then some (push_boolean (truth z))
      else if c == b'O'
      then some (push_value (shifted z values_count))
      else none
  argument_call c values_count (unsigned n) =
      if c == b'I' then some (push_number (L.of_int (pos n))) else none
  argument_call c values_count (long z) =
      if c == b'l' then some (push_number (L.of_int z)) else none
  argument_call c values_count (unsigned_long n) =
      if c == b'L' then some (push_number (L.of_int (pos n))) else none
  argument_call c values_count (chars t) = none
  argument_call c values_count (size n) = none
  argument_call c values_count (address p) = if c == b'u' then some (push_lightuserdata p) else none
  argument_call c values_count (function f) = if c == b'F' then some (push_function f) else none

  -- The characters of the items that take one variable argument.
  unfoldable pub is_simple_item : Char → Bool
  is_simple_item c =
      c == b'n'
      || c == b'b'
      || c == b'B'
      || c == b'h'
      || c == b'H'
      || c == b'i'
      || c == b'I'
      || c == b'l'
      || c == b'L'
      || c == b'Q'
      || c == b'u'
      || c == b'F'
      || c == b'O'

  unfoldable pub push_call :
      Option (Call L) → List (BuildArg L) → (Run L) → Built L ((Status L) × (Run L))
  push_call none va s = fault
  push_call (some call) va s = pushed L call va s

  unfoldable pub build_simple :
      Char → (values_count : ℕ) → List (BuildArg L) → (Run L) → Built L ((Status L) × (Run L))
  unfolding argument_call push_call
  build_simple c values_count [] s = fault
  build_simple c values_count (a ∷ va) s = push_call (argument_call c values_count a) va s

  -- build_a_value of the item `c` that is no table; `s` has the format behind it.
  unfoldable pub build_scalar :
      Char → (in_table : Bool) → (values_count : ℕ) → (Run L) → Built L ((Status L) × (Run L))
  unfolding is_simple_item build_simple build_string
  build_scalar c in_table values_count s =
      if is_simple_item c
      then build_simple c values_count s.va s
      else if c == b's'
      then build_string s.va s
      else if in_table && c == b'='
      then done (table_field_prefix, s)
      else if in_table && c == b'}'
      then done (end_of_table, s)
      else failed (bad_item c)

  -- Behind the `}` of a table: the end of the format, or a character that is skipped.
  unfoldable pub behind_table : List Char → (Run L) → Built L ((Status L) × (Run L))
  behind_table [] s = done (end_of_format, s)
  behind_table (_ ∷ after) s = done (success, record s { format = after })

  unfoldable pub after_table : (Run L) → Built L ((Status L) × (Run L))
  unfolding behind_table
  after_table s = behind_table s.format s

  -- An error of an element fails the assertion in the default branch of the switch.
  abbrev pub asserted {ℓ} : {A : Type ℓ} → Built L A → Built L A
  asserted (done a) = done a
  asserted (failed e) = aborted
  asserted aborted = aborted
  asserted fault = fault
  asserted out_of_fuel = out_of_fuel

  -- A key or a value of `=<key><value>` has to be a success.
  abbrev pub paired : Built L ((Status L) × (Run L)) → Built L (Run L)
  paired (done (success, s)) = done s
  paired (done (_, s)) = failed unmatched_field
  paired (failed e) = failed unmatched_field
  paired aborted = aborted
  paired fault = fault
  paired out_of_fuel = out_of_fuel

  -- lua_pushinteger(L, order), lua_insert(L, -2) and lua_settable(L, -3)
  abbrev pub put_element : (order : ℕ) → (Run L) → (Run L)
  put_element order s = record s { calls = set_table ∷ swap_top ∷ push_integer order ∷ s.calls }

  abbrev pub put_field : (Run L) → (Run L)
  put_field s = record s { calls = set_table ∷ s.calls }
