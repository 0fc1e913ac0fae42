-- ===== src/Args/Scalars.antt =====
-- The items of a format that parse_item of src/api.c reads without going on to another item.
use cereja.Prelude.{ℕ, Bool, not, ◌||◌, Option, none, some, [], ◌∷◌, ◌==◌, if◌then◌else◌}
use cereja.Args.Machine.{
  Lua, Char, lua_tnil, lua_tboolean, lua_tlightuserdata, lua_tnumber, lua_tstring, lua_ttable,
  lua_tfunction, lua_tuserdata, lua_tthread, number_of, string_of, null, length_of, no_length,
  boolean, userdata_of, stack_index, invalid_item, type_mismatch, no_string, object_in_table,
  invalid_type, Parsed, done, raised, bind, Args, write_next,
}

-- The characters `n`, `b`, `h`, `i`, `l`, `B`, `H`, `I` and `L`.
unfoldable pub is_number_kind : Char → Bool
is_number_kind c =
    c == 110
    || c == 98
    || c == 104
    || c == 105
    || c == 108
    || c == 66
    || c == 72
    || c == 73
    || c == 76

-- The type of `O/<type>`.
unfoldable pub object_type : Char → Option ℕ
object_type c =
    if c == 78
    then some lua_tnil
    else if c == 110
    then some lua_tnumber
    else if c == 115
    then some lua_tstring
    else if c == 102
    then some lua_tfunction
    else if c == 81
    then some lua_tboolean
    else if c == 117
    then some lua_tlightuserdata
    else if c == 85
    then some lua_tuserdata
    else if c == 116
    then some lua_ttable
    else if c == 84
    then some lua_tthread
    else none

module _ (L : Lua) where
  unfoldable pub check_type : L.Val → (expected : ℕ) → Parsed L (Unit {0})
  check_type value expected =
      if L.type_of value == expected
      then done tt
      else raised (type_mismatch expected (L.type_of value))

  -- Item `s` or `z`, without `#`: the string, or NULL for nil and false.
  unfoldable pub plain_string : L.Val → Args L → Parsed L (Args L)
  unfolding write_next
  plain_string value s =
      if L.is_string value
      then write_next L (string_of value) s
      else if not (L.to_boolean value)
      then write_next L null s
      else bind L (write_next L null s) (λ _. raised (no_string (L.type_of value)))

  -- With `#`: the length too. Its variable is the second one.
  unfoldable pub sized_string : L.Val → Args L → Parsed L (Args L)
  unfolding write_next
  sized_string value s =
      if L.is_string value
      then bind L (write_next L (string_of value) s) (write_next L (length_of value))
      else if not (L.to_boolean value)
      then bind L (write_next L null s) (write_next L no_length)
      else bind L (bind L (write_next L null s) (write_next L no_length))
          (λ _. raised (no_string (L.type_of value)))

  unfoldable pub string_item : L.Val → Args L → Parsed L (Args L)
  unfolding plain_string sized_string
  string_item value s = elim s.format [
    | [] ↦ plain_string value s
    | d ∷ after ↦
        if d == 35 then sized_string value (record s { format = after }) else plain_string value s
  ]

  -- `O/<type>`, of a type that was read from `c`.
  unfoldable pub typed_object :
      Option ℕ → (c : Char) → L.Val → (index : ℕ) → Args L → Parsed L (Args L)
  unfolding check_type write_next
  typed_object none c value index s = raised (invalid_type c)
  typed_object (some type) c value index s =
      bind L (check_type value type) (λ _. write_next L (stack_index index) s)

  -- The type of `O/<type>`, where it is given, is checked before the index is stored.
  unfoldable pub object_item : L.Val → (index : ℕ) → Args L → Parsed L (Args L)
  unfolding typed_object write_next
  object_item value index s = elim s.format [
    | [] ↦ write_next L (stack_index index) s
    | d ∷ after ↦
        if d == 47
        then elim after [
          | [] ↦ raised (invalid_type 0)
          | c ∷ rest ↦ typed_object (object_type c) c value index (record s { format = rest })
        ]
        else write_next L (stack_index index) s
  ]

  -- parse_item of the character `c`, but `{` and `|`. The format of `s` is what follows `c`.
  unfoldable pub scalar :
      Char → L.Val → (index : ℕ) → (in_table : Bool) → Args L → Parsed L (Args L)
  unfolding check_type string_item object_item write_next
  scalar c value index in_table s =
      if is_number_kind c
      then bind L (check_type value lua_tnumber) (λ _. write_next L (number_of c value) s)
      else if c == 115
      then bind L (check_type value lua_tstring) (λ _. string_item value s)
      else if c == 122
      then string_item value s
      else if c == 81
      then write_next L (boolean (L.to_boolean value)) s
      else if c == 117
      then bind L (check_type value lua_tlightuserdata) (λ _. write_next L (userdata_of value) s)
      else if c == 85
      then bind L (check_type value lua_tuserdata) (λ _. write_next L (userdata_of value) s)
      else if c == 79
      then (if in_table then raised object_in_table else object_item value index s)
      else raised (invalid_item c)
