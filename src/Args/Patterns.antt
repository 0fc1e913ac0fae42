-- ===== src/Args/Patterns.antt =====
-- The formats that Crj_ParseArgs of src/api.c is given, as plain items in tables in tables, with the
-- variable arguments and the values that agree with them.
pub mod Sizes
pub mod Steps
pub mod Nested
pub mod Reads
use cereja.Prelude.{
  ℕ, ◌+◌, ◌≡◌, Bool, true, false, not, ◌&&◌, ◌||◌, List, [], ◌∷◌, ◌++◌, ◌==◌, if◌then◌else◌, arith,
}
use cereja.Prelude.Int.{ℤ, pos}
use cereja.Args.Machine.{
  Lua, Char, VaArg, pointer, chars, number, int, Key, text, num, Value, get_table, lua_tnil,
  lua_ttable,
}
use cereja.Args.Reads.{fits, stored}
use cereja.Args.Scalars.{is_number_kind}

-- The items whose variable skip_item passes over.
unfoldable pub is_plain : Char → Bool
unfolding is_number_kind
is_plain c = is_number_kind c || c == 81 || c == 117 || c == 85 || c == 115

module _ (L : Lua) where
  -- A key as it stands among the variable arguments.
  pub data KeyArg : Type 0 where
    text_key : List Char → KeyArg
    number_key : L.Num → KeyArg
    int_key : ℤ → KeyArg
    long_key : ℤ → KeyArg

  abbrev pub key_char : KeyArg → Char
  key_char (text_key t) = b's'
  key_char (number_key n) = b'n'
  key_char (int_key z) = b'i'
  key_char (long_key z) = b'l'

  abbrev pub key_arg : KeyArg → VaArg L
  key_arg (text_key t) = chars t
  key_arg (number_key n) = number n
  key_arg (int_key z) = int z
  key_arg (long_key z) = int z

  abbrev pub key_of : KeyArg → Key L
  key_of (text_key t) = text t
  key_of (number_key n) = num n
  key_of (int_key z) = num (L.of_int z)
  key_of (long_key z) = num (L.of_int z)

  -- The value of a table under a key, and at a number.
  abbrev pub at_key_arg : L.Val → KeyArg → L.Val
  at_key_arg t k = get_table L t (key_of k)

  abbrev pub at_number : L.Val → ℕ → L.Val
  at_number t order = get_table L t (num (L.of_int (pos order)))

  mutual
    pub data Pattern : Type 0 where
      leaf : (c : Char) → (variable : ℕ) → Pattern
      table : Fields → Pattern

    -- What stands in a table: elements, fields, and `?` fields whose key is not there.
    pub data Fields : Type 0 where
      closed : Fields
      element : Pattern → Fields → Fields
      required : KeyArg → Pattern → Fields → Fields
      optional : KeyArg → Pattern → Fields → Fields
      absent : KeyArg → (c : Char) → (variable : ℕ) → Fields → Fields

  -- The format of a pattern, with a space behind it, before `rest`.
  unfoldable mutual
    pub pattern_text : Pattern → List Char → List Char
    pattern_text (leaf c p) rest = c ∷ 32 ∷ rest
    pattern_text (table fs) rest = 123 ∷ fields_text fs (125 ∷ 32 ∷ rest)

    pub fields_text : Fields → List Char → List Char
    fields_text closed rest = rest
    fields_text (element p fs) rest = pattern_text p (fields_text fs rest)
    fields_text (required k p fs) rest = 61 ∷ key_char k ∷ pattern_text p (fields_text fs rest)
    fields_text (optional k p fs) rest = 63 ∷ key_char k ∷ pattern_text p (fields_text fs rest)
    fields_text (absent k c v fs) rest = 63 ∷ key_char k ∷ c ∷ 32 ∷ fields_text fs rest

  unfoldable mutual
    pub pattern_args : Pattern → List (VaArg L) → List (VaArg L)
    pattern_args (leaf c p) va = pointer p ∷ va
    pattern_args (table fs) va = fields_args fs va

    pub fields_args : Fields → List (VaArg L) → List (VaArg L)
    fields_args closed va = va
    fields_args (element p fs) va = pattern_args p (fields_args fs va)
    fields_args (required k p fs) va = key_arg k ∷ pattern_args p (fields_args fs va)
    fields_args (optional k p fs) va = key_arg k ∷ pattern_args p (fields_args fs va)
    fields_args (absent k c v fs) va = key_arg k ∷ pointer v ∷ fields_args fs va

  -- The values have the types that the pattern asks for, and the fields are there.
  unfoldable mutual
    pub Agrees : Pattern → L.Val → Type 0
    Agrees (leaf c p) v = fits L c v ≡ true
    Agrees (table fs) v = ((L.type_of v == lua_ttable) ≡ true) × AgreeFields fs v 1

    pub AgreeFields : Fields → L.Val → (order : ℕ) → Type 0
    AgreeFields closed t order = Unit {0}
    AgreeFields (element p fs) t order = Agrees p (at_number t order) × AgreeFields fs t (order + 1)
    AgreeFields (required k p fs) t order =
        ((L.type_of (at_key_arg t k) == lua_tnil) ≡ false)
        × Agrees p (at_key_arg t k)
        × AgreeFields fs t order
    AgreeFields (optional k p fs) t order =
        ((L.type_of (at_key_arg t k) == lua_tnil) ≡ false)
        × Agrees p (at_key_arg t k)
        × AgreeFields fs t order
    AgreeFields (absent k c v fs) t order =
        ((L.type_of (at_key_arg t k) == lua_tnil) ≡ true)
        × (is_plain c ≡ true)
        × AgreeFields fs t order

  -- What is stored in the variables, put behind what has been written.
  unfoldable mutual
    pub pattern_writes : Pattern → L.Val → List (ℕ × Value L) → List (ℕ × Value L)
    pattern_writes (leaf c p) v w = w ++ (p, stored L c v) ∷ []
    pattern_writes (table fs) v w = fields_writes fs v 1 w

    pub fields_writes : Fields → L.Val → (order : ℕ) → List (ℕ × Value L) → List (ℕ × Value L)
    fields_writes closed t order w = w
    fields_writes (element p fs) t order w =
        fields_writes fs t (order + 1) (pattern_writes p (at_number t order) w)
    fields_writes (required k p fs) t order w =
        fields_writes fs t order (pattern_writes p (at_key_arg t k) w)
    fields_writes (optional k p fs) t order w =
        fields_writes fs t order (pattern_writes p (at_key_arg t k) w)
    fields_writes (absent k c v fs) t order w = fields_writes fs t order w

  -- The fuel that reading takes.
  unfoldable mutual
    pub pattern_fuel : Pattern → ℕ
    pattern_fuel (leaf c p) = 1
    pattern_fuel (table fs) = 1 + fields_fuel fs

    pub fields_fuel : Fields → ℕ
    fields_fuel closed = 1
    fields_fuel (element p fs) = 2 + pattern_fuel p + fields_fuel fs
    fields_fuel (required k p fs) = 2 + pattern_fuel p + fields_fuel fs
    fields_fuel (optional k p fs) = 2 + pattern_fuel p + fields_fuel fs
    fields_fuel (absent k c v fs) = 2 + fields_fuel fs
