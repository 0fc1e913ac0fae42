-- ===== src/Args/Patterns/Steps.antt =====
-- One item, one key and one round of parse_table of src/api.c, on a format of items in tables.
use cereja.Prelude.{
  ℕ, suc, ◌+◌, ◌-◌, ◌≤◌, ◌≡◌, refl, ◌∙◌, Bool, true, false, ◌||◌, Option, List, [], ◌∷◌, ◌++◌, ◌==◌,
  arith,
}
use cereja.Args.Machine.{
  Lua, Char, VaArg, pointer, Value, string_of, done, Args, skip_spaces, write_next, lua_tnil,
}
use cereja.Args.Scalars.{is_number_kind, string_item, plain_string}
use cereja.Args.Reads.{fits, stored, not_special, scalar-stores}
use cereja.Args.Enough.{parse_item-at, parse_table-at}
use cereja.Args.{
  parse_item, parse_table, parse_ordered, parse_field, take_key, skip_item, skip_char, skip_pointer,
  skip_string,
}
use cereja.Args.Patterns.{
  is_plain, KeyArg, text_key, number_key, int_key, long_key, key_char, key_arg, key_of, at_key_arg,
  at_number, Pattern, leaf, table, Fields, closed, element, required, optional, absent,
  pattern_text, fields_text, Agrees, AgreeFields,
}

module _ (L : Lua) where
  abbrev pub state : List Char → List (VaArg L) → List (ℕ × Value L) → Option Bool → Args L
  state format va w o = record { format = format; va = va; written = w; optional = o }

  -- A string that a space follows.
  spaced_string :
      (v : L.Val) (rest : List Char) (va : List (VaArg L)) (w : List (ℕ × Value L))
      (o : Option Bool)
      → L.is_string v ≡ true
      → string_item L v (state (32 ∷ rest) va w o)
        ≡ write_next L (string_of v) (state (32 ∷ rest) va w o)
  unfolding string_item plain_string
  spaced_string v rest va w o h = rw h refl

  pub reads_leaf :
      (fuel : ℕ) (c : Char) (p : ℕ) (v : L.Val) (index : ℕ) (in_table : Bool)
      (format rest : List Char) (va : List (VaArg L)) (w : List (ℕ × Value L)) (o : Option Bool)
      → fits L c v ≡ true
      → skip_spaces format ≡ c ∷ 32 ∷ rest
      → parse_item L (suc fuel) v index in_table (state format (pointer p ∷ va) w o)
        ≡ done (state (32 ∷ rest) va (w ++ (p, stored L c v) ∷ []) o)
  unfolding write_next
  reads_leaf fuel c p v index in_table format rest va w o agrees at =
      let (no_space, no_table, no_bar, _) = not_special L c v agrees in
      let before = state format (pointer p ∷ va) w o in
      parse_item-at L fuel v index in_table before c (32 ∷ rest) at
      ∙ rw (no_table, no_bar)
          (scalar-stores L c v index in_table (state (32 ∷ rest) (pointer p ∷ va) w o) agrees
            (spaced_string v rest (pointer p ∷ va) w o))

  reads_key :
      (k : KeyArg L) (format : List Char) (va : List (VaArg L)) (w : List (ℕ × Value L))
      (o : Option Bool)
      → take_key L (state (key_char L k ∷ format) (key_arg L k ∷ va) w o)
        ≡ done (key_of L k, state format va w o)
  unfolding take_key
  reads_key (text_key t) format va w o = refl
  reads_key (number_key n) format va w o = refl
  reads_key (int_key z) format va w o = refl
  reads_key (long_key z) format va w o = refl

  -- The variable of a field that is not there.
  skips_leaf :
      (c : Char) (p : ℕ) (rest : List Char) (va : List (VaArg L)) (w : List (ℕ × Value L))
      (o : Option Bool)
      → is_plain c ≡ true
      → skip_item L (state (c ∷ 32 ∷ rest) (pointer p ∷ va) w o) ≡ done (state (32 ∷ rest) va w o)
  unfolding skip_item skip_char skip_pointer skip_string is_plain is_number_kind
  skips_leaf c p rest va w o h = ground arith

  pub not_mark :
      (c : Char) (v : L.Val)
      → fits L c v ≡ true
      → ((c == 125) ≡ false) × ((c == 63) ≡ false) × ((c == 61) ≡ false)
  unfolding is_number_kind
  not_mark c v h = ground arith

  pub skip_pattern :
      (p : Pattern L) (v : L.Val) (rest : List Char)
      → Agrees L p v
      → skip_spaces (pattern_text L p rest) ≡ pattern_text L p rest
  unfolding skip_spaces pattern_text Agrees
  skip_pattern (leaf c p) v rest a = rw (not_special L c v a).0 refl
  skip_pattern (table fs) v rest a = refl

  pub skip_space : (format : List Char) → skip_spaces (32 ∷ format) ≡ skip_spaces format
  unfolding skip_spaces
  skip_space format = refl

  pub at_least_two : (fuel : ℕ) → 2 ≤ fuel → fuel ≡ suc (suc (fuel - 2))
  at_least_two fuel h = omega arith

  -- The text of fields and of the end of the table begins with no space.
  pub skip_fields :
      (fs : Fields L) (t : L.Val) (order : ℕ) (rest : List Char)
      → AgreeFields L fs t order
      → skip_spaces (fields_text L fs (125 ∷ 32 ∷ rest)) ≡ fields_text L fs (125 ∷ 32 ∷ rest)
  unfolding skip_spaces fields_text AgreeFields
  skip_fields closed t order rest a = refl
  skip_fields (element p fs) t order rest a = skip_pattern p (at_number L t order) _ a.0
  skip_fields (required k p fs) t order rest a = refl
  skip_fields (optional k p fs) t order rest a = refl
  skip_fields (absent k c v fs) t order rest a = refl

  -- One round of parse_table: an element that is read, and a field that is.
  pub step_element :
      (fuel : ℕ) (t : L.Val) (order : ℕ) (s u : Args L) (c : Char) (rest : List Char)
      → skip_spaces s.format ≡ c ∷ rest
      → ((c == 125) ≡ false) × ((c == 63) ≡ false) × ((c == 61) ≡ false)
      → parse_item L fuel (at_number L t order) 0 true (record s { format = c ∷ rest }) ≡ done u
      → parse_table L (suc (suc fuel)) t order s ≡ parse_table L (suc fuel) t (order + 1) u
  step_element fuel t order s u c rest at (a, b, d) reads =
      parse_table-at L (suc fuel) t order s c rest at
      ∙ rw (a, b, d) (unfold parse_ordered in rw reads refl)

  pub step_field :
      (fuel : ℕ) (must : Bool) (t : L.Val) (order : ℕ) (s u : Args L) (c : Char) (rest : List Char)
      → skip_spaces s.format ≡ c ∷ rest
      → ((c == 125) ≡ false) × ((c == 63 || c == 61) ≡ true) × ((c == 61) ≡ must)
      → parse_field L (suc fuel) must t (record s { format = rest }) ≡ done u
      → parse_table L (suc (suc fuel)) t order s ≡ parse_table L (suc fuel) t order u
  step_field fuel must t order s u c rest at (a, b, d) reads =
      parse_table-at L (suc fuel) t order s c rest at ∙ rw (a, b, d, reads) refl

  -- A field whose key is there.
  pub reads_field :
      (fuel : ℕ) (must : Bool) (k : KeyArg L) (t : L.Val) (u : Args L) (format : List Char)
      (va : List (VaArg L)) (w : List (ℕ × Value L)) (o : Option Bool)
      → (L.type_of (at_key_arg L t k) == lua_tnil) ≡ false
      → parse_item L fuel (at_key_arg L t k) 0 true (state format va w o) ≡ done u
      → parse_field L (suc fuel) must t (state (key_char L k ∷ format) (key_arg L k ∷ va) w o)
        ≡ done u
  unfolding parse_field
  reads_field fuel must k t u format va w o there reads =
      rw (parse_field, reads_key k format va w o, there, reads) refl

  -- A `?` field whose key is not there.
  pub skips_field :
      (fuel : ℕ) (k : KeyArg L) (t : L.Val) (c : Char) (p : ℕ) (rest : List Char)
      (va : List (VaArg L)) (w : List (ℕ × Value L)) (o : Option Bool)
      → (L.type_of (at_key_arg L t k) == lua_tnil) ≡ true
      → is_plain c ≡ true
      → parse_field L
          (suc fuel)
          false
          t
          (state (key_char L k ∷ c ∷ 32 ∷ rest) (key_arg L k ∷ pointer p ∷ va) w o)
        ≡ done (state (32 ∷ rest) va w o)
  unfolding parse_field
  skips_field fuel k t c p rest va w o gone plain =
      rw
        (
          parse_field,
          reads_key k (c ∷ 32 ∷ rest) (pointer p ∷ va) w o,
          gone,
          skips_leaf c p rest va w o plain,
        )
        refl
