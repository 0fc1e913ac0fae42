-- ===== src/Args/Reads.antt =====
-- What Crj_ParseArgs of src/api.c stores for a format of plain items.
use mathlib.Core.List.{append_assoc, append-nil}
use cereja.Prelude.{
  ℕ, suc, ◌+◌, ◌*◌, ◌≡◌, Bool, true, false, ◌&&◌, some, List, [], ◌∷◌, ◌++◌, length, ◌==◌,
  if◌then◌else◌, arith, refl, sym, ap, ◌∙◌, inl, inr, Bool-cases,
}
use cereja.Args.Machine.{
  Lua, Char, VaArg, pointer, Value, number_of, string_of, boolean, userdata_of, done, Args,
  is_space, skip_spaces, write_next, lua_tnumber, lua_tstring, lua_tlightuserdata, lua_tuserdata,
}
use cereja.Args.Scalars.{is_number_kind, check_type, string_item, plain_string, scalar}
use cereja.Args.Enough.{parse_item-at}
use cereja.Args.{parse_item, args_loop, crj_parse_args, fuel_for}

and_true : (a b : Bool) → (a && b) ≡ true → (a ≡ true) × (b ≡ true)
and_true a b h = ground arith

module _ (L : Lua) where
  -- The item is a number, `s`, `Q`, `u` or `U`, and the value has the type that it asks for.
  abbrev pub fits : Char → L.Val → Bool
  fits c v =
      if is_number_kind c
      then L.type_of v == lua_tnumber
      else if c == 115
      then L.type_of v == lua_tstring && L.is_string v
      else if c == 81
      then true
      else if c == 117
      then L.type_of v == lua_tlightuserdata
      else c == 85 && L.type_of v == lua_tuserdata

  -- What is stored for it.
  abbrev pub stored : Char → L.Val → Value L
  stored c v =
      if is_number_kind c
      then number_of c v
      else if c == 115
      then string_of v
      else if c == 81
      then boolean (L.to_boolean v)
      else userdata_of v

  -- A plain item, its value and its variable.
  pub record Read : Type 0 where
    pub item : Char
    pub value : L.Val
    pub variable : ℕ
    pub agrees : fits item value ≡ true

  abbrev pub items : List Read → List Char
  items [] = []
  items (r ∷ rs) = r.item ∷ items rs

  abbrev pub values : List Read → List L.Val
  values [] = []
  values (r ∷ rs) = r.value ∷ values rs

  abbrev pub variables : List Read → List (VaArg L)
  variables [] = []
  variables (r ∷ rs) = pointer r.variable ∷ variables rs

  abbrev pub results : List Read → List (ℕ × Value L)
  results [] = []
  results (r ∷ rs) = (r.variable, stored r.item r.value) ∷ results rs

  pub not_special :
      (c : Char) (v : L.Val)
      → fits c v ≡ true
      → (is_space c ≡ false) × ((c == 123) ≡ false) × ((c == 124) ≡ false) × ((c == 35) ≡ false)
  unfolding is_space is_number_kind
  not_special c v h = ground arith

  plain_text :
      (v : L.Val) (rs : List Read) (s : Args L)
      → L.is_string v ≡ true
      → string_item L v (record s { format = items rs })
        ≡ write_next L (string_of v) (record s { format = items rs })
  unfolding string_item plain_string
  plain_text v [] s h = rw h refl
  plain_text v (r ∷ rs) s h =
      let (_, _, _, no_size) = not_special r.item r.value r.agrees in rw (no_size, h) refl

  -- The state before an item, and after it.
  abbrev before : Read → List Read → List (ℕ × Value L) → Args L
  before r rs w = record {
    format = items rs;
    va = variables (r ∷ rs);
    written = w;
    optional = some false;
  }

  abbrev after : List Read → List (ℕ × Value L) → Args L
  after rs w = record { format = items rs; va = variables rs; written = w; optional = some false }

  -- An item stores its value where a string is not followed by `#`.
  pub scalar-stores :
      (c : Char) (v : L.Val) (index : ℕ) (in_table : Bool) (s : Args L)
      → fits c v ≡ true
      → (L.is_string v ≡ true → string_item L v s ≡ write_next L (string_of v) s)
      → scalar L c v index in_table s ≡ write_next L (stored c v) s
  unfolding scalar check_type
  scalar-stores c v index in_table s agrees plain = elim (Bool-cases (is_number_kind c)) [
    | inl number ↦ let t = rw number at agrees in rw (number, t) refl
    | inr not_number ↦ elim (Bool-cases (c == 115)) [
      | inl string ↦
          let both : (L.type_of v == lua_tstring && L.is_string v) ≡ true =
            rw (not_number, string) at agrees in
          let (typed, is_text) = and_true (L.type_of v == lua_tstring) (L.is_string v) both in
          rw (not_number, string, typed) (plain is_text)
      | inr not_string ↦ elim (Bool-cases (c == 81)) [
        | inl truth ↦
            let no_text : (c == 122) ≡ false = ground arith in
            rw (not_number, not_string, no_text, truth) refl
        | inr not_truth ↦ elim (Bool-cases (c == 117)) [
          | inl light ↦
              let no_text : (c == 122) ≡ false = ground arith in
              let typed = rw (not_number, not_string, not_truth, light) at agrees in
              rw (not_number, not_string, no_text, not_truth, light, typed) refl
          | inr full ↦
              let both : (c == 85 && L.type_of v == lua_tuserdata) ≡ true =
                rw (not_number, not_string, not_truth, full) at agrees in
              let (user, typed) = and_true (c == 85) (L.type_of v == lua_tuserdata) both in
              let no_text : (c == 122) ≡ false = ground arith in
              rw (not_number, not_string, no_text, not_truth, full, user, typed) refl
        ]
      ]
    ]
  ]

  scalar-plain :
      (r : Read) (rs : List Read) (index : ℕ) (w : List (ℕ × Value L))
      → scalar L r.item r.value index false (before r rs w)
        ≡ done (after rs (w ++ (r.variable, stored r.item r.value) ∷ []))
  unfolding write_next
  scalar-plain r rs index w =
      scalar-stores r.item r.value index false (before r rs w) r.agrees
        (plain_text r.value rs (before r rs w))

  plain_item :
      (fuel : ℕ) (r : Read) (rs : List Read) (index : ℕ) (w : List (ℕ × Value L))
      → parse_item L (suc fuel) r.value index false (after (r ∷ rs) w)
        ≡ done (after rs (w ++ (r.variable, stored r.item r.value) ∷ []))
  unfolding skip_spaces
  plain_item fuel r rs index w =
      let (no_space, no_table, no_bar, _) = not_special r.item r.value r.agrees in
      parse_item-at L fuel r.value index false (after (r ∷ rs) w) r.item (items rs)
        (rw no_space refl)
      ∙ rw (no_table, no_bar) (scalar-plain r rs index w)

  plain_loop :
      (rs : List Read) (index : ℕ) (w : List (ℕ × Value L))
      → args_loop L (values rs) index (after rs w) ≡ done (after [] (w ++ results rs))
  unfolding args_loop
  plain_loop [] index w = ap (λ z. done (after [] z)) (sym (append-nil w))
  plain_loop (r ∷ rs) index w =
      let more : fuel_for L (items (r ∷ rs)) ≡ suc (3 * length (items rs) + 5) = omega arith in
      rw (more, plain_item (3 * length (items rs) + 5) r rs index w)
        (plain_loop rs (index + 1) (w ++ (r.variable, stored r.item r.value) ∷ [])
          ∙ ap (λ z. done (after [] z))
              (append_assoc w ((r.variable, stored r.item r.value) ∷ []) (results rs)))

  -- Crj_ParseArgs of a format of plain items, as many values of their types and as many variables
  -- reads each value into its variable, in their order, and raises no error.
  pub crj_parse_args-reads :
      (rs : List Read)
      → crj_parse_args L (values rs) (items rs) (variables rs)
        ≡ done (record { format = []; va = []; written = results rs; optional = some false })
  unfolding crj_parse_args
  crj_parse_args-reads rs = rw (plain_loop rs 1 []) refl
