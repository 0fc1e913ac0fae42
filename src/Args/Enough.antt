-- ===== src/Args/Enough.antt =====
-- The loops and calls of parse_item and parse_table of src/api.c, on fuel: three rounds for a
-- character of the format.
use mathlib.Core.Path.{subst}
use cereja.Prelude.{
  ℕ, zero, suc, ◌+◌, ◌-◌, ◌*◌, ◌≤◌, ◌≡◌, Bool, true, not, ◌||◌, Option, none, some, List, [], ◌∷◌,
  length, ◌==◌, if◌then◌else◌, arith, refl, sym, ap, ◌⊎◌, inl, inr,
}
use cereja.Prelude.Int.{pos}
use cereja.Args.Machine.{
  Lua, Char, num, lua_tnil, lua_ttable, Parsed, done, raised, fault, bind, Args, skip_spaces,
  at_order, at_key, get_table, bar_in_table,
}
use cereja.Args.Scalars.{check_type, scalar}
use cereja.Args.{parse_item, parse_table, parse_ordered, parse_field}
use cereja.Args.Shrinks.{
  shrinks, bind-shrinks, shrinks-more, in_error-shrinks, either, scalar-shrinks, check_type-shrinks,
  length-skip_spaces,
}
use cereja.Args.Skips.{skip_item-shrinks, take_key-shrinks}

list_cases : (cs : List Char) → (cs ≡ []) ⊎ ((c : Char) × (rest : List Char) × (cs ≡ c ∷ rest))
list_cases [] = inl refl
list_cases (c ∷ cs) = inr (c, cs, refl)

module _ (L : Lua) where
  -- What each of the functions leaves, with this much fuel.
  pub record Enough (fuel : ℕ) : Type 0 where
    pub item :
        (value : L.Val) (index : ℕ) (in_table : Bool) (s : Args L)
        → 3 * length s.format + 1 ≤ fuel
        → shrinks L (length s.format - 1) (parse_item L fuel value index in_table s) ≡ true
    pub table :
        (value : L.Val) (order : ℕ) (s : Args L)
        → 3 * length s.format + 3 ≤ fuel
        → shrinks L (length s.format - 1) (parse_table L fuel value order s) ≡ true
    pub ordered :
        (value : L.Val) (order : ℕ) (s : Args L)
        → 3 * length s.format + 2 ≤ fuel
        → shrinks L (length s.format - 1) (parse_ordered L fuel value order s) ≡ true
    pub field :
        (required : Bool) (value : L.Val) (s : Args L)
        → 3 * length s.format + 1 ≤ fuel
        → shrinks L (length s.format) (parse_field L fuel required value s) ≡ true

  -- A format character that follows white space.
  abbrev pub after_optional : Option Bool → Parsed L (Args L) → Parsed L (Args L)
  after_optional o r = elim o [ none ↦ fault | some _ ↦ r ]

  after_optional-shrinks :
      (n : ℕ) (o : Option Bool) (r : Parsed L (Args L))
      → shrinks L n r ≡ true
      → shrinks L n (after_optional o r) ≡ true
  after_optional-shrinks n none r h = refl
  after_optional-shrinks n (some b) r h = h

  abbrev pub item_at : ℕ → L.Val → ℕ → Bool → Args L → Char → List Char → Parsed L (Args L)
  item_at fuel value index in_table s c rest =
      let next : Args L = record s { format = rest } in
      if c == 123
      then bind L (check_type L value lua_ttable) (λ _. parse_table L fuel value 1 next)
      else if c == 124
      then (if in_table
          then raised bar_in_table
          else after_optional s.optional
              (parse_item L fuel value index in_table (record next { optional = some true })))
      else scalar L c value index in_table next

  pub parse_item-at :
      (fuel : ℕ) (value : L.Val) (index : ℕ) (in_table : Bool) (s : Args L) (c : Char)
      (rest : List Char)
      → skip_spaces s.format ≡ c ∷ rest
      → parse_item L (suc fuel) value index in_table s ≡ item_at fuel value index in_table s c rest
  unfolding parse_item
  parse_item-at fuel value index in_table s c rest at = rw (parse_item, at) refl

  abbrev pub table_at : ℕ → L.Val → ℕ → Args L → Char → List Char → Parsed L (Args L)
  table_at fuel value order s c rest =
      let next : Args L = record s { format = rest } in
      if c == 125
      then done next
      else if c == 63 || c == 61
      then bind L (parse_field L fuel (c == 61) value next) (λ t. parse_table L fuel value order t)
      else bind L (parse_ordered L fuel value order (record s { format = c ∷ rest }))
          (λ t. parse_table L fuel value (order + 1) t)

  pub parse_table-at :
      (fuel : ℕ) (value : L.Val) (order : ℕ) (s : Args L) (c : Char) (rest : List Char)
      → skip_spaces s.format ≡ c ∷ rest
      → parse_table L (suc fuel) value order s ≡ table_at fuel value order s c rest
  unfolding parse_table
  parse_table-at fuel value order s c rest at = rw (parse_table, at) refl

  module _ (fuel : ℕ) (e : Enough fuel) where
    next_item :
        (value : L.Val) (index : ℕ) (in_table : Bool) (s : Args L)
        → 3 * length s.format + 1 ≤ suc fuel
        → shrinks L (length s.format - 1) (parse_item L (suc fuel) value index in_table s) ≡ true
    unfolding parse_item
    next_item value index in_table s h = elim (list_cases (skip_spaces s.format)) [
      | inl end ↦ rw (shrinks, end) refl
      | inr (c, rest, at) ↦
          let n = length s.format - 1 in
          let size : length rest + 1 ≤ length s.format =
            omega (arith, length-skip_spaces s.format, ap length at) in
          let next : Args L = record s { format = rest } in
          let retry : Args L = record next { optional = some true } in
          subst (λ r. shrinks L n r ≡ true)
            (sym (parse_item-at fuel value index in_table s c rest at))
            (either L n (c == 123) _ _
              (check_type-shrinks L n value lua_ttable (λ _. parse_table L fuel value 1 next)
                (shrinks-more L (length rest - 1) n (parse_table L fuel value 1 next) (omega arith)
                  (e.table value 1 next (omega arith))))
              (either L n (c == 124) _ _
                (either L n in_table _ _ refl (
                  after_optional-shrinks n s.optional (parse_item L fuel value index in_table retry)
                    (shrinks-more L (length rest - 1) n
                      (parse_item L fuel value index in_table retry) (omega arith)
                      (e.item value index in_table retry (omega arith)))))
                (scalar-shrinks L n c value index in_table next (omega arith))))
    ]

    next_table :
        (value : L.Val) (order : ℕ) (s : Args L)
        → 3 * length s.format + 3 ≤ suc fuel
        → shrinks L (length s.format - 1) (parse_table L (suc fuel) value order s) ≡ true
    unfolding parse_table
    next_table value order s h = elim (list_cases (skip_spaces s.format)) [
      | inl end ↦ rw (shrinks, end) refl
      | inr (c, rest, at) ↦
          let n = length s.format - 1 in
          let size : length rest + 1 ≤ length s.format =
            omega (arith, length-skip_spaces s.format, ap length at) in
          let next : Args L = record s { format = rest } in
          let here : Args L = record s { format = c ∷ rest } in
          let closed : shrinks L n (done next) ≡ true = ground arith in
          subst (λ r. shrinks L n r ≡ true) (sym (parse_table-at fuel value order s c rest at))
            (either L n (c == 125) _ _ closed (
              either L n (c == 63 || c == 61) _ _
                (bind-shrinks L (length rest) n (parse_field L fuel (c == 61) value next)
                  (λ t. parse_table L fuel value order t)
                  (e.field (c == 61) value next (omega arith))
                  (λ t le.
                    shrinks-more L (length t.format - 1) n (parse_table L fuel value order t)
                      (omega arith) (e.table value order t (omega arith))))
                (bind-shrinks L (length rest) n (parse_ordered L fuel value order here)
                  (λ t. parse_table L fuel value (order + 1) t)
                  (shrinks-more L (length (c ∷ rest) - 1) (length rest)
                    (parse_ordered L fuel value order here) (omega arith)
                    (e.ordered value order here (omega arith)))
                  (λ t le.
                    shrinks-more L (length t.format - 1) n (parse_table L fuel value (order + 1) t)
                      (omega arith) (e.table value (order + 1) t (omega arith))))))
    ]

    next_ordered :
        (value : L.Val) (order : ℕ) (s : Args L)
        → 3 * length s.format + 2 ≤ suc fuel
        → shrinks L (length s.format - 1) (parse_ordered L (suc fuel) value order s) ≡ true
    unfolding parse_ordered
    next_ordered value order s h =
        let item = e.item (get_table L value (num (L.of_int (pos order)))) 0 true s (omega arith) in
        in_error-shrinks L (length s.format - 1) (at_order order s.format)
          (parse_item L fuel (get_table L value (num (L.of_int (pos order)))) 0 true s) item

    next_field :
        (required : Bool) (value : L.Val) (s : Args L)
        → 3 * length s.format + 1 ≤ suc fuel
        → shrinks L (length s.format) (parse_field L (suc fuel) required value s) ≡ true
    unfolding parse_field
    next_field required value s h =
        let n = length s.format in
        take_key-shrinks L n s _ (λ key t shorter.
          let found = get_table L value key in
          let read = in_error-shrinks L n (at_key key) (parse_item L fuel found 0 true t) (
            shrinks-more L (length t.format - 1) n (parse_item L fuel found 0 true t) (omega arith)
              (e.item found 0 true t (omega arith))) in
          either L n (not (L.type_of found == lua_tnil)) _ _ read
            (either L n required _ _ refl (skip_item-shrinks L n t t.format (omega arith))))

  pub enough : (fuel : ℕ) → Enough fuel
  enough zero = record {
    item = λ value index in_table s h. absurd (omega arith);
    table = λ value order s h. absurd (omega arith);
    ordered = λ value order s h. absurd (omega arith);
    field = λ required value s h. absurd (omega arith);
  }
  enough (suc fuel) = record {
    item = next_item fuel (enough fuel);
    table = next_table fuel (enough fuel);
    ordered = next_ordered fuel (enough fuel);
    field = next_field fuel (enough fuel);
  }
  -- The loop over the values on the stack.
