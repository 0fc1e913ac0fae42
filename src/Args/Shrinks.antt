-- ===== src/Args/Shrinks.antt =====
-- How much of a format the items of src/api.c leave.
use cereja.Prelude.{
  ℕ, ◌+◌, ◌-◌, ◌≤◌, ◌≡◌, Bool, true, false, not, Option, none, some, List, [], ◌∷◌, length, ◌==◌,
  leb, if◌then◌else◌, arith, refl, inl, inr, Bool-cases,
}
use cereja.Args.Machine.{
  Lua, Char, VaArg, pointer, chars, number, int, Value, Error, Parsed, done, raised, fault,
  out_of_fuel, bind, in_error, Args, skip_spaces, write_next,
}
use cereja.Args.Scalars.{
  plain_string, sized_string, typed_object, is_number_kind, check_type, string_item, object_item,
  object_type, scalar,
}
use cereja.Args.{skip_braces, skip_pointer}

pub length-skip_spaces : (cs : List Char) → length (skip_spaces cs) ≤ length cs
unfolding skip_spaces
length-skip_spaces [] = omega arith
length-skip_spaces (c ∷ cs) = ground (arith, length-skip_spaces cs)

pub length-skip_braces :
    (level : ℕ) (cs after : List Char)
    → skip_braces level cs ≡ some after
    → length after ≤ length cs
unfolding skip_braces
length-skip_braces level [] after e = ground arith
length-skip_braces level (c ∷ cs) after e = ground (
  arith,
  length-skip_braces (level + 1) cs after,
  length-skip_braces (level - 1) cs after,
  length-skip_braces level cs after,
)

module _ (L : Lua) where
  -- The run does not want fuel, and leaves at most `n` characters of the format if it is done.
  abbrev pub shrinks : ℕ → Parsed L (Args L) → Bool
  shrinks n (done s) = leb (length s.format) n
  shrinks n (raised e) = true
  shrinks n fault = true
  shrinks n out_of_fuel = false

  pub bind-shrinks :
      (m n : ℕ) (r : Parsed L (Args L)) (k : Args L → Parsed L (Args L))
      → shrinks m r ≡ true
      → ((s : Args L) → length s.format ≤ m → shrinks n (k s) ≡ true)
      → shrinks n (bind L r k) ≡ true
  bind-shrinks m n (done s) k h next = next s (ground arith)
  bind-shrinks m n (raised e) k h next = refl
  bind-shrinks m n fault k h next = refl
  bind-shrinks m n out_of_fuel k h next = h

  pub shrinks-more :
      (m n : ℕ) (r : Parsed L (Args L)) → m ≤ n → shrinks m r ≡ true → shrinks n r ≡ true
  shrinks-more m n (done s) le h = ground arith
  shrinks-more m n (raised e) le h = refl
  shrinks-more m n fault le h = refl
  shrinks-more m n out_of_fuel le h = h

  pub in_error-shrinks :
      (n : ℕ) (f : Error L → Error L) (r : Parsed L (Args L))
      → shrinks n r ≡ true
      → shrinks n (in_error L f r) ≡ true
  in_error-shrinks n f (done s) h = h
  in_error-shrinks n f (raised e) h = refl
  in_error-shrinks n f fault h = refl
  in_error-shrinks n f out_of_fuel h = h

  pub either :
      (n : ℕ) (b : Bool) (r t : Parsed L (Args L))
      → shrinks n r ≡ true
      → shrinks n t ≡ true
      → shrinks n (if b then r else t) ≡ true
  either n true r t h k = h
  either n false r t h k = k

  pub check_type-shrinks :
      (n : ℕ) (value : L.Val) (type : ℕ) (k : Unit {0} → Parsed L (Args L))
      → shrinks n (k tt) ≡ true
      → shrinks n (bind L (check_type L value type) k) ≡ true
  unfolding check_type
  check_type-shrinks n value type k h = elim (Bool-cases (L.type_of value == type)) [
    | inl same ↦ rw same h
    | inr other ↦ rw other refl
  ]

  written_va :
      (n : ℕ) (v : Value L) (s : Args L) (va : List (VaArg L))
      → length s.format ≤ n
      → shrinks n (write_next L v (record s { va = va })) ≡ true
  unfolding write_next
  written_va n v s [] h = refl
  written_va n v s (pointer p ∷ va) h = ground arith
  written_va n v s (chars t ∷ va) h = refl
  written_va n v s (number x ∷ va) h = refl
  written_va n v s (int z ∷ va) h = refl

  write_next-shrinks :
      (n : ℕ) (v : Value L) (s : Args L) → length s.format ≤ n → shrinks n (write_next L v s) ≡ true
  write_next-shrinks n v s h = written_va n v s s.va h

  skipped_va :
      (n : ℕ) (s : Args L) (va : List (VaArg L))
      → length s.format ≤ n
      → shrinks n (skip_pointer L (record s { va = va })) ≡ true
  unfolding skip_pointer
  skipped_va n s [] h = refl
  skipped_va n s (pointer p ∷ va) h = ground arith
  skipped_va n s (chars t ∷ va) h = refl
  skipped_va n s (number x ∷ va) h = refl
  skipped_va n s (int z ∷ va) h = refl

  pub skip_pointer-shrinks :
      (n : ℕ) (s : Args L) → length s.format ≤ n → shrinks n (skip_pointer L s) ≡ true
  skip_pointer-shrinks n s h = skipped_va n s s.va h

  plain_string-shrinks :
      (n : ℕ) (value : L.Val) (s : Args L)
      → length s.format ≤ n
      → shrinks n (plain_string L value s) ≡ true
  unfolding plain_string
  plain_string-shrinks n value s h =
      let written = λ (v : Value L). write_next-shrinks n v s h in
      either n (L.is_string value) _ _ (written _) (
        either n (not (L.to_boolean value)) _ _ (written _)
          (bind-shrinks n n _ _ (written _) (λ t k. refl)))

  sized_string-shrinks :
      (n : ℕ) (value : L.Val) (s : Args L)
      → length s.format ≤ n
      → shrinks n (sized_string L value s) ≡ true
  unfolding sized_string
  sized_string-shrinks n value s h =
      let two = λ (v w : Value L).
        bind-shrinks n n (write_next L v s) (write_next L w) (write_next-shrinks n v s h)
          (write_next-shrinks n w) in
      either n (L.is_string value) _ _ (two _ _) (
        either n (not (L.to_boolean value)) _ _ (two _ _)
          (bind-shrinks n n _ _ (two _ _) (λ t k. refl)))

  -- A string of either form, of which a mismatch takes the variable arguments all the same.
  string_item-shrinks :
      (n : ℕ) (value : L.Val) (s : Args L) (cs : List Char)
      → length cs ≤ n
      → shrinks n (string_item L value (record s { format = cs })) ≡ true
  unfolding string_item
  string_item-shrinks n value s [] h = plain_string-shrinks n value (record s { format = [] }) h
  string_item-shrinks n value s (d ∷ after) h =
      either n (d == 35) _ _
        (sized_string-shrinks n value (record s { format = after }) (omega arith))
        (plain_string-shrinks n value (record s { format = d ∷ after }) h)

  typed_object-shrinks :
      (n : ℕ) (type : Option ℕ) (c : Char) (value : L.Val) (index : ℕ) (s : Args L)
      → length s.format ≤ n
      → shrinks n (typed_object L type c value index s) ≡ true
  unfolding typed_object
  typed_object-shrinks n none c value index s h = refl
  typed_object-shrinks n (some type) c value index s h =
      check_type-shrinks n value type _ (write_next-shrinks n _ s h)

  object_item-shrinks :
      (n : ℕ) (value : L.Val) (index : ℕ) (s : Args L) (cs : List Char)
      → length cs ≤ n
      → shrinks n (object_item L value index (record s { format = cs })) ≡ true
  unfolding object_item
  object_item-shrinks n value index s [] h = write_next-shrinks n _ (record s { format = [] }) h
  object_item-shrinks n value index s (d ∷ []) h =
      either n (d == 47) _ _ refl (write_next-shrinks n _ (record s { format = d ∷ [] }) h)
  object_item-shrinks n value index s (d ∷ t ∷ rest) h =
      either n (d == 47) _ _
        (typed_object-shrinks n (object_type t) t value index (record s { format = rest })
          (omega arith))
        (write_next-shrinks n _ (record s { format = d ∷ t ∷ rest }) h)

  -- An item that is read on its own.
  pub scalar-shrinks :
      (n : ℕ) (c : Char) (value : L.Val) (index : ℕ) (in_table : Bool) (s : Args L)
      → length s.format ≤ n
      → shrinks n (scalar L c value index in_table s) ≡ true
  unfolding scalar
  scalar-shrinks n c value index in_table s h =
      let written = λ (v : Value L). write_next-shrinks n v s h in
      let string = string_item-shrinks n value s s.format h in
      either n (is_number_kind c) _ _ (check_type-shrinks n value _ _ (written _)) (
        either n (c == 115) _ _ (check_type-shrinks n value _ _ string) (
          either n (c == 122) _ _ string (
            either n (c == 81) _ _ (written _) (
              either n (c == 117) _ _ (check_type-shrinks n value _ _ (written _)) (
                either n (c == 85) _ _ (check_type-shrinks n value _ _ (written _)) (
                  either n (c == 79) _ _
                    (either n in_table _ _ refl (object_item-shrinks n value index s s.format h))
                    refl))))))
