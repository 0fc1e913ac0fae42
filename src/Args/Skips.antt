-- ===== src/Args/Skips.antt =====
-- How much of a format skip_item and the keys of src/api.c leave.
use cereja.Prelude.{
  ℕ, ◌+◌, ◌≤◌, ◌≡◌, Bool, true, false, ◌||◌, Option, none, some, List, [], ◌∷◌, length, ◌==◌,
  if◌then◌else◌, arith, refl,
}
use cereja.Args.Machine.{
  Lua, Char, VaArg, pointer, chars, number, int, Key, Parsed, done, raised, fault, bind, Args,
  invalid_key,
}
use cereja.Args.Scalars.{is_number_kind}
use cereja.Args.{
  skip_braces, skip_pointer, skip_string, skip_char, skip_nested, skip_item, take_key,
}
use cereja.Args.Shrinks.{length-skip_braces, shrinks, bind-shrinks, either, skip_pointer-shrinks}

module _ (L : Lua) where
  skip_string-shrinks :
      (n : ℕ) (s : Args L) (cs : List Char)
      → length cs ≤ n
      → shrinks L n (skip_string L (record s { format = cs })) ≡ true
  unfolding skip_string
  skip_string-shrinks n s [] h = skip_pointer-shrinks L n (record s { format = [] }) h
  skip_string-shrinks n s (d ∷ after) h =
      either L n (d == 35) _ _
        (bind-shrinks L n n _ (skip_pointer L)
          (skip_pointer-shrinks L n (record s { format = after }) (omega arith))
          (skip_pointer-shrinks L n))
        (skip_pointer-shrinks L n (record s { format = d ∷ after }) h)

  skip_nested-shrinks :
      (n : ℕ) (s : Args L) (cs : List Char) (found : Option (List Char))
      → length cs ≤ n
      → ((after : List Char) → found ≡ some after → length after ≤ n)
      → shrinks L n (skip_nested L found (record s { format = cs })) ≡ true
  unfolding skip_nested
  skip_nested-shrinks n s cs none h next = ground arith
  skip_nested-shrinks n s cs (some after) h next = ground (arith, next after refl)

  pub either_key :
      (n : ℕ) (b : Bool) (r t : Parsed L (Key L × Args L)) (k : Key L × Args L → Parsed L (Args L))
      → shrinks L n (bind L r k) ≡ true
      → shrinks L n (bind L t k) ≡ true
      → shrinks L n (bind L (if b then r else t) k) ≡ true
  either_key n true r t k h g = h
  either_key n false r t k h g = g

  taken :
      (n : ℕ) (s : Args L) (cs : List Char) (va : List (VaArg L))
      (k : Key L × Args L → Parsed L (Args L))
      → ((key : Key L) (t : Args L)
          → length t.format + 1 ≤ length cs
          → shrinks L n (k (key, t)) ≡ true)
      → shrinks L n (bind L (take_key L (record s { format = cs; va = va })) k) ≡ true
  unfolding take_key
  taken n s [] va k next = refl
  taken n s (c ∷ rest) [] k next =
      either_key n (c == 115 || c == 110 || c == 105 || c == 108) fault (raised (invalid_key c)) k
        refl refl
  taken n s (c ∷ rest) (pointer p ∷ va) k next =
      either_key n (c == 115) _ _ k refl
        (either_key n (c == 110) _ _ k refl (either_key n (c == 105 || c == 108) _ _ k refl refl))
  taken n s (c ∷ rest) (chars t ∷ va) k next =
      either_key n (c == 115) _ _ k (next _ _ (omega arith))
        (either_key n (c == 110) _ _ k refl (either_key n (c == 105 || c == 108) _ _ k refl refl))
  taken n s (c ∷ rest) (number x ∷ va) k next = either_key n (c == 115) _ _ k refl (
      either_key n (c == 110) _ _ k (next _ _ (omega arith))
        (either_key n (c == 105 || c == 108) _ _ k refl refl))
  taken n s (c ∷ rest) (int z ∷ va) k next = either_key n (c == 115) _ _ k refl (
      either_key n (c == 110) _ _ k refl
        (either_key n (c == 105 || c == 108) _ _ k (next _ _ (omega arith)) refl))

  -- An item that is passed over.
  pub skip_item-shrinks :
      (n : ℕ) (s : Args L) (cs : List Char)
      → length cs ≤ n
      → shrinks L n (skip_item L (record s { format = cs })) ≡ true
  unfolding skip_item skip_char
  skip_item-shrinks n s [] h = ground arith
  skip_item-shrinks n s (c ∷ rest) h =
      let here : Args L = record s { format = rest } in
      let whole : Args L = record s { format = c ∷ rest } in
      let kept : shrinks L n (done whole) ≡ true = ground arith in
      let same : length rest ≤ n = omega arith in
      let nested =
        either L n (c == 123) (skip_nested L (skip_braces 1 rest) whole) (done whole)
          (skip_nested-shrinks n s (c ∷ rest) (skip_braces 1 rest) h
            (λ after e. omega (arith, length-skip_braces 1 rest after e)))
          kept in
      let strings =
        either L n (c == 115 || c == 122) (skip_string L here)
          (if c == 123 then skip_nested L (skip_braces 1 rest) whole else done whole)
          (skip_string-shrinks n s rest same) nested in
      either L n (is_number_kind c || c == 81 || c == 117 || c == 85) (skip_pointer L here)
        (if c == 115 || c == 122
          then skip_string L here
          else if c == 123
          then skip_nested L (skip_braces 1 rest) whole
          else done whole)
        (skip_pointer-shrinks L n here same) strings

  -- A key takes a character of the format.
  pub take_key-shrinks :
      (n : ℕ) (s : Args L) (k : Key L × Args L → Parsed L (Args L))
      → ((key : Key L) (t : Args L)
          → length t.format + 1 ≤ length s.format
          → shrinks L n (k (key, t)) ≡ true)
      → shrinks L n (bind L (take_key L s) k) ≡ true
  take_key-shrinks n s k next = taken n s s.format s.va k next
