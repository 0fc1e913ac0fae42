-- ===== src/Build/Heights.antt =====
-- How an item or a table of build_a_value in src/api.c changes the height of the stack.
use cereja.Prelude.{
  ℕ, ◌+◌, ◌-◌, ◌≤◌, ◌<◌, ◌≡◌, Bool, true, false, Option, none, some, List, [], ◌∷◌, length, ◌==◌,
  leb, if◌then◌else◌, arith, refl, ◌⊎◌, inl, inr, ◌&&◌,
}
use cereja.Args.Machine.{Lua, Char}
use Prim.{Unit, tt, ⊥}
use cereja.Build.{value_or_table}
use cereja.Build.Machine.{
  BuildArg, double, int, unsigned, long, unsigned_long, address, function, chars, size, Call,
  swap_top, set_table, Status, success, end_of_format, Built, done, out_of_fuel, Run, bind, pushed,
}
use cereja.Build.Scalars.{
  push_call, build_bytes, push_c_string, build_string, string_item, argument_call, build_simple,
  build_scalar, after_table, behind_table, c_string, is_simple_item,
}

module _ (L : Lua) where
  -- How many values a call leaves on the stack, from the manual of Lua 5.1.
  abbrev pub height_after : Call L → ℕ → ℕ
  height_after swap_top n = n
  height_after set_table n = n - 2
  height_after _ n = n + 1

  abbrev pub height : List (Call L) → ℕ
  height [] = 0
  height (c ∷ cs) = height_after c (height cs)

  -- A run of build_a_value from `s` ends, and leaves what its status says.
  abbrev pub Balanced : Run L → Built L (Status L × Run L) → Type 0
  Balanced s (done (success, t)) =
      (length t.format < length s.format) × (height t.calls ≡ height s.calls + 1)
  Balanced s (done (end_of_format, t)) =
      (length t.format ≤ length s.format)
      × ((height t.calls ≡ height s.calls) ⊎ (height t.calls ≡ height s.calls + 1))
  Balanced s (done (_, t)) = (length t.format < length s.format) × (height t.calls ≡ height s.calls)
  Balanced s out_of_fuel = ⊥
  Balanced s _ = Unit

  -- A run of the loop over a table that starts with `m` characters and `h` values.
  abbrev pub BalancedTable : (m h : ℕ) → Built L (Run L) → Type 0
  BalancedTable m h (done t) = (length t.format < m) × (height t.calls ≡ h)
  BalancedTable m h out_of_fuel = ⊥
  BalancedTable m h _ = Unit

  either-Balanced :
      (s : Run L) (b : Bool) (x y : Built L (Status L × Run L))
      → Balanced s x
      → Balanced s y
      → Balanced s (if b then x else y)
  either-Balanced s true x y left right = left
  either-Balanced s false x y left right = right

  argument_call-height :
      (c : Char) (n : ℕ) (a : BuildArg L) (call : Call L) (h : ℕ)
      → argument_call L c n a ≡ some call
      → height_after call h ≡ h + 1
  unfolding argument_call
  argument_call-height c n (double _) call h e = ground arith
  argument_call-height c n (int _) call h e = ground arith
  argument_call-height c n (unsigned _) call h e = ground arith
  argument_call-height c n (long _) call h e = ground arith
  argument_call-height c n (unsigned_long _) call h e = ground arith
  argument_call-height c n (address _) call h e = ground arith
  argument_call-height c n (function _) call h e = ground arith
  argument_call-height c n (chars _) call h e = ground arith
  argument_call-height c n (size _) call h e = ground arith

  -- What is added to a run that `s` became without a value pushed.
  pushed-Balanced :
      (s t : Run L) (call : Call L) (va : List (BuildArg L))
      → length t.format < length s.format
      → height t.calls ≡ height s.calls
      → height_after call (height t.calls) ≡ height t.calls + 1
      → Balanced s (pushed L call va t)
  pushed-Balanced s t call va shorter same one = (shorter, omega (arith, same, one))

  push_call-Balanced :
      (o : Option (Call L)) (va : List (BuildArg L)) (s t : Run L)
      → length t.format < length s.format
      → height t.calls ≡ height s.calls
      → ((call : Call L) (h : ℕ) → o ≡ some call → height_after call h ≡ h + 1)
      → Balanced s (push_call L o va t)
  unfolding push_call
  push_call-Balanced none va s t shorter same one = record {}
  push_call-Balanced (some call) va s t shorter same one =
      pushed-Balanced s t call va shorter same (one call (height t.calls) refl)

  push_c_string-Balanced :
      (o : Option (List Char)) (va : List (BuildArg L)) (s t : Run L)
      → length t.format < length s.format
      → height t.calls ≡ height s.calls
      → Balanced s (push_c_string L o va t)
  unfolding push_c_string
  push_c_string-Balanced none va s t shorter same = record {}
  push_c_string-Balanced (some string) va s t shorter same = (shorter, omega (arith, same))

  build_bytes-Balanced :
      (text : List Char) (va : List (BuildArg L)) (s t : Run L)
      → length t.format < length s.format
      → height t.calls ≡ height s.calls
      → Balanced s (build_bytes L text va t)
  unfolding build_bytes
  build_bytes-Balanced text (size n ∷ va) s t shorter same =
      either-Balanced s (leb n (length text)) _ _ (shorter, omega (arith, same)) tt
  build_bytes-Balanced text _ s t shorter same = tt

  build_simple-Balanced :
      (c : Char) (n : ℕ) (va : List (BuildArg L)) (s t : Run L)
      → length t.format < length s.format
      → height t.calls ≡ height s.calls
      → Balanced s (build_simple L c n va t)
  unfolding build_simple
  build_simple-Balanced c n [] s t shorter same = tt
  build_simple-Balanced c n (a ∷ va) s t shorter same =
      push_call-Balanced (argument_call L c n a) va s t shorter same
        (λ call h e. argument_call-height c n a call h e)

  string_item-Balanced :
      (text : List Char) (va : List (BuildArg L)) (behind : List Char) (s t : Run L)
      → length behind < length s.format
      → length t.format < length s.format
      → height t.calls ≡ height s.calls
      → Balanced s (string_item L text va behind t)
  unfolding string_item
  string_item-Balanced text va [] s t less shorter same =
      push_c_string-Balanced (c_string L text) va s t shorter same
  string_item-Balanced text va (d ∷ after) s t less shorter same =
      either-Balanced s (d == b'#') _ _
        (build_bytes-Balanced text va s (record t { format = after }) (omega (arith, less)) same)
        (push_c_string-Balanced (c_string L text) va s t shorter same)

  build_string-Balanced :
      (va : List (BuildArg L)) (s t : Run L)
      → length t.format < length s.format
      → height t.calls ≡ height s.calls
      → Balanced s (build_string L va t)
  unfolding build_string
  build_string-Balanced (chars text ∷ va) s t shorter same =
      string_item-Balanced text va t.format s t shorter shorter same
  build_string-Balanced _ s t shorter same = tt

  build_scalar-Balanced :
      (c : Char) (in_table : Bool) (n : ℕ) (s t : Run L)
      → length t.format < length s.format
      → height t.calls ≡ height s.calls
      → Balanced s (build_scalar L c in_table n t)
  unfolding build_scalar
  build_scalar-Balanced c in_table n s t shorter same =
      either-Balanced s (is_simple_item L c) _ _ (build_simple-Balanced c n t.va s t shorter same) (
        either-Balanced s (c == b's') _ _ (build_string-Balanced t.va s t shorter same) (
          either-Balanced s (in_table && c == b'=') _ _ (shorter, same)
            (either-Balanced s (in_table && c == b'}') _ _ (shorter, same) tt)))

  behind_table-Balanced :
      (behind : List Char) (s t : Run L)
      → length t.format < length s.format
      → length behind ≤ length t.format
      → height t.calls ≡ height s.calls + 1
      → Balanced s (behind_table L behind t)
  unfolding behind_table
  behind_table-Balanced [] s t shorter le one = (omega (arith, shorter), inr one)
  behind_table-Balanced (_ ∷ after) s t shorter le one = (omega (arith, shorter, le), one)

  after_table-Balanced :
      (s : Run L) (r : Built L (Run L)) (m : ℕ)
      → BalancedTable m (height s.calls + 1) r
      → m ≤ length s.format
      → Balanced s (bind L r (after_table L))
  unfolding after_table
  after_table-Balanced s (done t) m (shorter, one) le =
      behind_table-Balanced t.format s t (omega (arith, shorter, le)) (omega arith) one
  after_table-Balanced s out_of_fuel m ok le = ok
  after_table-Balanced s _ m ok le = tt

  pub value_or_table-Balanced :
      (cs : List Char) (table : List Char → Built L (Run L)) (in_table : Bool) (n : ℕ) (s : Run L)
      → length cs ≤ length s.format
      → ((c : Char) (rest : List Char)
          → cs ≡ c ∷ rest
          → BalancedTable (length rest) (height s.calls + 1) (table rest))
      → Balanced s (value_or_table L cs table in_table n s)
  unfolding value_or_table
  value_or_table-Balanced [] table in_table n s le ok = (omega arith, inl refl)
  value_or_table-Balanced (c ∷ rest) table in_table n s le ok =
      either-Balanced s (c == b'{') _ _
        (after_table-Balanced s (table rest) (length rest) (ok c rest refl) (omega (arith, le)))
        (build_scalar-Balanced c in_table n s (record s { format = rest }) (omega (arith, le)) refl)
