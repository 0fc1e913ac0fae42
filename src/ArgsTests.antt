-- ===== src/ArgsTests.antt =====
-- Formats of src/api.c that are run on concrete values.
use cereja.Prelude.{
  ℕ, ◌≡◌, ◌≢◌, Bool, true, false, none, some, List, [], ◌∷◌, ◌==◌, if◌then◌else◌, refl,
}
use cereja.Prelude.Int.{ℤ, pos}
use cereja.Args.Machine.{
  Lua, get_table, VaArg, pointer, number_of, string_of, length_of, done, raised, out_of_fuel,
  type_mismatch, bad_argument,
}
use cereja.Args.Scalars.{is_number_kind}
use cereja.Args.{crj_parse_args, crj_parse_table}
use cereja.Args.Patterns.{
  Pattern, leaf, closed, element, required, absent, text_key, long_key, Agrees, AgreeFields,
  is_plain, pattern_writes, fields_writes,
}
use cereja.Args.Patterns.Reads.{
  Argument, text_of, values_of, va_of, writes_of, left_of, crj_parse_args-nested,
}
use cereja.Args.Fuel.{crj_parse_args-ends}

-- A part of Lua: tables have entries for positions only.
data Val : Type 0 where
  nil : Val
  numeral : ℤ → Val
  string : List ℕ → Val
  table : Val → Val → Val

abbrev type_of : Val → ℕ
type_of nil = 0
type_of (numeral _) = 3
type_of (string _) = 4
type_of (table _ _) = 5

abbrev to_boolean : Val → Bool
to_boolean nil = false
to_boolean _ = true

abbrev is_string : Val → Bool
is_string (numeral _) = true
is_string (string _) = true
is_string _ = false

-- The entries 1 and 2.
abbrev get_num : Val → ℤ → Val
get_num (table a b) (pos n) = if n == 1 then a else if n == 2 then b else nil
get_num _ _ = nil

abbrev lua : Lua
lua = record {
  Val = Val;
  Num = ℤ;
  of_int = λ z. z;
  type_of = type_of;
  is_string = is_string;
  to_boolean = to_boolean;
  get_text = λ t k. nil;
  get_num = get_num;
}

-- "i s#"
abbrev int_and_string : List ℕ
int_and_string = 105 ∷ 32 ∷ 115 ∷ 35 ∷ []

-- "{i i}"
abbrev pair_of_ints : List ℕ
pair_of_ints = 123 ∷ 105 ∷ 32 ∷ 105 ∷ 125 ∷ []

abbrev values : List Val
values = numeral (pos 7) ∷ string (104 ∷ []) ∷ []

abbrev pointers : List (VaArg lua)
pointers = pointer 0 ∷ pointer 1 ∷ pointer 2 ∷ []

crj_parse_args-ends_example : crj_parse_args lua values int_and_string pointers ≢ out_of_fuel
crj_parse_args-ends_example = crj_parse_args-ends lua values int_and_string pointers

reads_int_and_string :
    crj_parse_args lua values int_and_string pointers
    ≡ done (record {
      format = [];
      va = [];
      written =
          (0, number_of 105 (numeral (pos 7)))
          ∷ (1, string_of (string (104 ∷ [])))
          ∷ (2, length_of (string (104 ∷ [])))
          ∷ [];
      optional = some false;
    })
unfolding crj_parse_args is_number_kind
reads_int_and_string = refl

reads_table :
    crj_parse_table lua (table (numeral (pos 1)) (numeral (pos 2))) 1 pair_of_ints pointers
    ≡ done (record {
      format = [];
      va = pointer 2 ∷ [];
      written = (0, number_of 105 (numeral (pos 1))) ∷ (1, number_of 105 (numeral (pos 2))) ∷ [];
      optional = none;
    })
unfolding crj_parse_table is_number_kind
reads_table = refl

refuses_string :
    crj_parse_args lua (string [] ∷ []) int_and_string pointers
    ≡ raised (bad_argument 1 (type_mismatch 3 4))
unfolding crj_parse_args is_number_kind
refuses_string = refl

-- The table {7, "h"}, read by `{i =l s ?s i }`.
abbrev pattern : Pattern lua
pattern = Pattern.table (
    element (leaf b'i' 0)
      (required (long_key (pos 2)) (leaf b's' 1) (absent (text_key (b'x' ∷ [])) b'i' 2 closed)))

pattern-Agrees : Agrees lua pattern (table (numeral (pos 7)) (string (104 ∷ [])))
unfolding Agrees AgreeFields get_table is_number_kind is_plain
pattern-Agrees = (refl, (refl, (refl, refl, (refl, refl, tt))))

abbrev given : List (Argument lua)
given =
    record {
      pattern = pattern;
      value = table (numeral (pos 7)) (string (104 ∷ []));
      agrees = pattern-Agrees;
    }
    ∷ []

crj_parse_args-nested_example :
    crj_parse_args lua (values_of lua given) (text_of lua given) (va_of lua given)
    ≡ done (record {
      format = left_of lua given [];
      va = [];
      written = writes_of lua given [];
      optional = some false;
    })
crj_parse_args-nested_example = crj_parse_args-nested lua given

-- The variable of the absent field is left as it was.
two_are_written :
    writes_of lua given []
    ≡ (0, number_of 105 (numeral (pos 7))) ∷ (1, string_of (string (104 ∷ []))) ∷ []
unfolding pattern_writes fields_writes get_table is_number_kind
two_are_written = refl
