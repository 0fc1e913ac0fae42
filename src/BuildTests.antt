-- ===== src/BuildTests.antt =====
-- Values that Crj_BuildValues of src/api.c builds, on concrete arguments.
use cereja.Prelude.{ℕ, ◌≡◌, true, false, List, [], ◌∷◌, refl, arith}
use cereja.Prelude.Int.{ℤ, pos, negsuc, ◌-ℤ◌}
use cereja.Args.Machine.{Lua}
use cereja.Build.{build_a_value, fuel_for, crj_build_values}
use cereja.Build.Machine.{
  int, Call, push_number, push_value, push_integer, swap_top, set_table, new_table, done, failed,
  table_not_terminated, Run,
}
use cereja.Build.Heights.{Balanced}
use cereja.Build.Balance.{build_a_value-Balanced}
use cereja.Build.Prints.{
  Node, Entries, item, table, closed, element, field, text_item, int_item, pointer_item,
  below_top_item, entries_text, entries_args, entries_calls, values_text, values_args, values_calls,
}
use cereja.Build.Prints.Reads.{crj_build_values-reads, crj_build_values-skips}

-- A part of Lua: its numbers.
abbrev lua : Lua
lua = record {
  Val = ℕ;
  Num = ℤ;
  of_int = λ z. z;
  type_of = λ v. v;
  is_string = λ v. false;
  to_boolean = λ v. true;
  get_text = λ t k. t;
  get_num = λ t k. t;
}

-- "i {=su O }": a number, and a table with a field and an element.
abbrev number_and_table : List (Node lua)
number_and_table =
    item (int_item (pos 7))
    ∷ table (
        field (item (text_item (b'k' ∷ []) refl)) (item (pointer_item 64))
          (element (item (below_top_item 0 (omega arith))) closed))
    ∷ []

crj_build_values-reads_example :
    crj_build_values lua (values_text lua number_and_table) (values_args lua number_and_table)
    ≡ done (values_calls lua number_and_table 0 [])
crj_build_values-reads_example = crj_build_values-reads lua number_and_table

-- The calls of "i O": the slot that was on the top is the second by now.
number_and_slot :
    crj_build_values lua (b'i' ∷ b' ' ∷ b'O' ∷ []) (int (pos 7) ∷ int (negsuc 0) ∷ [])
    ≡ done (push_value (negsuc 1) ∷ push_number (pos 7) ∷ [])
unfolding crj_build_values ◌-ℤ◌
number_and_slot = refl

-- "{i}i": the second item is skipped.
abbrev element_of_three : Entries lua
element_of_three = element (item (int_item (pos 3))) closed

crj_build_values-skips_example :
    crj_build_values lua
      (b'{' ∷ entries_text lua element_of_three (b'}' ∷ b'i' ∷ []))
      (entries_args lua element_of_three [])
    ≡ done (entries_calls lua element_of_three 1 1 1 (new_table ∷ []))
crj_build_values-skips_example = crj_build_values-skips lua element_of_three b'i'

-- "{{}}": the second `}` is skipped, so the outer table is not terminated.
nested_without_space :
    crj_build_values lua (b'{' ∷ b'{' ∷ b'}' ∷ b'}' ∷ []) [] ≡ failed table_not_terminated
unfolding crj_build_values
nested_without_space = refl

abbrev table_at_end : Run lua
table_at_end = record { format = b'{' ∷ b'i' ∷ b'}' ∷ []; va = int (pos 3) ∷ []; calls = [] }

build_a_value-Balanced_example :
    Balanced lua table_at_end
      (build_a_value lua (fuel_for lua (b'{' ∷ b'i' ∷ b'}' ∷ [])) false 0 table_at_end)
build_a_value-Balanced_example = build_a_value-Balanced lua false 0 table_at_end

-- "{O}" with the index -1: the table is not counted, and is its own element.
abbrev slot_in_table : List (Call lua)
slot_in_table = set_table ∷ swap_top ∷ push_integer 1 ∷ push_value (negsuc 0) ∷ new_table ∷ []

table_in_itself :
    crj_build_values lua (b'{' ∷ b'O' ∷ b'}' ∷ []) (int (negsuc 0) ∷ []) ≡ done slot_in_table
unfolding crj_build_values ◌-ℤ◌
table_in_itself = refl
