-- ===== src/Args/Patterns/Nested.antt =====
-- What Crj_ParseArgs of src/api.c stores for a format of items in tables.
use cereja.Prelude.{
  ℕ, zero, suc, ◌+◌, ◌-◌, ◌≤◌, ◌≡◌, refl, ◌∙◌, Bool, true, false, Option, List, [], ◌∷◌, ◌++◌,
  arith,
}
use cereja.Args.Machine.{Lua, Char, VaArg, pointer, Value, done, skip_spaces}
use cereja.Args.Scalars.{check_type}
use cereja.Args.Reads.{stored}
use cereja.Args.Enough.{parse_item-at, parse_table-at}
use cereja.Args.{parse_item, parse_table}
use cereja.Args.Patterns.{
  key_char, key_arg, at_key_arg, at_number, Pattern, leaf, table, Fields, closed, element, required,
  optional, absent, pattern_text, fields_text, pattern_args, fields_args, Agrees, AgreeFields,
  pattern_writes, fields_writes, pattern_fuel, fields_fuel,
}
use cereja.Args.Patterns.Steps.{
  state, reads_leaf, not_mark, skip_pattern, skip_space, at_least_two, skip_fields, step_element,
  step_field, reads_field, skips_field,
}

module _ (L : Lua) where
  mutual
    unfolding pattern_text fields_text pattern_args fields_args Agrees AgreeFields pattern_writes
        fields_writes pattern_fuel fields_fuel check_type

    reads_pattern :
        (p : Pattern L) (fuel : ℕ) (v : L.Val) (index : ℕ) (in_table : Bool)
        (format rest : List Char) (va : List (VaArg L)) (w : List (ℕ × Value L)) (o : Option Bool)
        → pattern_fuel L p ≤ fuel
        → Agrees L p v
        → skip_spaces format ≡ pattern_text L p rest
        → parse_item L fuel v index in_table (state L format (pattern_args L p va) w o)
          ≡ done (state L (32 ∷ rest) va (pattern_writes L p v w) o)
    reads_pattern (leaf c p) zero v index in_table format rest va w o h a at = absurd (omega arith)
    reads_pattern (leaf c p) (suc fuel) v index in_table format rest va w o h a at =
        reads_leaf L fuel c p v index in_table format rest va w o a at
    reads_pattern (table fs) zero v index in_table format rest va w o h a at = absurd (omega arith)
    reads_pattern (table fs) (suc fuel) v index in_table format rest va w o h a at =
        parse_item-at L fuel v index in_table (state L format (fields_args L fs va) w o) 123
          (fields_text L fs (125 ∷ 32 ∷ rest)) at
        ∙ rw (a.0) (
            reads_fields fs fuel v 1 (fields_text L fs (125 ∷ 32 ∷ rest)) rest va w o (omega arith)
              a.1 (skip_fields L fs v 1 rest a.1))

    reads_fields :
        (fs : Fields L) (fuel : ℕ) (t : L.Val) (order : ℕ) (format rest : List Char)
        (va : List (VaArg L)) (w : List (ℕ × Value L)) (o : Option Bool)
        → fields_fuel L fs ≤ fuel
        → AgreeFields L fs t order
        → skip_spaces format ≡ fields_text L fs (125 ∷ 32 ∷ rest)
        → parse_table L fuel t order (state L format (fields_args L fs va) w o)
          ≡ done (state L (32 ∷ rest) va (fields_writes L fs t order w) o)
    reads_fields closed zero t order format rest va w o h a at = absurd (omega arith)
    reads_fields closed (suc fuel) t order format rest va w o h a at =
        parse_table-at L fuel t order (state L format va w o) 125 (32 ∷ rest) at
    reads_fields (element (leaf c p) fs) fuel t order format rest va w o h a at =
        let u = at_number L t order in
        let more = fields_text L fs (125 ∷ 32 ∷ rest) in
        let left = fields_args L fs va in
        let wrote = w ++ (p, stored L c u) ∷ [] in
        rw (at_least_two L fuel (omega arith)) (
          step_element L (fuel - 2) t order (state L format (pointer p ∷ left) w o)
            (state L (32 ∷ more) left wrote o) c (32 ∷ more) at (not_mark L c u a.0)
            (reads_pattern (leaf c p) (fuel - 2) u 0 true (c ∷ 32 ∷ more) more left w o
              (omega arith) a.0 (skip_pattern L (leaf c p) u more a.0))
          ∙ reads_fields fs (suc (fuel - 2)) t (order + 1) (32 ∷ more) rest va wrote o (omega arith)
              a.1 (skip_space L more ∙ skip_fields L fs t (order + 1) rest a.1))
    reads_fields (element (table gs) fs) fuel t order format rest va w o h a at =
        let u = at_number L t order in
        let more = fields_text L fs (125 ∷ 32 ∷ rest) in
        let inner = fields_text L gs (125 ∷ 32 ∷ more) in
        let left = fields_args L fs va in
        let wrote = fields_writes L gs u 1 w in
        rw (at_least_two L fuel (omega arith)) (
          step_element L (fuel - 2) t order (state L format (fields_args L gs left) w o)
            (state L (32 ∷ more) left wrote o) 123 inner at (refl, refl, refl)
            (reads_pattern (table gs) (fuel - 2) u 0 true (123 ∷ inner) more left w o (omega arith)
              a.0 (skip_pattern L (table gs) u more a.0))
          ∙ reads_fields fs (suc (fuel - 2)) t (order + 1) (32 ∷ more) rest va wrote o (omega arith)
              a.1 (skip_space L more ∙ skip_fields L fs t (order + 1) rest a.1))
    reads_fields (required k p fs) fuel t order format rest va w o h a at =
        let u = at_key_arg L t k in
        let more = fields_text L fs (125 ∷ 32 ∷ rest) in
        let left = fields_args L fs va in
        let inner = pattern_text L p more in
        let wrote = pattern_writes L p u w in
        let after = state L (32 ∷ more) left wrote o in
        rw (at_least_two L fuel (omega arith)) (
          step_field L (fuel - 2) true t order
            (state L format (key_arg L k ∷ pattern_args L p left) w o) after 61
            (key_char L k ∷ inner) at (refl, refl, refl)
            (reads_field L (fuel - 2) true k t after inner (pattern_args L p left) w o a.0 (
              reads_pattern p (fuel - 2) u 0 true inner more left w o (omega arith) a.1
                (skip_pattern L p u more a.1)))
          ∙ reads_fields fs (suc (fuel - 2)) t order (32 ∷ more) rest va wrote o (omega arith) a.2
              (skip_space L more ∙ skip_fields L fs t order rest a.2))
    reads_fields (optional k p fs) fuel t order format rest va w o h a at =
        let u = at_key_arg L t k in
        let more = fields_text L fs (125 ∷ 32 ∷ rest) in
        let left = fields_args L fs va in
        let inner = pattern_text L p more in
        let wrote = pattern_writes L p u w in
        let after = state L (32 ∷ more) left wrote o in
        rw (at_least_two L fuel (omega arith)) (
          step_field L (fuel - 2) false t order
            (state L format (key_arg L k ∷ pattern_args L p left) w o) after 63
            (key_char L k ∷ inner) at (refl, refl, refl)
            (reads_field L (fuel - 2) false k t after inner (pattern_args L p left) w o a.0 (
              reads_pattern p (fuel - 2) u 0 true inner more left w o (omega arith) a.1
                (skip_pattern L p u more a.1)))
          ∙ reads_fields fs (suc (fuel - 2)) t order (32 ∷ more) rest va wrote o (omega arith) a.2
              (skip_space L more ∙ skip_fields L fs t order rest a.2))
    reads_fields (absent k c v fs) fuel t order format rest va w o h a at =
        let more = fields_text L fs (125 ∷ 32 ∷ rest) in
        let left = fields_args L fs va in
        let after = state L (32 ∷ more) left w o in
        rw (at_least_two L fuel (omega arith)) (
          step_field L (fuel - 2) false t order
            (state L format (key_arg L k ∷ pointer v ∷ left) w o) after 63
            (key_char L k ∷ c ∷ 32 ∷ more) at (refl, refl, refl)
            (skips_field L (fuel - 2) k t c v more left w o a.0 a.1)
          ∙ reads_fields fs (suc (fuel - 2)) t order (32 ∷ more) rest va w o (omega arith) a.2
              (skip_space L more ∙ skip_fields L fs t order rest a.2))

  pub reads_pattern_lem :
      (p : Pattern L) (fuel : ℕ) (v : L.Val) (index : ℕ) (in_table : Bool) (format rest : List Char)
      (va : List (VaArg L)) (w : List (ℕ × Value L)) (o : Option Bool)
      → pattern_fuel L p ≤ fuel
      → Agrees L p v
      → skip_spaces format ≡ pattern_text L p rest
      → parse_item L fuel v index in_table (state L format (pattern_args L p va) w o)
        ≡ done (state L (32 ∷ rest) va (pattern_writes L p v w) o)
  reads_pattern_lem p fuel v index in_table format rest va w o h a at =
      reads_pattern p fuel v index in_table format rest va w o h a at
