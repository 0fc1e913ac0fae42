-- ===== src/Args/Patterns/Sizes.antt =====
-- The fuel that reading a nested format takes, by its length.
use cereja.Prelude.{◌+◌, ◌*◌, ◌≤◌, List, ◌∷◌, length, arith}
use cereja.Args.Machine.{Lua, Char}
use cereja.Args.Patterns.{
  Pattern, leaf, table, Fields, closed, element, required, optional, absent, pattern_text,
  fields_text, pattern_fuel, fields_fuel,
}

module _ (L : Lua) where
  mutual
    unfolding pattern_text fields_text pattern_fuel fields_fuel

    size_pattern :
        (p : Pattern L) (rest : List Char)
        → pattern_fuel L p + 3 * length rest + 2 ≤ 3 * length (pattern_text L p rest)
    size_pattern (leaf c p) rest = omega arith
    size_pattern (table fs) rest = omega (arith, size_fields fs (125 ∷ 32 ∷ rest))

    size_fields :
        (fs : Fields L) (rest : List Char)
        → fields_fuel L fs + 3 * length rest ≤ 3 * length (fields_text L fs rest) + 1
    size_fields closed rest = omega arith
    size_fields (element p fs) rest =
        omega (arith, size_pattern p (fields_text L fs rest), size_fields fs rest)
    size_fields (required k p fs) rest =
        omega (arith, size_pattern p (fields_text L fs rest), size_fields fs rest)
    size_fields (optional k p fs) rest =
        omega (arith, size_pattern p (fields_text L fs rest), size_fields fs rest)
    size_fields (absent k c v fs) rest = omega (arith, size_fields fs rest)

  pub pattern_fuel-le :
      (p : Pattern L) (rest : List Char) → pattern_fuel L p ≤ 3 * length (pattern_text L p rest)
  pattern_fuel-le p rest = omega (arith, size_pattern p rest)
