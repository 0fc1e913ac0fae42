-- ===== src/Build/Prints/Sizes.antt =====
-- How much of a format a value takes, against the fuel that build_a_value of src/api.c needs for it.
use cereja.Prelude.{ℕ, ◌+◌, ◌*◌, ◌≤◌, List, ◌∷◌, length, arith}
use cereja.Args.Machine.{Lua, Char}
use cereja.Build.Prints.{
  Item, node_text, entries_text, Node, Entries, item, table, closed, element, field, item_text,
  number_item,
}

module _ (L : Lua) where
  length-item_text : (i : Item L) (rest : List Char) → length rest + 1 ≤ length (item_text L i rest)
  length-item_text (number_item _) rest = omega arith
  length-item_text _ rest = omega arith

  abbrev mutual
    pub node_size : Node L → ℕ
    node_size (item i) = 1
    node_size (table es) = 1 + entries_size es

    pub entries_size : Entries L → ℕ
    entries_size closed = 2
    entries_size (element v es) = 1 + node_size v + entries_size es
    entries_size (field k v es) = 2 + node_size k + node_size v + entries_size es

  pub node_size-pos : (v : Node L) → 1 ≤ node_size v
  node_size-pos (item i) = omega arith
  node_size-pos (table es) = omega arith

  mutual
    unfolding node_text

    pub node_size-le :
        (v : Node L) (rest : List Char)
        → node_size v + 2 * length rest + 1 ≤ 2 * length (node_text L v rest)
    node_size-le (item i) rest = omega (arith, length-item_text i (b' ' ∷ rest))
    node_size-le (table es) rest = omega (arith, entries_size-le es (b'}' ∷ b' ' ∷ rest))

    pub entries_size-le :
        (es : Entries L) (rest : List Char)
        → entries_size es + 2 * length rest ≤ 2 * length (entries_text L es rest) + 2
    entries_size-le closed rest = omega arith
    entries_size-le (element v es) rest =
        omega (arith, node_size-le v (entries_text L es rest), entries_size-le es rest)
    entries_size-le (field k v es) rest = omega (
      arith,
      node_size-le k (node_text L v (entries_text L es rest)),
      node_size-le v (entries_text L es rest),
      entries_size-le es rest,
    )
