-- ===== src/Build/Prints/Items.antt =====
-- build_a_value of src/api.c on single items, and the white space between them.
use cereja.Prelude.{
  ℕ, suc, ◌+◌, ◌≤◌, ◌≡◌, Bool, true, some, List, [], ◌∷◌, ◌++◌, length, ◌==◌, arith, refl, inl, inr,
  Bool-cases, le→leb,
}
use Prim.{⊥}
use cereja.Prelude.Int.{pos, negsuc, ◌-ℤ◌}
use cereja.Args.Machine.{Lua, Char, skip_spaces, is_space}
use cereja.Build.{value_or_table}
use cereja.Build.Machine.{BuildArg, Call, success, Built, done, Run}
use cereja.Build.Scalars.{
  c_string, shifted, build_scalar, build_simple, build_string, string_item, build_bytes,
  push_c_string, push_call, argument_call, is_simple_item,
}
use cereja.Build.Prints.{
  has_no_nul, Item, node_text, Node, item, table, item_text, item_args, item_call, number_item,
  text_item, bytes_item, slot_item, below_top_item,
}

module _ (L : Lua) where
  head_no_nul : (c : Char) (cs : List Char) → has_no_nul (c ∷ cs) ≡ true → (c == 0) ≡ true → ⊥
  head_no_nul c cs e z = ground arith

  tail_has_no_nul : (c : Char) (cs : List Char) → has_no_nul (c ∷ cs) ≡ true → has_no_nul cs ≡ true
  tail_has_no_nul c cs e = ground arith

  c_string-append :
      (string : List Char)
      → has_no_nul string ≡ true
      → c_string L (string ++ (0 ∷ [])) ≡ some string
  unfolding c_string
  c_string-append [] e = refl
  c_string-append (c ∷ cs) e = elim (Bool-cases (c == 0)) [
    | inl zero_char ↦ absurd (head_no_nul c cs e zero_char)
    | inr char ↦ rw (char, c_string-append cs (tail_has_no_nul c cs e)) refl
  ]

  shifted-below : (k n : ℕ) → suc k ≤ 9999 → shifted L (negsuc k) n ≡ negsuc (k + n)
  unfolding shifted ◌-ℤ◌
  shifted-below k n le = ground arith

  shifted-slot : (k n : ℕ) → shifted L (pos k) n ≡ pos k
  unfolding shifted
  shifted-slot k n = ground arith

  abbrev pub at : List Char → List (BuildArg L) → List (Call L) → Run L
  at format va calls = record { format = format; va = va; calls = calls }

  pub item-reads :
      (to_table : List Char → Built L (Run L)) (in_table : Bool) (i : Item L) (n : ℕ)
      (f rest : List Char) (va : List (BuildArg L)) (calls : List (Call L))
      → value_or_table L
          (item_text L i (b' ' ∷ rest))
          to_table
          in_table
          n
          (at f (item_args L i va) calls)
        ≡ done (success, at (b' ' ∷ rest) va (item_call L i n ∷ calls))
  unfolding value_or_table build_scalar build_simple build_string string_item build_bytes
      push_c_string push_call argument_call is_simple_item
  item-reads to_table in_table (text_item string e) n f rest va calls =
      rw (c_string-append string e) refl
  item-reads to_table in_table (bytes_item memory m le) n f rest va calls =
      rw (le→leb m (length memory) le) refl
  item-reads to_table in_table (below_top_item k le) n f rest va calls =
      rw (shifted-below k n le) refl
  item-reads to_table in_table (slot_item k) n f rest va calls = rw (shifted-slot k n) refl
  item-reads to_table in_table _ n f rest va calls = refl

  -- What an item or a table leaves of the format that goes on with `rest`.
  abbrev pub left : Node L → List Char → List Char
  left (item i) rest = b' ' ∷ rest
  left (table es) rest = rest

  pub skip_spaces-left :
      (v : Node L) (rest : List Char) → skip_spaces (left v rest) ≡ skip_spaces rest
  unfolding skip_spaces is_space
  skip_spaces-left (item i) rest = refl
  skip_spaces-left (table es) rest = refl

  -- No item begins with white space.
  skip_spaces-item :
      (i : Item L) (rest : List Char) → skip_spaces (item_text L i rest) ≡ item_text L i rest
  unfolding skip_spaces is_space
  skip_spaces-item (number_item _) rest = refl
  skip_spaces-item _ rest = refl

  pub skip_spaces-node :
      (v : Node L) (rest : List Char) → skip_spaces (node_text L v rest) ≡ node_text L v rest
  unfolding skip_spaces is_space node_text
  skip_spaces-node (item i) rest = skip_spaces-item i (b' ' ∷ rest)
  skip_spaces-node (table es) rest = refl
