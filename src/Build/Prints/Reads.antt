-- ===== src/Build/Prints/Reads.antt =====
-- Crj_BuildValues of src/api.c on the formats that are printed for values.
use cereja.Prelude.{
  ℕ, zero, suc, ◌+◌, ◌≤◌, ◌<◌, ◌≡◌, Bool, true, false, List, [], ◌∷◌, length, arith, refl, ap, ◌∙◌,
}
use cereja.Args.Machine.{Lua, Char, skip_spaces, is_space}
use cereja.Args.Shrinks.{length-skip_spaces}
use cereja.Build.{
  build_a_value, build_table, build_loop, crj_build_values, fuel_for, value_or_table, build_element,
  after_value,
}
use cereja.Build.Machine.{
  BuildArg, Call, success, end_of_format, done, Run, bind, swap_top, push_integer, set_table,
  new_table, table_field_prefix,
}
use cereja.Build.Scalars.{build_scalar, is_simple_item, put_field, after_table, behind_table}
use cereja.Build.Prints.{
  node_text, entries_text, node_args, entries_args, node_calls, entries_calls, item_call, Node,
  Entries, item, table, closed, element, field, values_text, values_args, values_calls,
}
use cereja.Build.Prints.Items.{at, item-reads, left, skip_spaces-left, skip_spaces-node}
use cereja.Build.Prints.Sizes.{
  node_size, entries_size, node_size-pos, node_size-le, entries_size-le,
}

module _ (L : Lua) where
  -- build_a_value, once the white space is skipped.
  build_a_value-at :
      (fuel : ℕ) (in_table : Bool) (n : ℕ) (f cs : List Char) (va : List (BuildArg L))
      (calls : List (Call L))
      → skip_spaces f ≡ cs
      → build_a_value L (suc fuel) in_table n (at L f va calls)
        ≡ value_or_table L cs
            (λ rest. build_table L fuel 1 n (at L rest va (new_table ∷ calls)))
            in_table
            n
            (at L f va calls)
  unfolding build_a_value
  build_a_value-at fuel in_table n f cs va calls e =
      ap
        (λ x.
          value_or_table L x (λ rest. build_table L fuel 1 n (at L rest va (new_table ∷ calls)))
            in_table n (at L f va calls))
        e

  table_field :
      (fuel order n : ℕ) (s t u w : Run L)
      → build_a_value L fuel true n s ≡ done (table_field_prefix, t)
      → build_a_value L fuel true n t ≡ done (success, u)
      → build_a_value L fuel true (n + 1) u ≡ done (success, w)
      → build_table L (suc fuel) order n s ≡ build_table L fuel order n (put_field L w)
  unfolding build_table build_element
  table_field fuel order n s t u w prefix key value = rw (prefix, key, value) refl

  mutual
    unfolding node_text node_args node_calls build_table build_element value_or_table build_scalar
        is_simple_item after_table behind_table

    node-reads :
        (v : Node L) (fuel : ℕ) (in_table : Bool) (n pushed tables : ℕ) (f rest : List Char)
        (va : List (BuildArg L)) (calls : List (Call L))
        → pushed ≡ n + tables
        → skip_spaces f ≡ skip_spaces (node_text L v rest)
        → node_size L v ≤ fuel
        → build_a_value L fuel in_table n (at L f (node_args L v va) calls)
          ≡ done (success, at L (left L v rest) va (node_calls L v pushed tables calls))
    node-reads (item i) zero in_table n pushed tables f rest va calls h e enough =
        absurd (omega (arith, enough))
    node-reads (table es) zero in_table n pushed tables f rest va calls h e enough =
        absurd (omega (arith, enough))
    node-reads (item i) (suc fuel) in_table n pushed tables f rest va calls h e enough =
        build_a_value-at fuel in_table n f _ _ calls (e ∙ skip_spaces-node L (item i) rest)
        ∙ item-reads L _ in_table i n f rest va calls
        ∙ ap (λ k. done (success, at L (b' ' ∷ rest) va (item_call L i k ∷ calls)))
            (omega (arith, h))
    node-reads (table es) (suc fuel) in_table n pushed tables f rest va calls h e enough =
        build_a_value-at fuel in_table n f _ _ calls (e ∙ skip_spaces-node L (table es) rest)
        ∙ ap (λ r. bind L r (after_table L))
            (entries-reads es fuel 1 n (pushed + 1) (tables + 1)
              (entries_text L es (b'}' ∷ b' ' ∷ rest)) (b' ' ∷ rest) va (new_table ∷ calls)
              (omega (arith, h)) refl (omega (arith, enough)))

    entries-reads :
        (es : Entries L) (fuel order n pushed tables : ℕ) (f rest : List Char)
        (va : List (BuildArg L)) (calls : List (Call L))
        → pushed ≡ n + tables
        → skip_spaces f ≡ skip_spaces (entries_text L es (b'}' ∷ rest))
        → entries_size L es ≤ fuel
        → build_table L fuel order n (at L f (entries_args L es va) calls)
          ≡ done (at L rest va (entries_calls L es order pushed tables calls))
    entries-reads closed zero order n pushed tables f rest va calls h e enough =
        absurd (omega (arith, enough))
    entries-reads closed (suc zero) order n pushed tables f rest va calls h e enough =
        absurd (omega (arith, enough))
    entries-reads closed (suc (suc fuel)) order n pushed tables f rest va calls h e enough =
        rw (build_a_value-at fuel true n f (b'}' ∷ rest) va calls e) refl
    entries-reads (element v es) zero order n pushed tables f rest va calls h e enough =
        absurd (omega (arith, enough))
    entries-reads (element v es) (suc fuel) order n pushed tables f rest va calls h e enough =
        rw
          (node-reads v fuel true n pushed tables f (entries_text L es (b'}' ∷ rest))
            (entries_args L es va) calls h e (omega (arith, enough)))
          (entries-reads es fuel (order + 1) n pushed tables
            (left L v (entries_text L es (b'}' ∷ rest))) rest va
            (set_table ∷ swap_top ∷ push_integer order ∷ node_calls L v pushed tables calls) h
            (skip_spaces-left L v (entries_text L es (b'}' ∷ rest))) (omega (arith, enough)))
    entries-reads (field k v es) zero order n pushed tables f rest va calls h e enough =
        absurd (omega (arith, enough))
    entries-reads (field k v es) (suc zero) order n pushed tables f rest va calls h e enough =
        absurd (omega (arith, enough))
    entries-reads (field k v es) (suc (suc fuel)) order n pushed tables f rest va calls h e enough =
        let entries = entries_text L es (b'}' ∷ rest) in
        let after_key = node_calls L k pushed tables calls in
        table_field (suc fuel) order n
          (at L f (node_args L k (node_args L v (entries_args L es va))) calls) _ _ _
          (build_a_value-at fuel true n f (b'=' ∷ node_text L k (node_text L v entries))
            (node_args L k (node_args L v (entries_args L es va))) calls e)
          (node-reads k (suc fuel) true n pushed tables (node_text L k (node_text L v entries))
            (node_text L v entries) (node_args L v (entries_args L es va)) calls h refl
            (omega (arith, enough)))
          (node-reads v (suc fuel) true (n + 1) (pushed + 1) tables
            (left L k (node_text L v entries)) entries (entries_args L es va) after_key
            (omega (arith, h)) (skip_spaces-left L k (node_text L v entries))
            (omega (arith, enough)))
        ∙ entries-reads es (suc fuel) order n pushed tables (left L v entries) rest va
            (set_table ∷ node_calls L v (pushed + 1) tables after_key) h
            (skip_spaces-left L v entries) (omega (arith, enough))

  build_a_value-end :
      (fuel : ℕ) (in_table : Bool) (n : ℕ) (s : Run L)
      → 1 ≤ fuel
      → skip_spaces s.format ≡ []
      → build_a_value L fuel in_table n s ≡ done (end_of_format, s)
  unfolding build_a_value value_or_table
  build_a_value-end zero in_table n s enough e = absurd (omega (arith, enough))
  build_a_value-end (suc fuel) in_table n s enough e = rw e refl

  -- The whole format is enough fuel for its first value.
  fuel_for-enough :
      (v : Node L) (f rest : List Char)
      → skip_spaces f ≡ skip_spaces (node_text L v rest)
      → node_size L v ≤ fuel_for L f
  fuel_for-enough v f rest e = omega (
    arith,
    node_size-le L v rest,
    length-skip_spaces f,
    ap length e,
    ap length (skip_spaces-node L v rest),
  )

  length-values : (vs : List (Node L)) → length vs ≤ length (values_text L vs)
  unfolding values_text
  length-values [] = omega arith
  length-values (v ∷ vs) =
      omega (arith, length-values vs, node_size-le L v (values_text L vs), node_size-pos L v)

  loop-reads :
      (vs : List (Node L)) (rounds n : ℕ) (f : List Char) (calls : List (Call L))
      → skip_spaces f ≡ skip_spaces (values_text L vs)
      → length vs < rounds
      → bind L (build_loop L rounds n (at L f (values_args L vs) calls)) (λ s. done s.calls)
        ≡ done (values_calls L vs n calls)
  unfolding build_loop values_text values_args values_calls after_value
  loop-reads vs zero n f calls e enough = absurd (omega (arith, enough))
  loop-reads [] (suc rounds) n f calls e enough =
      rw (build_a_value-end (fuel_for L f) false n (at L f [] calls) (omega arith) e) refl
  loop-reads (v ∷ vs) (suc rounds) n f calls e enough =
      rw
        (node-reads v (fuel_for L f) false n n 0 f (values_text L vs) (values_args L vs) calls
          (omega arith) e (fuel_for-enough v f (values_text L vs) e))
        (loop-reads vs rounds (n + 1) (left L v (values_text L vs)) (node_calls L v n 0 calls)
          (skip_spaces-left L v (values_text L vs)) (omega (arith, enough)))

  -- Crj_BuildValues of the printed format of any values, which may be tables in tables with
  -- elements and fields, each value with a space behind it, takes their arguments and makes just
  -- their calls of Lua, in order: each element is set under the next number, each field under its
  -- key, and an index from the top is moved by the values on the stack by then, keys included,
  -- less the tables that are being built, which the code does not count.
  pub crj_build_values-reads :
      (vs : List (Node L))
      → crj_build_values L (values_text L vs) (values_args L vs) ≡ done (values_calls L vs 0 [])
  unfolding crj_build_values
  crj_build_values-reads vs =
      loop-reads vs (length (values_text L vs) + 1) 0 (values_text L vs) [] refl
        (omega (arith, length-values vs))

  -- A table before the character `c`, at the start of a format.
  abbrev table_before : Entries L → Char → List Char
  table_before es c = b'{' ∷ entries_text L es (b'}' ∷ c ∷ [])

  table-reads :
      (es : Entries L) (fuel n : ℕ) (c : Char)
      → suc (entries_size L es) ≤ fuel
      → build_a_value L fuel false n (at L (table_before es c) (entries_args L es []) [])
        ≡ done (success, at L [] [] (entries_calls L es 1 (n + 1) 1 (new_table ∷ [])))
  unfolding after_table behind_table value_or_table skip_spaces is_space
  table-reads es zero n c enough = absurd (omega (arith, enough))
  table-reads es (suc fuel) n c enough =
      build_a_value-at fuel false n (table_before es c) (table_before es c) (entries_args L es [])
        [] refl
      ∙ ap (λ r. bind L r (after_table L))
          (entries-reads es fuel 1 n (n + 1) 1 (entries_text L es (b'}' ∷ c ∷ [])) (c ∷ []) []
            (new_table ∷ []) (omega arith) refl (omega (arith, enough)))

  table_loop :
      (es : Entries L) (rounds : ℕ) (c : Char)
      → 2 ≤ rounds
      → bind L
          (build_loop L rounds 0 (at L (table_before es c) (entries_args L es []) []))
          (λ s. done s.calls)
        ≡ done (entries_calls L es 1 1 1 (new_table ∷ []))
  unfolding build_loop after_value skip_spaces
  table_loop es zero c enough = absurd (omega (arith, enough))
  table_loop es (suc zero) c enough = absurd (omega (arith, enough))
  table_loop es (suc (suc rounds)) c enough =
      rw
        (table-reads es (fuel_for L (table_before es c)) 0 c
          (omega (arith, entries_size-le L es (b'}' ∷ c ∷ []))))
        refl

  -- A character directly behind the `}` of a table, at the end of the format, is not read,
  -- whatever it is: Crj_BuildValues makes the calls of the table and no other, and takes no
  -- argument for it.
  pub crj_build_values-skips :
      (es : Entries L) (c : Char)
      → crj_build_values L (b'{' ∷ entries_text L es (b'}' ∷ c ∷ [])) (entries_args L es [])
        ≡ done (entries_calls L es 1 1 1 (new_table ∷ []))
  unfolding crj_build_values
  crj_build_values-skips es c =
      table_loop es (length (table_before es c) + 1) c
        (omega (arith, entries_size-le L es (b'}' ∷ c ∷ [])))
