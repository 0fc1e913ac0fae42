-- ===== src/Build/Balance.antt =====
-- The height of the stack across build_a_value of src/api.c, and its loops on fuel: two rounds
-- for a character of the format.
use cereja.Prelude.{
  ℕ, zero, suc, ◌+◌, ◌*◌, ◌≤◌, ◌<◌, ◌≡◌, ◌≢◌, Bool, true, false, List, [], ◌∷◌, length, arith, refl,
  ap,
}
use cereja.Args.Machine.{Lua, Char, skip_spaces}
use cereja.Args.Shrinks.{length-skip_spaces}
use mathlib.Core.Path.{subst}
use Prim.{tt}
use cereja.Build.{
  build_element, build_a_value, build_table, fuel_for, after_value, build_loop, crj_build_values,
}
use cereja.Build.Machine.{
  BuildArg, new_table, Status, success, end_of_format, table_field_prefix, end_of_table, Built,
  done, failed, aborted, fault, out_of_fuel, Run, bind,
}
use cereja.Build.Scalars.{asserted, paired, put_element, put_field}
use cereja.Build.Heights.{height, Balanced, BalancedTable, value_or_table-Balanced}

module _ (L : Lua) where
  paired-BalancedTable :
      (s : Run L) (r : Built L (Status L × Run L)) (m : ℕ)
      → Balanced L s r
      → length s.format ≤ m
      → BalancedTable L m (height L s.calls + 1) (paired L r)
  paired-BalancedTable s (done (success, t)) m (shorter, one) le = (omega (arith, shorter, le), one)
  paired-BalancedTable s (done (end_of_format, t)) m ok le = tt
  paired-BalancedTable s (done (table_field_prefix, t)) m ok le = tt
  paired-BalancedTable s (done (end_of_table, t)) m ok le = tt
  paired-BalancedTable s out_of_fuel m ok le = ok
  paired-BalancedTable s (failed e) m ok le = tt
  paired-BalancedTable s aborted m ok le = tt
  paired-BalancedTable s fault m ok le = tt

  bind-BalancedTable :
      (r : Built L (Run L)) (next : Run L → Built L (Run L)) (m h k : ℕ)
      → BalancedTable L m h r
      → ((t : Run L) → length t.format < m → height L t.calls ≡ h → BalancedTable L m k (next t))
      → BalancedTable L m k (bind L r next)
  bind-BalancedTable (done t) next m h k (shorter, same) ok = ok t shorter same
  bind-BalancedTable out_of_fuel next m h k e ok = e
  bind-BalancedTable _ next m h k e ok = tt

  BalancedTable-more :
      (r : Built L (Run L)) (m n h : ℕ) → m ≤ n → BalancedTable L m h r → BalancedTable L n h r
  BalancedTable-more (done t) m n h le (shorter, same) = (omega (arith, le, shorter), same)
  BalancedTable-more out_of_fuel m n h le e = e
  BalancedTable-more _ m n h le e = tt

  module _ (value : ℕ → Run L → Built L (Status L × Run L)) (loop : ℕ → Run L → Built L (Run L))
      (m : ℕ)
      (value-Balanced : (n : ℕ) (s : Run L) → length s.format ≤ m → Balanced L s (value n s))
      (loop-BalancedTable : (order : ℕ) (s : Run L)
        → length s.format < m
        → BalancedTable L m (height L s.calls) (loop order s)) where
    loop_at :
        (order h : ℕ) (s : Run L)
        → length s.format < m
        → height L s.calls ≡ h
        → BalancedTable L m h (loop order s)
    loop_at order h s le e =
        subst (λ k. BalancedTable L m k (loop order s)) e (loop-BalancedTable order s le)

    field-BalancedTable :
        (order n : ℕ) (s : Run L)
        → length s.format < m
        → BalancedTable L m
            (height L s.calls)
            (build_element L value loop order n table_field_prefix s)
    unfolding build_element
    field-BalancedTable order n s le =
        bind-BalancedTable _ _ m _ _
          (paired-BalancedTable s _ m (value-Balanced n s (omega (arith, le))) (omega (arith, le)))
          (λ t shorter one.
            bind-BalancedTable _ _ m _ _
              (paired-BalancedTable t _ m (value-Balanced (n + 1) t (omega (arith, shorter)))
                (omega (arith, shorter)))
              (λ u less two. loop_at order _ (put_field L u) less (omega (arith, one, two))))

    element-BalancedTable :
        (order n : ℕ) (s : Run L) (r : Built L (Status L × Run L))
        → length s.format ≤ m
        → Balanced L s r
        → BalancedTable L m
            (height L s.calls)
            (bind L (asserted L r) (λ (status, t). build_element L value loop order n status t))
    unfolding build_element
    element-BalancedTable order n s (done (success, t)) le (shorter, one) =
        loop_at (order + 1) _ (put_element L order t) (omega (arith, shorter, le))
          (omega (arith, one))
    element-BalancedTable order n s (done (table_field_prefix, t)) le (shorter, same) =
        subst (λ k. BalancedTable L m k (build_element L value loop order n table_field_prefix t))
          same (field-BalancedTable order n t (omega (arith, shorter, le)))
    element-BalancedTable order n s (done (end_of_table, t)) le (shorter, same) =
        (omega (arith, shorter, le), same)
    element-BalancedTable order n s (done (end_of_format, t)) le ok = tt
    element-BalancedTable order n s out_of_fuel le ok = ok
    element-BalancedTable order n s (failed e) le ok = tt
    element-BalancedTable order n s aborted le ok = tt
    element-BalancedTable order n s fault le ok = tt

  mutual
    unfolding build_a_value build_table

    value-Balanced :
        (fuel : ℕ) (in_table : Bool) (n : ℕ) (s : Run L)
        → 2 * length s.format + 1 ≤ fuel
        → Balanced L s (build_a_value L fuel in_table n s)
    value-Balanced zero in_table n s enough = absurd (omega (arith, enough))
    value-Balanced (suc fuel) in_table n s enough =
        value_or_table-Balanced L (skip_spaces s.format) _ in_table n s
          (length-skip_spaces s.format)
          (λ c rest e.
            table-Balanced fuel 1 n (record s { format = rest; calls = new_table ∷ s.calls })
              (omega (arith, enough, ap length e, length-skip_spaces s.format)))

    table-Balanced :
        (fuel order n : ℕ) (s : Run L)
        → 2 * length s.format + 2 ≤ fuel
        → BalancedTable L (length s.format) (height L s.calls) (build_table L fuel order n s)
    table-Balanced zero order n s enough = absurd (omega (arith, enough))
    table-Balanced (suc fuel) order n s enough =
        element-BalancedTable (build_a_value L fuel true) (λ next t. build_table L fuel next n t)
          (length s.format) (λ k t le. value-Balanced fuel true k t (omega (arith, le, enough)))
          (λ next t less.
            BalancedTable-more _ (length t.format) _ _ (omega (arith, less))
              (table-Balanced fuel next n t (omega (arith, less, enough))))
          order n s (build_a_value L fuel true n s) (omega arith)
          (value-Balanced fuel true n s (omega (arith, enough)))

  -- build_a_value of any format and any arguments ends with the fuel that Crj_BuildValues gives
  -- it. Where it is a success it has left one value more on the stack and has read some of the
  -- format; a prefix of a field and the end of a table leave the stack as it was; the end of the
  -- format leaves no value or one.
  pub build_a_value-Balanced :
      (in_table : Bool) (n : ℕ) (s : Run L)
      → Balanced L s (build_a_value L (fuel_for L s.format) in_table n s)
  build_a_value-Balanced in_table n s =
      value-Balanced (2 * length s.format + 1) in_table n s (omega arith)

  round-Ends :
      (s : Run L) (r : Built L (Status L × Run L)) (loop : Run L → Built L (Run L))
      → Balanced L s r
      → ((t : Run L) → length t.format < length s.format → loop t ≢ out_of_fuel)
      → bind L r (λ (status, t). after_value L loop status t) ≢ out_of_fuel
  unfolding after_value
  round-Ends s (done (success, t)) loop (shorter, one) next = next t shorter
  round-Ends s (done (end_of_format, t)) loop ok next = cc
  round-Ends s (done (table_field_prefix, t)) loop ok next = cc
  round-Ends s (done (end_of_table, t)) loop ok next = cc
  round-Ends s (failed e) loop ok next = cc
  round-Ends s aborted loop ok next = cc
  round-Ends s fault loop ok next = cc
  round-Ends s out_of_fuel loop ok next = absurd ok

  bind_done-ends :
      (r : Built L (Run L)) → r ≢ out_of_fuel → bind L r (λ s. done s.calls) ≢ out_of_fuel
  bind_done-ends (done s) ends = cc
  bind_done-ends (failed e) ends = cc
  bind_done-ends aborted ends = cc
  bind_done-ends fault ends = cc
  bind_done-ends out_of_fuel ends = λ e. ends refl

  loop-Ends :
      (rounds n : ℕ) (s : Run L) → length s.format < rounds → build_loop L rounds n s ≢ out_of_fuel
  unfolding build_loop
  loop-Ends zero n s enough = absurd (omega (arith, enough))
  loop-Ends (suc rounds) n s enough =
      round-Ends s _ (build_loop L rounds (n + 1)) (build_a_value-Balanced false n s)
        (λ t shorter. loop-Ends rounds (n + 1) t (omega (arith, shorter, enough)))

  -- Crj_BuildValues ends on every format, whatever the arguments are, and never wants fuel.
  pub crj_build_values-ends :
      (format : List Char) (va : List (BuildArg L)) → crj_build_values L format va ≢ out_of_fuel
  unfolding crj_build_values
  crj_build_values-ends format va = bind_done-ends _ (
      loop-Ends (length format + 1) 0 (record { format = format; va = va; calls = [] })
        (omega arith))
