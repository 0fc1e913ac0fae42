-- ===== src/Build/Machine.antt =====
-- What Crj_BuildValues of src/api.c uses of Lua: the calls, which are kept in a log, and the state of a
-- run over a format: its characters and the variable arguments that are left.
use cereja.Prelude.{ℕ, Bool, List, ◌∷◌}
use cereja.Prelude.Int.{ℤ}
use cereja.Args.Machine.{Lua, Char}

module _ (L : Lua) where
  -- A variable argument, by its C type. `chars` is the memory that a pointer points to.
  pub data BuildArg : Type 0 where
    double : L.Num → BuildArg
    int : ℤ → BuildArg
    unsigned : ℕ → BuildArg
    long : ℤ → BuildArg
    unsigned_long : ℕ → BuildArg
    chars : List Char → BuildArg
    size : ℕ → BuildArg
    address : ℕ → BuildArg
    function : ℕ → BuildArg

  -- The calls of Lua, named after its functions: lua_insert(L, -2) and lua_settable(L, -3) have no
  -- other arguments here.
  pub data Call : Type 0 where
    push_number : L.Num → Call
    push_integer : ℕ → Call
    push_string : List Char → Call
    push_boolean : Bool → Call
    push_lightuserdata : ℕ → Call
    push_function : ℕ → Call
    push_value : (index : ℤ) → Call
    new_table : Call
    swap_top : Call
    set_table : Call

  pub data Status : Type 0 where
    success : Status
    end_of_format : Status
    table_field_prefix : Status
    end_of_table : Status

  pub data BuildError : Type 0 where
    bad_item : Char → BuildError
    unmatched_field : BuildError
    table_not_terminated : BuildError

  -- `aborted` is a failed assertion, `fault` undefined behaviour: a variable argument that is not
  -- there or is of another type, or a read outside a string.
  pub data Built {ℓ} (A : Type ℓ) : Type ℓ where
    done : A → Built A
    failed : BuildError → Built A
    aborted : Built A
    fault : Built A
    out_of_fuel : Built A

  pub record Run : Type 0 where
    pub format : List Char
    pub va : List BuildArg
    pub calls : List Call

  abbrev pub bind {ℓ κ} : {A : Type ℓ} {B : Type κ} → Built A → (A → Built B) → Built B
  bind (done a) f = f a
  bind (failed e) f = failed e
  bind aborted f = aborted
  bind fault f = fault
  bind out_of_fuel f = out_of_fuel

  -- One call more, and these variable arguments left.
  abbrev pub pushed : Call → List BuildArg → Run → Built (Status × Run)
  pushed call va s = done (success, record s { va = va; calls = call ∷ s.calls })
