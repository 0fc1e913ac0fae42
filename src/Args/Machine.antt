-- ===== src/Args/Machine.antt =====
-- What src/api.c uses of Lua 5.1, and the state of a run over a format: its characters that are left,
-- the variable arguments that are left, and the variables written.
use cereja.Prelude.{ℕ, Bool, ◌||◌, Option, List, [], ◌∷◌, ◌++◌, ◌==◌, if◌then◌else◌}
use cereja.Prelude.Int.{ℤ}

abbrev pub Char : Type 0
Char = ℕ

-- Lua's values and the functions that read them. `Num` is lua_Number.
pub record Lua : Type 1 where
  pub Val : Type 0
  pub Num : Type 0
  pub of_int : ℤ → Num
  pub type_of : Val → ℕ
  pub is_string : Val → Bool
  pub to_boolean : Val → Bool
  pub get_text : Val → List Char → Val
  pub get_num : Val → Num → Val

abbrev pub lua_tnil : ℕ
lua_tnil = 0

abbrev pub lua_tboolean : ℕ
lua_tboolean = 1

abbrev pub lua_tlightuserdata : ℕ
lua_tlightuserdata = 2

abbrev pub lua_tnumber : ℕ
lua_tnumber = 3

abbrev pub lua_tstring : ℕ
lua_tstring = 4

abbrev pub lua_ttable : ℕ
lua_ttable = 5

abbrev pub lua_tfunction : ℕ
lua_tfunction = 6

abbrev pub lua_tuserdata : ℕ
lua_tuserdata = 7

abbrev pub lua_tthread : ℕ
lua_tthread = 8

-- WHITESPACES of src/api.c
unfoldable pub is_space : Char → Bool
is_space c = c == 32 || c == 12 || c == 10 || c == 13 || c == 9

-- STRSKIP(format, WHITESPACES)
unfoldable pub skip_spaces : List Char → List Char
unfolding is_space
skip_spaces [] = []
skip_spaces (c ∷ cs) = let rest = skip_spaces cs in if is_space c then rest else c ∷ cs

module _ (L : Lua) where
  -- A variable argument: the address of a variable, or a key.
  pub data VaArg : Type 0 where
    pointer : ℕ → VaArg
    chars : List Char → VaArg
    number : L.Num → VaArg
    int : ℤ → VaArg

  pub data Key : Type 0 where
    text : List Char → Key
    num : L.Num → Key

  -- What is stored in a variable: the number of a Lua value as the C type of an item, its string or
  -- that string's length, NULL or 0 for none, a Boolean, the address of a userdata, or an index.
  pub data Value : Type 0 where
    number_of : (kind : Char) → L.Val → Value
    string_of : L.Val → Value
    null : Value
    length_of : L.Val → Value
    no_length : Value
    boolean : Bool → Value
    userdata_of : L.Val → Value
    stack_index : ℕ → Value

  pub data Error : Type 0 where
    invalid_item : Char → Error
    type_mismatch : (expected got : ℕ) → Error
    no_string : (got : ℕ) → Error
    object_in_table : Error
    invalid_type : Char → Error
    bar_in_table : Error
    not_terminated : Error
    invalid_key : Char → Error
    key_not_found : Key → Error
    at_order : (order : ℕ) → (near : List Char) → Error → Error
    at_key : Key → Error → Error
    bad_argument : (index : ℕ) → Error → Error
    extra_arguments : ℕ → Error
    lacked_arguments : List Char → Error
    extra_items : Error

  -- `fault` is undefined behaviour of the C code: a variable argument that is not there or is of another
  -- type, or the NULL that Crj_ParseTable gives for `p_optionalp`.
  pub data Parsed {ℓ} (A : Type ℓ) : Type ℓ where
    done : A → Parsed A
    raised : Error → Parsed A
    fault : Parsed A
    out_of_fuel : Parsed A

  -- `optional` is what `p_optionalp` points to; `none` is NULL.
  pub record Args : Type 0 where
    pub format : List Char
    pub va : List VaArg
    pub written : List (ℕ × Value)
    pub optional : Option Bool

  unfoldable pub get_table : L.Val → Key → L.Val
  get_table t (text k) = L.get_text t k
  get_table t (num k) = L.get_num t k

  abbrev pub in_error {ℓ} : {A : Type ℓ} → (Error → Error) → Parsed A → Parsed A
  in_error f (done a) = done a
  in_error f (raised e) = raised (f e)
  in_error f fault = fault
  in_error f out_of_fuel = out_of_fuel

  abbrev pub bind {ℓ ℓ'} : {A : Type ℓ} {B : Type ℓ'} → Parsed A → (A → Parsed B) → Parsed B
  bind (done a) k = k a
  bind (raised e) k = raised e
  bind fault k = fault
  bind out_of_fuel k = out_of_fuel

  -- `*va_arg(va, T*) = value`
  unfoldable pub write_next : Value → Args → Parsed Args
  write_next v s = elim s.va [
    | [] ↦ fault
    | a ∷ va ↦ elim a [
      | pointer p ↦ done (record s { va = va; written = s.written ++ (p, v) ∷ [] })
      | _ ↦ fault
    ]
  ]
