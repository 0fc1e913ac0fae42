-- ===== src/Build/Prints.antt =====
-- The formats that Crj_BuildValues of src/api.c is given, as values in tables in tables, and the calls
-- of Lua that each of them stands for.
pub mod Items
pub mod Sizes
pub mod Reads
use cereja.Prelude.{
  ℕ, zero, suc, ◌+◌, ◌-◌, ◌*◌, ◌≤◌, ◌≡◌, Bool, true, false, not, ◌&&◌, List, [], ◌∷◌, ◌++◌, length,
  take, leb, ltb, ◌==◌, if◌then◌else◌, arith,
}
use cereja.Prelude.Int.{ℤ, pos, negsuc}
use cereja.Args.Machine.{Lua, Char}
use cereja.Build.Machine.{
  BuildArg, double, int, unsigned, long, unsigned_long, chars, size, address, function, Call,
  push_number, push_integer, push_string, push_boolean, push_lightuserdata, push_function,
  push_value, new_table, swap_top, set_table,
}
use cereja.Build.Scalars.{truth}

abbrev pub has_no_nul : List Char → Bool
has_no_nul [] = true
has_no_nul (c ∷ cs) = not (c == 0) && has_no_nul cs

module _ (L : Lua) where
  -- An item with its arguments. An index from the top is given by how far below the top it is, and is
  -- no pseudo index.
  pub data Item : Type 0 where
    number_item : L.Num → Item
    char_item : ℤ → Item
    unsigned_char_item : ℤ → Item
    short_item : ℤ → Item
    unsigned_short_item : ℤ → Item
    int_item : ℤ → Item
    unsigned_item : ℕ → Item
    long_item : ℤ → Item
    unsigned_long_item : ℕ → Item
    text_item : (string : List Char) → has_no_nul string ≡ true → Item
    bytes_item : (memory : List Char) (n : ℕ) → n ≤ length memory → Item
    boolean_item : ℤ → Item
    pointer_item : ℕ → Item
    function_item : ℕ → Item
    slot_item : ℕ → Item
    below_top_item : (k : ℕ) → suc k ≤ 9999 → Item

  abbrev pub item_text : Item → List Char → List Char
  item_text (number_item n) rest = b'n' ∷ rest
  item_text (char_item z) rest = b'b' ∷ rest
  item_text (unsigned_char_item z) rest = b'B' ∷ rest
  item_text (short_item z) rest = b'h' ∷ rest
  item_text (unsigned_short_item z) rest = b'H' ∷ rest
  item_text (int_item z) rest = b'i' ∷ rest
  item_text (unsigned_item n) rest = b'I' ∷ rest
  item_text (long_item z) rest = b'l' ∷ rest
  item_text (unsigned_long_item n) rest = b'L' ∷ rest
  item_text (text_item string e) rest = b's' ∷ rest
  item_text (bytes_item memory n le) rest = b's' ∷ b'#' ∷ rest
  item_text (boolean_item z) rest = b'Q' ∷ rest
  item_text (pointer_item p) rest = b'u' ∷ rest
  item_text (function_item f) rest = b'F' ∷ rest
  item_text (slot_item k) rest = b'O' ∷ rest
  item_text (below_top_item k le) rest = b'O' ∷ rest

  abbrev pub item_args : Item → List (BuildArg L) → List (BuildArg L)
  item_args (number_item n) va = double n ∷ va
  item_args (char_item z) va = int z ∷ va
  item_args (unsigned_char_item z) va = int z ∷ va
  item_args (short_item z) va = int z ∷ va
  item_args (unsigned_short_item z) va = int z ∷ va
  item_args (int_item z) va = int z ∷ va
  item_args (unsigned_item n) va = unsigned n ∷ va
  item_args (long_item z) va = long z ∷ va
  item_args (unsigned_long_item n) va = unsigned_long n ∷ va
  item_args (text_item string e) va = chars (string ++ (0 ∷ [])) ∷ va
  item_args (bytes_item memory n le) va = chars memory ∷ size n ∷ va
  item_args (boolean_item z) va = int z ∷ va
  item_args (pointer_item p) va = address p ∷ va
  item_args (function_item f) va = function f ∷ va
  item_args (slot_item k) va = int (pos k) ∷ va
  item_args (below_top_item k le) va = int (negsuc k) ∷ va

  -- The call for an item whose index from the top is moved by `n`.
  abbrev pub item_call : Item → (n : ℕ) → Call L
  item_call (number_item x) n = push_number x
  item_call (char_item z) n = push_number (L.of_int z)
  item_call (unsigned_char_item z) n = push_number (L.of_int z)
  item_call (short_item z) n = push_number (L.of_int z)
  item_call (unsigned_short_item z) n = push_number (L.of_int z)
  item_call (int_item z) n = push_number (L.of_int z)
  item_call (unsigned_item m) n = push_number (L.of_int (pos m))
  item_call (long_item z) n = push_number (L.of_int z)
  item_call (unsigned_long_item m) n = push_number (L.of_int (pos m))
  item_call (text_item string e) n = push_string string
  item_call (bytes_item memory m le) n = push_string (take m memory)
  item_call (boolean_item z) n = push_boolean (truth L z)
  item_call (pointer_item p) n = push_lightuserdata p
  item_call (function_item f) n = push_function f
  item_call (slot_item k) n = push_value (pos k)
  item_call (below_top_item k le) n = push_value (negsuc (k + n))

  mutual
    pub data Node : Type 0 where
      item : Item → Node
      table : Entries → Node

    -- What stands in a table: elements, and fields with a key.
    pub data Entries : Type 0 where
      closed : Entries
      element : Node → Entries → Entries
      field : (key value : Node) → Entries → Entries

  -- The format of a value, with a space behind it, before `rest`.
  mutual
    pub node_text : Node → List Char → List Char
    node_text (item i) rest = item_text i (b' ' ∷ rest)
    node_text (table es) rest = b'{' ∷ entries_text es (b'}' ∷ b' ' ∷ rest)

    pub entries_text : Entries → List Char → List Char
    entries_text closed rest = rest
    entries_text (element v es) rest = node_text v (entries_text es rest)
    entries_text (field k v es) rest = b'=' ∷ node_text k (node_text v (entries_text es rest))

  mutual
    pub node_args : Node → List (BuildArg L) → List (BuildArg L)
    node_args (item i) va = item_args i va
    node_args (table es) va = entries_args es va

    pub entries_args : Entries → List (BuildArg L) → List (BuildArg L)
    entries_args closed va = va
    entries_args (element v es) va = node_args v (entries_args es va)
    entries_args (field k v es) va = node_args k (node_args v (entries_args es va))

  -- The calls for a value, put before the log `calls`, where `pushed` values are on the stack by now and
  -- `tables` of them are tables that are being built. The slot `k` below the top of before is `k + pushed`
  -- below it by now, but the tables are not counted.
  mutual
    pub node_calls : Node → (pushed tables : ℕ) → List (Call L) → List (Call L)
    node_calls (item i) pushed tables calls = item_call i (pushed - tables) ∷ calls
    node_calls (table es) pushed tables calls =
        entries_calls es 1 (pushed + 1) (tables + 1) (new_table ∷ calls)

    pub entries_calls : Entries → (order pushed tables : ℕ) → List (Call L) → List (Call L)
    entries_calls closed order pushed tables calls = calls
    entries_calls (element v es) order pushed tables calls =
        entries_calls es (order + 1) pushed tables
          (set_table ∷ swap_top ∷ push_integer order ∷ node_calls v pushed tables calls)
    entries_calls (field k v es) order pushed tables calls =
        entries_calls es order pushed tables
          (set_table ∷ node_calls v (pushed + 1) tables (node_calls k pushed tables calls))

  pub values_text : List Node → List Char
  unfolding node_text
  values_text [] = []
  values_text (v ∷ vs) = node_text v (values_text vs)

  pub values_args : List Node → List (BuildArg L)
  unfolding node_args
  values_args [] = []
  values_args (v ∷ vs) = node_args v (values_args vs)

  pub values_calls : List Node → (pushed : ℕ) → List (Call L) → List (Call L)
  unfolding node_calls
  values_calls [] pushed calls = calls
  values_calls (v ∷ vs) pushed calls = values_calls vs (pushed + 1) (node_calls v pushed 0 calls)
