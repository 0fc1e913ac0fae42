-- ===== src/Calls.antt =====
-- `Crj_PCall`, `Crj_Call` and `Crj_CPCall` of src/api.c: a function is called with a handler that adds a
-- traceback to its error. Lua's functions are parameters.
pub mod Lists
pub mod Stack
use cereja.Prelude.{
  ℕ, zero, suc, ◌+◌, ◌-◌, Bool, true, false, Option, none, some, ◌>>=◌, List, [], ◌∷◌, ◌++◌, length,
  take, drop, ◌==◌, if◌then◌else◌,
}

-- The functions on the stack that Crj_PCall calls. The top of the stack is the head of the list; `none` is
-- undefined behaviour. `insert n` is lua_insert(L, -n), `remove index` is lua_remove of an index that
-- counts from 1 at the bottom, and `pcall nargs nresults index` is lua_pcall with the handler at an
-- index: its result, 0 where there is no error, and the stack.
pub record LuaStack (A : Type 0) : Type 0 where
  pub insert : (n : ℕ) → List A → Option (List A)
  pub remove : (index : ℕ) → List A → Option (List A)
  pub pcall : (nargs nresults handler_index : ℕ) → List A → Option (ℕ × List A)

-- ABSOLUTE_INDEX of the index -n.
abbrev pub absolute_index : {A : Type 0} → (n : ℕ) → List A → ℕ
absolute_index n st = length st + 1 - n

module _ {A : Type 0} (L : LuaStack A) (traceback_handler : A) where
  pub crj_pcall : (nargs nresults : ℕ) → List A → Option (ℕ × List A)
  crj_pcall nargs nresults st = L.insert (1 + nargs + 1) (traceback_handler ∷ st) >>= λ inserted.
      let handler_index = absolute_index (1 + nargs + 1) inserted in
      L.pcall nargs nresults handler_index inserted >>= λ (result, after).
      L.remove handler_index after >>= λ removed. some (result, removed)

-- The end of a call of Lua: it returns, or raises the error on the top of the stack.
pub data Outcome (A : Type 0) : Type 0 where
  returned : List A → Outcome A
  raised : List A → Outcome A

module _ {A : Type 0} (L : LuaStack A) (traceback_handler : A) where
  pub crj_call : (nargs nresults : ℕ) → List A → Option (Outcome A)
  unfolding crj_pcall
  crj_call nargs nresults st =
      crj_pcall L traceback_handler nargs nresults st >>= λ (result, after).
      some (if result == 0 then returned after else raised after)

  -- `func` and `ud` as Lua values.
  pub crj_cpcall : (func ud : A) → List A → Option (ℕ × List A)
  unfolding crj_pcall
  crj_cpcall func ud st = crj_pcall L traceback_handler 1 0 (ud ∷ func ∷ st)
