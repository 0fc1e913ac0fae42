-- ===== src/Calls/Stack.antt =====
-- The stack across Crj_PCall of src/api.c.
use mathlib.Core.List.{append_assoc}
use cereja.Prelude.{
  ℕ, suc, ◌+◌, ◌-◌, ◌≡◌, some, List, [], ◌∷◌, ◌++◌, length, length-append, arith, refl, sym, ap,
  ◌∙◌,
}
use cereja.Calls.{LuaStack, crj_pcall}

-- What the manual of Lua 5.1 says of lua_insert and lua_remove.
pub record Documented {A : Type 0} (L : LuaStack A) : Type 0 where
  pub insert_under :
      (n : ℕ) (h : A) (xs rest : List A)
      → n ≡ suc (length xs)
      → L.insert n (h ∷ (xs ++ rest)) ≡ some (xs ++ (h ∷ rest))
  pub remove_at :
      (index : ℕ) (h : A) (xs rest : List A)
      → index ≡ length rest + 1
      → L.remove index (xs ++ (h ∷ rest)) ≡ some (xs ++ rest)

module _ {A : Type 0} (L : LuaStack A) (D : Documented L) (traceback_handler : A) where
  crj_pcall-steps :
      (nargs nresults index result : ℕ) (st inserted after removed : List A)
      → L.insert (1 + nargs + 1) (traceback_handler ∷ st) ≡ some inserted
      → length inserted + 1 - (1 + nargs + 1) ≡ index
      → L.pcall nargs nresults index inserted ≡ some (result, after)
      → L.remove index after ≡ some removed
      → crj_pcall L traceback_handler nargs nresults st ≡ some (result, removed)
  unfolding crj_pcall
  crj_pcall-steps nargs nresults index result st inserted after removed e1 e2 e3 e4 =
      rw (e1, e2, e3, e4) refl

  inserted_under :
      (args : List A) (func : A) (rest : List A)
      → L.insert (1 + length args + 1) (traceback_handler ∷ (args ++ (func ∷ rest)))
        ≡ some (args ++ (func ∷ traceback_handler ∷ rest))
  inserted_under args func rest =
      ap (λ st. L.insert (1 + length args + 1) (traceback_handler ∷ st))
        (sym (append_assoc args (func ∷ []) rest))
      ∙ D.insert_under (1 + length args + 1) traceback_handler (args ++ (func ∷ [])) rest
          (omega (arith, length-append args (func ∷ [])))
      ∙ ap some (append_assoc args (func ∷ []) (traceback_handler ∷ rest))

  -- Where lua_insert and lua_remove work as documented and lua_pcall of a function and its
  -- arguments, above the handler, leaves some results or an error in their place, Crj_PCall of the
  -- function and the arguments gives the same result and leaves the same values on the stack, and
  -- the handler is gone.
  pub crj_pcall-runs :
      (args : List A) (func : A) (rest : List A) (nresults result : ℕ) (results : List A)
      → L.pcall (length args) nresults (length rest + 1) (args ++ (func ∷ traceback_handler ∷ rest))
        ≡ some (result, results ++ (traceback_handler ∷ rest))
      → crj_pcall L traceback_handler (length args) nresults (args ++ (func ∷ rest))
        ≡ some (result, results ++ rest)
  crj_pcall-runs args func rest nresults result results called =
      let below = func ∷ traceback_handler ∷ rest in
      crj_pcall-steps (length args) nresults (length rest + 1) result (args ++ (func ∷ rest))
        (args ++ below) (results ++ (traceback_handler ∷ rest)) (results ++ rest)
        (inserted_under args func rest) (omega (arith, length-append args below)) called
        (D.remove_at (length rest + 1) traceback_handler results rest refl)
