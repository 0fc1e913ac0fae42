-- ===== src/Calls/Lists.antt =====
-- The functions on the stack that src/api.c calls, on a list, as the manual of Lua 5.1 has them.
use cereja.Prelude.{
  ℕ, zero, suc, ◌+◌, ◌-◌, ◌≡◌, false, Option, none, some, ◌>>=◌, List, [], ◌∷◌, ◌++◌, length,
  length-append, ◌==◌, if◌then◌else◌, arith, refl,
}

-- lua_insert(L, -n) of the value on the top of the stack, which is the head of the list: `none` where the
-- stack is lower than `n`.
pub lua_insert : {A : Type 0} → (n : ℕ) → List A → Option (List A)
lua_insert n [] = none
lua_insert zero (x ∷ st) = none
lua_insert (suc zero) (x ∷ st) = some (x ∷ st)
lua_insert (suc (suc n)) (x ∷ []) = none
lua_insert (suc (suc n)) (x ∷ y ∷ st) =
    lua_insert (suc n) (x ∷ st) >>= λ inserted. some (y ∷ inserted)

-- lua_remove of the value `above` places below the top.
pub lua_remove_below : {A : Type 0} → (above : ℕ) → List A → Option (List A)
lua_remove_below above [] = none
lua_remove_below zero (x ∷ st) = some st
lua_remove_below (suc above) (x ∷ st) = lua_remove_below above st >>= λ removed. some (x ∷ removed)

-- lua_remove of an index that counts from 1 at the bottom.
pub lua_remove : {A : Type 0} → (index : ℕ) → List A → Option (List A)
unfolding lua_remove_below
lua_remove index st = if index == 0 then none else lua_remove_below (length st - index) st

pub lua_insert-under :
    {A : Type 0} (n : ℕ) (h : A) (xs rest : List A)
    → n ≡ suc (length xs)
    → lua_insert n (h ∷ (xs ++ rest)) ≡ some (xs ++ (h ∷ rest))
unfolding lua_insert
lua_insert-under zero h xs rest e = absurd (omega arith)
lua_insert-under (suc zero) h [] rest e = refl
lua_insert-under (suc zero) h (x ∷ xs) rest e = absurd (omega arith)
lua_insert-under (suc (suc n)) h [] rest e = absurd (omega arith)
lua_insert-under (suc (suc n)) h (x ∷ xs) rest e =
    rw (lua_insert-under (suc n) h xs rest (omega arith)) refl

lua_remove_below-at :
    {A : Type 0} (above : ℕ) (h : A) (xs rest : List A)
    → above ≡ length xs
    → lua_remove_below above (xs ++ (h ∷ rest)) ≡ some (xs ++ rest)
unfolding lua_remove_below
lua_remove_below-at zero h [] rest e = refl
lua_remove_below-at zero h (x ∷ xs) rest e = absurd (omega arith)
lua_remove_below-at (suc above) h [] rest e = absurd (omega arith)
lua_remove_below-at (suc above) h (x ∷ xs) rest e =
    rw (lua_remove_below-at above h xs rest (omega arith)) refl

nonzero : (n m : ℕ) → n ≡ m + 1 → (n == 0) ≡ false
nonzero n m e = ground arith

pub lua_remove-at :
    {A : Type 0} (index : ℕ) (h : A) (xs rest : List A)
    → index ≡ length rest + 1
    → lua_remove index (xs ++ (h ∷ rest)) ≡ some (xs ++ rest)
unfolding lua_remove
lua_remove-at index h xs rest e =
    rw
      (
        nonzero index (length rest) e,
        lua_remove_below-at (length (xs ++ (h ∷ rest)) - index) h xs rest
            (omega (arith, e, length-append xs (h ∷ rest))),
      )
      refl
