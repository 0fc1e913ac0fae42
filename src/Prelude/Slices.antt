-- ===== src/Prelude/Slices.antt =====
-- Arrays cut into pieces: reading and writing at the seam of two pieces, and the removal and the
-- insertion of one element.
use Prim.Native.Nat.{ℕ, zero, suc, ◌+◌, ◌<◌, ◌≤◌}
use mathlib.Core.Path.{◌≡◌, refl, ap}
use mathlib.Core.List.{List, [], ◌∷◌, ◌++◌, append_assoc}
use mathlib.Core.Option.{none, some}
use native.Mathlib.Omega.{arith}
use cereja.Prelude.Lists.{length, length-append, get_elem?, set, take, drop, length-take}

module _ {ℓ} {A : Type ℓ} where
  abbrev pub remove_at : ℕ → List A → List A
  remove_at i [] = []
  remove_at zero (x ∷ xs) = xs
  remove_at (suc i) (x ∷ xs) = x ∷ remove_at i xs

  abbrev pub insert_at : ℕ → A → List A → List A
  insert_at zero a xs = a ∷ xs
  insert_at (suc i) a [] = a ∷ []
  insert_at (suc i) a (x ∷ xs) = x ∷ insert_at i a xs

  -- The index is a variable with an equation, for `rw` and the tactics.
  pub get_elem?-append :
      (pre : List A) (x : A) (post : List A) (i : ℕ)
      → i ≡ length pre
      → get_elem? (pre ++ x ∷ post) i ≡ some x
  get_elem?-append [] x post zero e = refl
  get_elem?-append [] x post (suc i) e = absurd (omega arith)
  get_elem?-append (p ∷ pre) x post zero e = absurd (omega arith)
  get_elem?-append (p ∷ pre) x post (suc i) e = get_elem?-append pre x post i (omega arith)

  pub set-append :
      (pre : List A) (x : A) (post : List A) (i : ℕ) (v : A)
      → i ≡ length pre
      → set (pre ++ x ∷ post) i v ≡ pre ++ v ∷ post
  set-append [] x post zero v e = refl
  set-append [] x post (suc i) v e = absurd (omega arith)
  set-append (p ∷ pre) x post zero v e = absurd (omega arith)
  set-append (p ∷ pre) x post (suc i) v e = ap (◌∷◌ p) (set-append pre x post i v (omega arith))

  pub remove_at-append :
      (pre : List A) (x : A) (post : List A) (i : ℕ)
      → i ≡ length pre
      → remove_at i (pre ++ x ∷ post) ≡ pre ++ post
  remove_at-append [] x post zero e = refl
  remove_at-append [] x post (suc i) e = absurd (omega arith)
  remove_at-append (p ∷ pre) x post zero e = absurd (omega arith)
  remove_at-append (p ∷ pre) x post (suc i) e =
      ap (◌∷◌ p) (remove_at-append pre x post i (omega arith))

  pub insert_at-append :
      (pre : List A) (x : A) (post : List A) (i : ℕ)
      → i ≡ length pre
      → insert_at i x (pre ++ post) ≡ pre ++ x ∷ post
  insert_at-append [] x post zero e = refl
  insert_at-append [] x post (suc i) e = absurd (omega arith)
  insert_at-append (p ∷ pre) x post zero e = absurd (omega arith)
  insert_at-append (p ∷ pre) x post (suc i) e =
      ap (◌∷◌ p) (insert_at-append pre x post i (omega arith))

  pub take-append : (pre post : List A) (i : ℕ) → i ≡ length pre → take i (pre ++ post) ≡ pre
  take-append [] post zero e = refl
  take-append [] post (suc i) e = absurd (omega arith)
  take-append (p ∷ pre) post zero e = absurd (omega arith)
  take-append (p ∷ pre) post (suc i) e = ap (◌∷◌ p) (take-append pre post i (omega arith))

  pub snoc-append :
      (pre : List A) (x : A) (post : List A) → (pre ++ x ∷ []) ++ post ≡ pre ++ x ∷ post
  snoc-append pre x post = append_assoc pre (x ∷ []) post

  pub length-snoc : (pre : List A) (x : A) → length (pre ++ x ∷ []) ≡ length pre + 1
  length-snoc pre x = omega (arith, length-append pre (x ∷ []))

  -- A list cut at a place inside it.
  pub record Cut (xs : List A) (i : ℕ) : Type ℓ where
    pub pre : List A
    pub at : A
    pub post : List A
    pub splits : xs ≡ pre ++ at ∷ post
    pub index : i ≡ length pre

  pub cut : (xs : List A) (i : ℕ) → i < length xs → Cut xs i
  cut [] i h = absurd (omega arith)
  cut (x ∷ xs) zero h = record { pre = []; at = x; post = xs; splits = refl; index = refl }
  cut (x ∷ xs) (suc i) h =
      let c = cut xs i (omega arith) in
      record {
        pre = x ∷ c.pre;
        at = c.at;
        post = c.post;
        splits = ap (◌∷◌ x) c.splits;
        index = omega (arith, c.index);
      }

  -- An array of at least `n` slots, of which `n` are in use.
  pub length-take_le : (n : ℕ) (xs : List A) → n ≤ length xs → length (take n xs) ≡ n
  length-take_le n xs h = omega (arith, length-take n xs)

  pub length-pieces : (a b c : List A) → length (a ++ (b ++ c)) ≡ length a + (length b + length c)
  length-pieces a b c = omega (arith, length-append a (b ++ c), length-append b c)

  pub take-pieces :
      (a b c : List A) (n : ℕ) → n ≡ length a + length b → take n (a ++ (b ++ c)) ≡ a ++ b
  take-pieces a b c n e =
      rw (← append_assoc a b c) (take-append (a ++ b) c n (omega (arith, length-append a b)))

  pub take-all : (n : ℕ) (xs : List A) → length xs ≤ n → take n xs ≡ xs
  take-all zero [] h = refl
  take-all zero (x ∷ xs) h = absurd (omega arith)
  take-all (suc n) [] h = refl
  take-all (suc n) (x ∷ xs) h = ap (◌∷◌ x) (take-all n xs (omega arith))

  pub drop-all : (n : ℕ) (xs : List A) → length xs ≤ n → drop n xs ≡ []
  drop-all zero [] h = refl
  drop-all zero (x ∷ xs) h = absurd (omega arith)
  drop-all (suc n) [] h = refl
  drop-all (suc n) (x ∷ xs) h = drop-all n xs (omega arith)

  pub get_elem?-take_lt :
      (n : ℕ) (xs : List A) (i : ℕ) → i < n → get_elem? (take n xs) i ≡ get_elem? xs i
  get_elem?-take_lt zero xs i h = absurd (omega arith)
  get_elem?-take_lt (suc n) [] i h = refl
  get_elem?-take_lt (suc n) (x ∷ xs) zero h = refl
  get_elem?-take_lt (suc n) (x ∷ xs) (suc i) h = get_elem?-take_lt n xs i (omega arith)

  pub get_elem?-ge : (xs : List A) (i : ℕ) → length xs ≤ i → get_elem? xs i ≡ none
  get_elem?-ge [] i h = refl
  get_elem?-ge (x ∷ xs) zero h = absurd (omega arith)
  get_elem?-ge (x ∷ xs) (suc i) h = get_elem?-ge xs i (omega arith)

  pub get_elem?-lt : (xs : List A) (i : ℕ) → i < length xs → (a : A) × (get_elem? xs i ≡ some a)
  get_elem?-lt [] i h = absurd (omega arith)
  get_elem?-lt (x ∷ xs) zero h = (x, refl)
  get_elem?-lt (x ∷ xs) (suc i) h = get_elem?-lt xs i (omega arith)

  -- The last element split off.
  pub unsnoc : (x : A) (xs : List A) → (init : List A) × (last : A) × (x ∷ xs ≡ init ++ last ∷ [])
  unsnoc x [] = ([], x, refl)
  unsnoc x (y ∷ xs) = let (init, last, e) = unsnoc y xs in (x ∷ init, last, ap (◌∷◌ x) e)
