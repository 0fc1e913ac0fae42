-- ===== src/Startup/Runs.antt =====
-- The loops over the values of a registry key in lib/shell/__init__.c.
use mathlib.Core.List.{append-nil}
use cereja.Prelude.{
  ℕ, zero, suc, ◌<◌, ◌≡◌, ◌≢◌, Bool, true, false, ◌&&◌, none, some, List, [], ◌∷◌, ◌++◌, length,
  get_elem?, ◌-◌, ◌*◌, take, tests, Option, ◌>>=◌, arith, refl, sym, ap, ◌∙◌, inl, inr, Bool-cases,
  both_true,
}
use cereja.Prelude.Slices.{take-all, snoc-append, length-snoc, get_elem?-append}
use cereja.Startup.Registry.{has_room, fits, if_fits, Documented, readable, programs}
use cereja.Startup.{
  Windows, World, perform, Key, RegValue, spawn_process, delete_value, is_text, spawn_item,
  delete_item, max_path, spawn_loop, delete_loop, run_registry_items,
}

get_elem?-end : {A : Type 0} (xs : List A) → get_elem? xs (length xs) ≡ none
get_elem?-end [] = refl
get_elem?-end (x ∷ xs) = get_elem?-end xs

module _ (W : Windows) (D : Documented W) where
  abbrev start_all : List (List ℕ) → Bool → World W → World W
  start_all [] wait w = w
  start_all (path ∷ paths) wait w = start_all paths wait (perform W (spawn_process path wait) w)

  -- The programs of the values `vs` are started, one after the other.
  abbrev pub spawn_items : List RegValue → Bool → World W → World W
  spawn_items vs wait w = start_all (programs vs) wait w

  spawn_items-next :
      (v : RegValue) (vs : List RegValue) (wait : Bool) (w : World W)
      → spawn_items (v ∷ vs) wait w ≡ spawn_items vs wait (spawn_item W v wait w)
  spawn_items-next v vs wait w = elim (Bool-cases (is_text W v)) [
    | inl e ↦ rw e refl
    | inr e ↦ rw e refl
  ]

  spawn_item-values :
      (v : RegValue) (wait : Bool) (w : World W) (k : Key)
      → D.values (spawn_item W v wait w).state k ≡ D.values w.state k
  spawn_item-values v wait w k = elim (Bool-cases (is_text W v)) [
    | inl e ↦ rw e (D.spawned w.state (take (max_path - 1) v.data_text) wait k)
    | inr e ↦ rw e refl
  ]

  pub spawn_items-values :
      (vs : List RegValue) (wait : Bool) (w : World W) (k : Key)
      → D.values (spawn_items vs wait w).state k ≡ D.values w.state k
  spawn_items-values [] wait w k = refl
  spawn_items-values (v ∷ vs) wait w k =
      ap (λ t. D.values t.state k) (spawn_items-next v vs wait w)
      ∙ spawn_items-values vs wait (spawn_item W v wait w) k
      ∙ spawn_item-values v wait w k

  enum_value-at :
      (w : World W) (key : Key) (before : List RegValue) (v : RegValue) (vs : List RegValue)
      (count : ℕ) (data_count : Option ℕ)
      → D.values w.state key ≡ before ++ (v ∷ vs)
      → W.enum_value w.state key (length before) count data_count ≡ if_fits count data_count v
  enum_value-at w key before v vs count data_count e =
      D.enum w.state key (length before) count data_count
      ∙ ap (λ xs. get_elem? xs (length before) >>= if_fits count data_count) e
      ∙ ap (λ x. x >>= if_fits count data_count) (get_elem?-append before v vs (length before) refl)

  enum_value-end :
      (w : World W) (key : Key) (vs : List RegValue) (count : ℕ) (data_count : Option ℕ)
      → D.values w.state key ≡ vs
      → W.enum_value w.state key (length vs) count data_count ≡ none
  enum_value-end w key vs count data_count e =
      D.enum w.state key (length vs) count data_count
      ∙ ap (λ xs. get_elem? xs (length vs) >>= if_fits count data_count) e
      ∙ ap (λ x. x >>= if_fits count data_count) (get_elem?-end vs)

  spawn_loop-spawns :
      (key : Key) (wait : Bool) (vs before : List RegValue) (rounds : ℕ) (w : World W)
      → D.values w.state key ≡ before ++ vs
      → length vs < rounds
      → spawn_loop W rounds key wait (length before) w ≡ some (spawn_items (readable vs) wait w)
  unfolding spawn_loop
  spawn_loop-spawns key wait vs before zero w e enough = absurd (omega (arith, enough))
  spawn_loop-spawns key wait [] before (suc rounds) w e enough =
      rw (enum_value-end w key before max_path (some (2 * max_path)) (e ∙ append-nil before)) refl
  spawn_loop-spawns key wait (v ∷ vs) before (suc rounds) w e enough =
      elim (Bool-cases (fits max_path (some (2 * max_path)) v)) [
        | inr long ↦
            rw (enum_value-at w key before v vs max_path (some (2 * max_path)) e, long) refl
        | inl short ↦
            rw (enum_value-at w key before v vs max_path (some (2 * max_path)) e, short)
              (ap (λ i. spawn_loop W rounds key wait i (spawn_item W v wait w))
                  (sym (length-snoc before v))
                ∙ spawn_loop-spawns key wait vs (before ++ (v ∷ [])) rounds (spawn_item W v wait w)
                    (spawn_item-values v wait w key ∙ e ∙ sym (snoc-append before v vs))
                    (omega (arith, enough))
                ∙ ap some (sym (spawn_items-next v (readable vs) wait w)))
      ]

  -- The values are deleted, one after the other.
  abbrev pub delete_items : Key → List RegValue → World W → World W
  delete_items key [] w = w
  delete_items key (v ∷ vs) w = delete_items key vs (perform W (delete_value key v.name) w)

  -- A string whose name fits its buffer.
  abbrev pub is_deletable : RegValue → Bool
  is_deletable v = is_text W v && has_room max_path v

  abbrev pub all_deletable : List RegValue → Bool
  all_deletable [] = true
  all_deletable (v ∷ vs) = is_deletable v && all_deletable vs

  delete_item-deletes :
      (key : Key) (v : RegValue) (w : World W)
      → is_text W v ≡ true
      → has_room max_path v ≡ true
      → delete_item W key v w ≡ perform W (delete_value key v.name) w
  delete_item-deletes key v w text room = rw text (
      ap (λ name. perform W (delete_value key name) w)
        (take-all (max_path - 1) v.name (omega (tests, room))))

  delete_loop-deletes :
      (key : Key) (vs : List RegValue) (rounds : ℕ) (w : World W)
      → D.values w.state key ≡ vs
      → all_deletable vs ≡ true
      → length vs < rounds
      → delete_loop W rounds key w ≡ some (delete_items key vs w)
  unfolding delete_loop
  delete_loop-deletes key vs zero w e text enough = absurd (omega (arith, enough))
  delete_loop-deletes key [] (suc rounds) w e text enough =
      rw (enum_value-end w key [] max_path none e) refl
  delete_loop-deletes key (v ∷ vs) (suc rounds) w e text enough =
      let (is, are) = both_true (is_deletable v) (all_deletable vs) text in
      let (string, room) = both_true (is_text W v) (has_room max_path v) is in
      rw
        (enum_value-at w key [] v vs max_path none e, room, delete_item-deletes key v w string room)
        (delete_loop-deletes key vs rounds (perform W (delete_value key v.name) w)
          (D.deleted w.state key v vs e) are (omega (arith, enough)))

  pub delete_items-values :
      (key : Key) (vs : List RegValue) (w : World W)
      → D.values w.state key ≡ vs
      → D.values (delete_items key vs w).state key ≡ []
  delete_items-values key [] w e = e
  delete_items-values key (v ∷ vs) w e =
      delete_items-values key vs (perform W (delete_value key v.name) w)
        (D.deleted w.state key v vs e)

  pub delete_items-keeps :
      (key other : Key) (vs : List RegValue) (w : World W)
      → key ≢ other
      → D.values (delete_items key vs w).state other ≡ D.values w.state other
  delete_items-keeps key other [] w apart = refl
  delete_items-keeps key other (v ∷ vs) w apart =
      delete_items-keeps key other vs (perform W (delete_value key v.name) w) apart
      ∙ D.kept w.state key v.name other apart

  pub run_registry_items-empties :
      (key : Key) (wait : Bool) (vs : List RegValue) (rounds : ℕ) (w : World W)
      → W.open_key w.state key ≡ true
      → D.values w.state key ≡ vs
      → all_deletable vs ≡ true
      → length vs < rounds
      → run_registry_items W rounds key true wait w
        ≡ some (delete_items key vs (spawn_items (readable vs) wait w))
  unfolding run_registry_items
  run_registry_items-empties key wait vs rounds w opens e text enough =
      rw (opens, spawn_loop-spawns key wait vs [] rounds w e enough)
        (delete_loop-deletes key vs rounds (spawn_items (readable vs) wait w)
          (spawn_items-values (readable vs) wait w key ∙ e) text enough)

  pub run_registry_items-spawns :
      (key : Key) (wait : Bool) (vs : List RegValue) (rounds : ℕ) (w : World W)
      → W.open_key w.state key ≡ true
      → D.values w.state key ≡ vs
      → length vs < rounds
      → run_registry_items W rounds key false wait w ≡ some (spawn_items (readable vs) wait w)
  unfolding run_registry_items
  run_registry_items-spawns key wait vs rounds w opens e enough =
      rw (opens, spawn_loop-spawns key wait vs [] rounds w e enough) refl

  -- Where the first value of a key is no string, and its name has at most 259 characters, the loop
  -- of run_registry_items that deletes its values does not end in any number of rounds.
  pub delete_loop-sticks :
      (key : Key) (v : RegValue) (vs : List RegValue) (rounds : ℕ) (w : World W)
      → D.values w.state key ≡ v ∷ vs
      → is_text W v ≡ false
      → has_room max_path v ≡ true
      → delete_loop W rounds key w ≡ none
  unfolding delete_loop
  delete_loop-sticks key v vs zero w e no_text room = refl
  delete_loop-sticks key v vs (suc rounds) w e no_text room =
      rw (enum_value-at w key [] v vs max_path none e, room, no_text)
        (delete_loop-sticks key v vs rounds w e no_text room)
