-- ===== src/Startup/Order.antt =====
-- The folders of lib/shell/__init__.c, and the run over all keys and folders.
use mathlib.Core.List.{append_assoc}
use cereja.Prelude.{
  ℕ, ◌<◌, ◌≡◌, ◌≢◌, Bool, true, false, Option, some, List, [], ◌∷◌, ◌++◌, length, ◌==◌, arith, refl,
  sym, ap, ◌∙◌, inl, inr, Bool-cases, ==_iff,
}
use Prim.Native.Nat.{bit_and}
use cereja.Startup.{
  Windows, World, Char, Key, Folder, RegValue, FindData, run_registry_items, run_folder_items,
  search_folder, shell_run_startup_programs, execute_file, execute_files, folder_search, split_last,
  search_parts, machine_run_once, machine_run, user_run, user_run_once, common_startup, startup,
  hidden_attributes,
}
use cereja.Startup.Registry.{Documented, readable}
use cereja.Startup.Runs.{
  spawn_items, delete_items, all_deletable, spawn_items-values, delete_items-values,
  delete_items-keeps, run_registry_items-empties, run_registry_items-spawns,
}

split_last-joins :
    (cs : List Char) → (split_last cs).1 ≡ true → (split_last cs).0 ++ (b'\\' ∷ []) ≡ cs
unfolding split_last
split_last-joins [] e = absurd (ground arith)
split_last-joins (c ∷ []) e = elim (Bool-cases (c == b'\\')) [
  | inl same ↦ rw (same, (==_iff c b'\\').0 same) refl
  | inr other ↦ absurd (ground arith)
]
split_last-joins (c ∷ d ∷ cs) e = ap (◌∷◌ c) (split_last-joins (d ∷ cs) e)

-- The pattern for all files of a directory.
abbrev pub all_files : List Char → List Char
all_files directory = directory ++ (b'\\' ∷ b'*' ∷ b'.' ∷ b'*' ∷ [])

search_parts-pattern :
    (path before : List Char) (b : Bool)
    → (b ≡ true → before ++ (b'\\' ∷ []) ≡ path)
    → (search_parts path before b).0 ≡ all_files (search_parts path before b).1
unfolding search_parts
search_parts-pattern path before true joins =
    ap (λ p. p ++ (b'*' ∷ b'.' ∷ b'*' ∷ [])) (sym (joins refl))
    ∙ append_assoc before (b'\\' ∷ []) (b'*' ∷ b'.' ∷ b'*' ∷ [])
search_parts-pattern path before false joins = refl

-- Of a path that is not empty, with a separator at its end or without, run_folder_items searches
-- for all files of a directory and executes them in that directory.
pub folder_search-searches :
    (c : Char) (cs : List Char)
    → (directory : List Char) × (folder_search (c ∷ cs) ≡ some (all_files directory, directory))
unfolding folder_search
folder_search-searches c cs =
    let (before, b) = split_last (c ∷ cs) in
    let parts = search_parts (c ∷ cs) before b in
    (
      parts.1,
      ap (λ p. some (p, parts.1))
          (search_parts-pattern (c ∷ cs) before b (split_last-joins (c ∷ cs))),
    )

module _ (W : Windows) (D : Documented W) where
  execute_file-values :
      (directory : List Char) (file : FindData) (w : World W) (k : Key)
      → D.values (execute_file W directory file w).state k ≡ D.values w.state k
  execute_file-values directory file w k =
      elim (Bool-cases (bit_and file.attributes hidden_attributes == 0)) [
        | inl e ↦ rw e (D.executed w.state file.file_name directory k)
        | inr e ↦ rw e refl
      ]

  execute_files-values :
      (directory : List Char) (files : List FindData) (w : World W) (k : Key)
      → D.values (execute_files W directory files w).state k ≡ D.values w.state k
  unfolding execute_files
  execute_files-values directory [] w k = refl
  execute_files-values directory (file ∷ files) w k =
      execute_files-values directory files (execute_file W directory file w) k
      ∙ execute_file-values directory file w k

  -- A run that ends, and leaves these values in the registry.
  abbrev pub Leaves : Option (World W) → (Key → List RegValue) → Type 0
  Leaves r values = (t : World W) × (r ≡ some t) × ((k : Key) → D.values t.state k ≡ values k)

  search_folder-searches :
      (path pattern directory : List Char) (w : World W)
      → folder_search path ≡ some (pattern, directory)
      → search_folder W (some path) w
        ≡ some (execute_files W directory (W.find_files w.state pattern) w)
  unfolding search_folder
  search_folder-searches path pattern directory w e = rw e refl

  folder-Leaves :
      (folder : Folder) (w : World W) (c : Char) (cs : List Char)
      → W.folder_path w.state folder ≡ some (c ∷ cs)
      → Leaves (run_folder_items W folder w) (D.values w.state)
  unfolding run_folder_items
  folder-Leaves folder w c cs e =
      let (directory, searched) = folder_search-searches c cs in
      let files = W.find_files w.state (all_files directory) in
      (
        execute_files W directory files w,
        ap (λ p. search_folder W p w) e
            ∙ search_folder-searches (c ∷ cs) (all_files directory) directory w searched,
        execute_files-values directory files w,
      )

  spawns-Leaves :
      (key : Key) (rounds : ℕ) (w : World W)
      → W.open_key w.state key ≡ true
      → length (D.values w.state key) < rounds
      → Leaves (run_registry_items W rounds key false false w) (D.values w.state)
  spawns-Leaves key rounds w opens enough = (
    spawn_items W D (readable (D.values w.state key)) false w,
    run_registry_items-spawns W D key false (D.values w.state key) rounds w opens refl enough,
    spawn_items-values W D (readable (D.values w.state key)) false w,
  )

  -- A key that is run once: it is empty afterwards, and the others are as they were.
  abbrev pub Empties : World W → Option (World W) → Key → Type 0
  Empties w r key =
      (t : World W) × (r ≡ some t)
      × (D.values t.state key ≡ [])
      × ((other : Key) → key ≢ other → D.values t.state other ≡ D.values w.state other)

  run_once-Empties :
      (key : Key) (wait : Bool) (rounds : ℕ) (w : World W)
      → W.open_key w.state key ≡ true
      → all_deletable W D (D.values w.state key) ≡ true
      → length (D.values w.state key) < rounds
      → Empties w (run_registry_items W rounds key true wait w) key
  run_once-Empties key wait rounds w opens text enough =
      let vs = D.values w.state key in
      let spawned = spawn_items W D (readable vs) wait w in
      (
        delete_items W D key vs spawned,
        run_registry_items-empties W D key wait vs rounds w opens refl text enough,
        delete_items-values W D key vs spawned (spawn_items-values W D (readable vs) wait w key),
        λ other apart.
            delete_items-keeps W D key other vs spawned apart
            ∙ spawn_items-values W D (readable vs) wait w other,
      )

  in_steps :
      (rounds : ℕ) (w w1 w2 w3 w4 w5 w6 : World W)
      → run_registry_items W rounds machine_run_once true true w ≡ some w1
      → run_registry_items W rounds machine_run false false w1 ≡ some w2
      → run_registry_items W rounds user_run false false w2 ≡ some w3
      → run_folder_items W common_startup w3 ≡ some w4
      → run_folder_items W startup w4 ≡ some w5
      → run_registry_items W rounds user_run_once true false w5 ≡ some w6
      → shell_run_startup_programs W rounds w ≡ some w6
  unfolding shell_run_startup_programs
  in_steps rounds w w1 w2 w3 w4 w5 w6 e1 e2 e3 e4 e5 e6 = rw (e1, e2, e3, e4, e5) e6

  -- Where the keys open, the folders have paths, all values of the two RunOnce keys are strings
  -- with names of at most 259 characters, and the programs leave these keys alone,
  -- _shell_run_startup_programs ends, its loops in one round more than there are values, whatever
  -- the sizes of the data and of the other keys' names are, and both RunOnce keys are empty then.
  pub shell_run_startup_programs-ends :
      (rounds : ℕ) (w : World W)
      → ((s : W.State) (k : Key) → W.open_key s k ≡ true)
      → ((s : W.State) (f : Folder)
          → (c : Char) × (cs : List Char) × (W.folder_path s f ≡ some (c ∷ cs)))
      → all_deletable W D (D.values w.state machine_run_once) ≡ true
      → all_deletable W D (D.values w.state user_run_once) ≡ true
      → ((k : Key) → length (D.values w.state k) < rounds)
      → (t : World W) × (shell_run_startup_programs W rounds w ≡ some t)
        × (D.values t.state machine_run_once ≡ [])
        × (D.values t.state user_run_once ≡ [])
  shell_run_startup_programs-ends rounds w opens paths text1 text2 enough =
      let (w1, e1, empty1, kept1) =
        run_once-Empties machine_run_once true rounds w (opens w.state machine_run_once) text1
          (enough machine_run_once) in
      let (w2, e2, kept2) =
        spawns-Leaves machine_run rounds w1 (opens w1.state machine_run)
          (omega (arith, ap length (kept1 machine_run (λ e. cc)), enough machine_run)) in
      let since2 : (k : Key) → machine_run_once ≢ k → D.values w2.state k ≡ D.values w.state k =
        λ k apart. kept2 k ∙ kept1 k apart in
      let (w3, e3, kept3) =
        spawns-Leaves user_run rounds w2 (opens w2.state user_run)
          (omega (arith, ap length (since2 user_run (λ e. cc)), enough user_run)) in
      let (c4, cs4, path4) = paths w3.state common_startup in
      let (w4, e4, kept4) = folder-Leaves common_startup w3 c4 cs4 path4 in
      let (c5, cs5, path5) = paths w4.state startup in
      let (w5, e5, kept5) = folder-Leaves startup w4 c5 cs5 path5 in
      let run_once =
        kept5 user_run_once
        ∙ kept4 user_run_once
        ∙ kept3 user_run_once
        ∙ since2 user_run_once (λ e. cc) in
      let (w6, e6, empty6, kept6) =
        run_once-Empties user_run_once false rounds w5 (opens w5.state user_run_once)
          (ap (all_deletable W D) run_once ∙ text2)
          (omega (arith, ap length run_once, enough user_run_once)) in
      (
        w6,
        in_steps rounds w w1 w2 w3 w4 w5 w6 e1 e2 e3 e4 e5 e6,
        kept6 machine_run_once (λ e. cc)
            ∙ kept5 machine_run_once
            ∙ kept4 machine_run_once
            ∙ kept3 machine_run_once
            ∙ kept2 machine_run_once
            ∙ empty1,
        empty6,
      )
