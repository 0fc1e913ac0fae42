-- ===== src/Extensions.antt =====
-- The loading and the unloading of extensions in src/builtins.c. Windows and the extensions are a
-- parameter; their calls are kept in a log, the last one first.
pub mod Sessions
use cereja.Prelude.{
  ℕ, Bool, true, false, not, Option, none, some, ◌>>=◌, List, [], ◌∷◌, ◌++◌, ◌==◌, if◌then◌else◌,
}

-- CrjExtEvent
pub data Event : Type 0 where
  loading : Event
  unloading : Event

-- `main` is a call of Crj_ExtMain by Crj_PCall, and whether it went well; `notice_error` is Crj_NoticeError.
pub data Call : Type 0 where
  load_library : (path : List ℕ) → (hmodule : ℕ) → Call
  free_library : (hmodule : ℕ) → Call
  main : Event → (hmodule : ℕ) → (well : Bool) → Call
  notice_error : Call

-- `load` is LoadLibrary, 0 where it fails; `has_main` is whether GetProcAddress finds Crj_ExtMain.
pub record System : Type 1 where
  pub State : Type 0
  pub load : (path : List ℕ) → State → ℕ × State
  pub has_main : (hmodule : ℕ) → Bool
  pub run_main : Event → (hmodule : ℕ) → State → Bool × State

-- What cereja._load_extension returns or raises.
pub data Loaded : Type 0 where
  hmodule_of : ℕ → Loaded
  failed_to_load : Loaded
  not_an_extension : Loaded
  main_failed : Loaded

module _ (S : System) where
  pub record World : Type 0 where
    pub state : S.State
    pub calls : List Call

  -- The call of Crj_ExtMain.
  abbrev pub call_main : Event → (hmodule : ℕ) → World → Bool × World
  call_main event hmodule w =
      let (well, state) = S.run_main event hmodule w.state in
      (well, record { state = state; calls = main event hmodule well ∷ w.calls })

  abbrev pub log : Call → World → World
  log call w = record w { calls = call ∷ w.calls }

  -- cereja__load_extension, once the library is loaded and has a Crj_ExtMain.
  unfoldable pub start_extension : (hmodule : ℕ) → Bool × World → Loaded × World
  start_extension hmodule (true, w) = (hmodule_of hmodule, w)
  start_extension hmodule (false, w) = (main_failed, log (free_library hmodule) w)

  unfoldable pub load_extension : (path : List ℕ) → World → Loaded × World
  unfolding start_extension
  load_extension path w =
      let (hmodule, state) = S.load path w.state in
      let tried : World = record { state = state; calls = load_library path hmodule ∷ w.calls } in
      if hmodule == 0
      then (failed_to_load, tried)
      else if not (S.has_main hmodule)
      then (not_an_extension, tried)
      else start_extension hmodule (call_main loading hmodule tried)

  -- The end of unload_an_extension: an error is told, and goes no further.
  pub after_unloading : Bool × World → World
  after_unloading (true, w) = w
  after_unloading (false, w) = log notice_error w

  -- unload_an_extension: without a Crj_ExtMain, a NULL is called.
  pub unload_an_extension : (hmodule : ℕ) → World → Option World
  unfolding after_unloading
  unload_an_extension hmodule w =
      if not (S.has_main hmodule)
      then none
      else some (after_unloading (call_main unloading hmodule w))

  -- unload_all_extensions over the values of cereja._loaded_extensions.
  pub unload_all_extensions : List ℕ → World → Option World
  unfolding unload_an_extension
  unload_all_extensions [] w = some w
  unload_all_extensions (hmodule ∷ hmodules) w =
      unload_an_extension hmodule w >>= unload_all_extensions hmodules
