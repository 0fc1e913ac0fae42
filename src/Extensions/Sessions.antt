-- ===== src/Extensions/Sessions.antt =====
-- Sequences of loads of extensions in src/builtins.c, with the unloading at the end.
use cereja.Prelude.{
  ℕ, ◌≡◌, Bool, true, false, ◌&&◌, some, List, [], ◌∷◌, ◌==◌, if◌then◌else◌, refl, ap, ◌∙◌, inl,
  inr, Bool-cases, both_true, all_true, arith,
}
use cereja.Extensions.{
  Call, load_library, free_library, main, loading, unloading, System, Loaded, hmodule_of,
  failed_to_load, not_an_extension, main_failed, World, call_main, start_extension, load_extension,
  after_unloading, unload_an_extension, unload_all_extensions,
}

-- The extensions whose start went well, the last one first.
abbrev pub started : List Call → List ℕ
started [] = []
started (main loading h true ∷ cs) = h ∷ started cs
started (_ ∷ cs) = started cs

-- The extensions that were told of their end, the last one first.
abbrev pub stopped : List Call → List ℕ
stopped [] = []
stopped (main unloading h well ∷ cs) = h ∷ stopped cs
stopped (_ ∷ cs) = stopped cs

-- The libraries that are loaded: a library that is freed is taken away once.
abbrev pub without : (h : ℕ) → List ℕ → List ℕ
without h [] = []
without h (x ∷ xs) = if h == x then xs else x ∷ without h xs

abbrev pub held : List Call → List ℕ
held [] = []
held (load_library path h ∷ cs) = if h == 0 then held cs else h ∷ held cs
held (free_library h ∷ cs) = without h (held cs)
held (_ ∷ cs) = held cs

module _ (S : System) where
  -- What cereja._load_extension changes, by what it returned or raised, from the calls before to those
  -- after it.
  abbrev pub Loads : Loaded → List Call → List Call → Type 0
  Loads (hmodule_of h) before after =
      (held after ≡ h ∷ held before)
      × (started after ≡ h ∷ started before)
      × (stopped after ≡ stopped before)
      × (S.has_main h ≡ true)
  Loads not_an_extension before after =
      (h : ℕ) × (held after ≡ h ∷ held before)
      × (started after ≡ started before)
      × (stopped after ≡ stopped before)
      × (S.has_main h ≡ false)
  Loads failed before after =
      (held after ≡ held before)
      × (started after ≡ started before)
      × (stopped after ≡ stopped before)

  same : (h : ℕ) → (h == h) ≡ true
  same h = ground arith

  start_extension-Loads :
      (h : ℕ) (path : List ℕ) (well : Bool) (state : S.State) (before : List Call)
      → (h == 0) ≡ false
      → S.has_main h ≡ true
      → let (r, w) = start_extension S h (
        well,
        record { state = state; calls = main loading h well ∷ load_library path h ∷ before },
      ) in
        Loads r before w.calls
  unfolding start_extension
  start_extension-Loads h path true state before e found = rw e (refl, refl, refl, found)
  start_extension-Loads h path false state before e found = rw (e, same h) (refl, refl, refl)

  -- A call of cereja._load_extension that returns a handle leaves its library loaded and its
  -- extension started. Where LoadLibrary fails, or the extension's start fails, no library more is
  -- loaded than before; where the library is no extension it stays loaded, with no handle
  -- returned.
  pub load_extension-Loads :
      (path : List ℕ) (w : World S)
      → Loads (load_extension S path w).0 w.calls (load_extension S path w).1.calls
  unfolding load_extension
  load_extension-Loads path w =
      let h = (S.load path w.state).0 in
      elim (Bool-cases (h == 0)) [
        | inl e ↦ rw e (rw e refl, refl, refl)
        | inr e ↦ elim (Bool-cases (S.has_main h)) [
          | inl found ↦
              rw (e, found)
                (start_extension-Loads h path (S.run_main loading h (S.load path w.state).1).0
                  (S.run_main loading h (S.load path w.state).1).1 w.calls e found)
          | inr missing ↦ rw (e, missing) (h, rw e refl, refl, refl, missing)
        ]
      ]

  abbrev pub with_loaded : Loaded → List ℕ → List ℕ
  with_loaded (hmodule_of h) hs = h ∷ hs
  with_loaded _ hs = hs

  -- A program that loads extensions, one after the other, and keeps what is returned, as
  -- cereja._loaded_extensions does.
  abbrev pub load_all : (paths : List (List ℕ)) → (kept : List ℕ) → World S → List ℕ × World S
  load_all [] kept w = (kept, w)
  load_all (path ∷ paths) kept w =
      let (r, next) = load_extension S path w in load_all paths (with_loaded r kept) next

  abbrev pub all_have_main : List ℕ → Bool
  all_have_main [] = true
  all_have_main (h ∷ hs) = S.has_main h && all_have_main hs

  -- What is kept has started, has a Crj_ExtMain, and was not told of its end.
  record Kept (kept : List ℕ) (calls : List Call) : Type 0 where
    have_started : started calls ≡ kept
    not_stopped : stopped calls ≡ []
    have_main : all_have_main kept ≡ true

  load-Kept :
      (r : Loaded) (kept : List ℕ) (before after : List Call)
      → Loads r before after
      → Kept kept before
      → Kept (with_loaded r kept) after
  load-Kept (hmodule_of h) kept before after (held, start, stop, found) k = record {
    have_started = start ∙ ap (λ hs. h ∷ hs) k.have_started;
    not_stopped = stop ∙ k.not_stopped;
    have_main = all_true found k.have_main;
  }
  load-Kept not_an_extension kept before after (h, held, start, stop, missing) k = record {
    have_started = start ∙ k.have_started;
    not_stopped = stop ∙ k.not_stopped;
    have_main = k.have_main;
  }
  load-Kept failed_to_load kept before after (held, start, stop) k = record {
    have_started = start ∙ k.have_started;
    not_stopped = stop ∙ k.not_stopped;
    have_main = k.have_main;
  }
  load-Kept main_failed kept before after (held, start, stop) k = record {
    have_started = start ∙ k.have_started;
    not_stopped = stop ∙ k.not_stopped;
    have_main = k.have_main;
  }

  load_all-Kept :
      (paths : List (List ℕ)) (kept : List ℕ) (w : World S)
      → Kept kept w.calls
      → Kept (load_all paths kept w).0 (load_all paths kept w).1.calls
  load_all-Kept [] kept w k = k
  load_all-Kept (path ∷ paths) kept w k =
      let (r, next) = load_extension S path w in
      load_all-Kept paths (with_loaded r kept) next
        (load-Kept r kept w.calls next.calls (load_extension-Loads path w) k)

  -- The log of these extensions, told of their end one after the other.
  abbrev pub told : List ℕ → List ℕ → List ℕ
  told [] hs = hs
  told (h ∷ hs) earlier = told hs (h ∷ earlier)

  after_unloading-stops :
      (h : ℕ) (well : Bool) (state : S.State) (before : List Call)
      → let t =
          after_unloading S
            (well, record { state = state; calls = main unloading h well ∷ before }) in
        (stopped t.calls ≡ h ∷ stopped before) × (started t.calls ≡ started before)
  unfolding after_unloading
  after_unloading-stops h true state before = (refl, refl)
  after_unloading-stops h false state before = (refl, refl)

  unload-stops :
      (h : ℕ) (w : World S)
      → S.has_main h ≡ true
      → (t : World S) × (unload_an_extension S h w ≡ some t)
        × (stopped t.calls ≡ h ∷ stopped w.calls)
        × (started t.calls ≡ started w.calls)
  unfolding unload_an_extension
  unload-stops h w found =
      let (well, state) = S.run_main unloading h w.state in
      let (stop, start) = after_unloading-stops h well state w.calls in
      (after_unloading S (call_main S unloading h w), rw found refl, stop, start)

  unload_all-stops :
      (hs : List ℕ) (w : World S)
      → all_have_main hs ≡ true
      → (t : World S) × (unload_all_extensions S hs w ≡ some t)
        × (stopped t.calls ≡ told hs (stopped w.calls))
        × (started t.calls ≡ started w.calls)
  unfolding unload_all_extensions
  unload_all-stops [] w found = (w, refl, refl, refl)
  unload_all-stops (h ∷ hs) w found =
      let (first, others) = both_true (S.has_main h) (all_have_main hs) found in
      let (t, e, stop, start) = unload-stops h w first in
      let (u, e2, stop2, start2) = unload_all-stops hs t others in
      (u, rw e e2, stop2 ∙ ap (told hs) stop, start2 ∙ start)

  -- After any sequence of calls of cereja._load_extension whose results are kept,
  -- unload_all_extensions of what is kept returns: just the extensions whose start went well are
  -- told of their end, each as often as it started, whatever the others do, and no Crj_ExtMain
  -- that is not there is called.
  pub session-stops :
      (paths : List (List ℕ)) (state : S.State)
      → let (kept, w) = load_all paths [] (record { state = state; calls = [] }) in
        (t : World S) × (unload_all_extensions S kept w ≡ some t)
        × (started t.calls ≡ kept)
        × (stopped t.calls ≡ told kept [])
  session-stops paths state =
      let fresh : World S = record { state = state; calls = [] } in
      let (kept, w) = load_all paths [] fresh in
      let k =
        load_all-Kept paths [] fresh
          (record { have_started = refl; not_stopped = refl; have_main = refl }) in
      let (t, e, stop, start) = unload_all-stops kept w k.have_main in
      (t, e, start ∙ k.have_started, stop ∙ ap (told kept) k.not_stopped)
