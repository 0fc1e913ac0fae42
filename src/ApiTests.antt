-- ===== src/ApiTests.antt =====
-- Calls and directories of src/api.c and extensions of src/builtins.c, on concrete stacks, buffers and
-- libraries.
use cereja.Extensions.{System, World, load_extension, unload_all_extensions}
use cereja.Extensions.Sessions.{
  Loads, load_all, started, stopped, told, load_extension-Loads, session-stops,
}
use cereja.Prelude.{
  not, get_or, ℕ, ◌+◌, ◌≡◌, Option, none, some, List, [], ◌∷◌, ◌==◌, if◌then◌else◌, refl,
}
use cereja.Calls.{LuaStack, crj_pcall}
use cereja.Calls.Lists.{lua_insert, lua_remove, lua_insert-under, lua_remove-at}
use cereja.Calls.Stack.{Documented, crj_pcall-runs}
use cereja.Directories.{Environment, insufficient_buffer, crj_user_directory}

-- lua_pcall of a function that adds its two arguments, with the handler 9 at the index 2.
abbrev pcall : (nargs nresults handler_index : ℕ) → List ℕ → Option (ℕ × List ℕ)
pcall nargs nresults handler_index (b ∷ a ∷ func ∷ st) =
    if handler_index == 2 then some (0, (a + b) ∷ st) else none
pcall nargs nresults handler_index st = none

abbrev stack : LuaStack ℕ
stack = record { insert = λ n st. lua_insert n st; remove = λ i st. lua_remove i st; pcall = pcall }

abbrev documented_stack : Documented stack
documented_stack = record {
  insert_under = λ n h xs rest e. lua_insert-under n h xs rest e;
  remove_at = λ i h xs rest e. lua_remove-at i h xs rest e;
}

crj_pcall-runs_example : crj_pcall stack 9 2 1 (2 ∷ 1 ∷ 7 ∷ 5 ∷ []) ≡ some (0, 3 ∷ 5 ∷ [])
crj_pcall-runs_example =
    crj_pcall-runs stack documented_stack 9 (2 ∷ 1 ∷ []) 7 (5 ∷ []) 1 0 (3 ∷ []) refl

-- HOME is "h".
abbrev environment : Environment
environment = record { cereja_userdir = none; home = some (b'h' ∷ []); appdata = none }

abbrev buffer : List ℕ
buffer = 1 ∷ 2 ∷ 3 ∷ 4 ∷ 5 ∷ 6 ∷ 7 ∷ 8 ∷ 9 ∷ 10 ∷ 11 ∷ []

no_room : crj_user_directory environment 9 [] ≡ some insufficient_buffer
unfolding crj_user_directory
no_room = refl

-- A path is the handle of its library. Library 3 is no extension, and extension 2 fails.
abbrev system : System
system = record {
  State = ℕ;
  load = λ path s. (get_or path 0 0, s);
  has_main = λ h. not (h == 3);
  run_main = λ event h s. (not (h == 2), s);
}

abbrev fresh : World system
fresh = record { state = 0; calls = [] }

load_extension-Loads_example :
    Loads system
      (load_extension system (3 ∷ []) fresh).0
      []
      (load_extension system (3 ∷ []) fresh).1.calls
load_extension-Loads_example = load_extension-Loads system (3 ∷ []) fresh

session-stops_example :
    let (kept, w) =
      load_all system ((1 ∷ []) ∷ (2 ∷ []) ∷ (3 ∷ []) ∷ (0 ∷ []) ∷ (4 ∷ []) ∷ []) [] fresh in
    (t : World system) × (unload_all_extensions system kept w ≡ some t)
    × (started t.calls ≡ kept)
    × (stopped t.calls ≡ told system kept [])
session-stops_example =
    session-stops system ((1 ∷ []) ∷ (2 ∷ []) ∷ (3 ∷ []) ∷ (0 ∷ []) ∷ (4 ∷ []) ∷ []) 0

-- Of the five, 1 and 4 start.
two_start :
    (load_all system ((1 ∷ []) ∷ (2 ∷ []) ∷ (3 ∷ []) ∷ (0 ∷ []) ∷ (4 ∷ []) ∷ []) [] fresh).0
    ≡ 4 ∷ 1 ∷ []
unfolding load_extension
two_start = refl
