-- ===== src/MoreTests.antt =====
-- Concrete hotkeys, starts of the tray and command lines.
use cereja.Prelude.{
  ◌≡◌, true, false, Option, none, some, List, [], ◌∷◌, ◌==◌, if◌then◌else◌, arith, refl,
}
use cereja.Ui.Hotkey
use cereja.Ui.Hotkey.{
  Hotkeys, done, register, reset, hotkey_pressed, register-adds, reset-clears, hotkey_id_max,
}
use cereja.Tray.Lifecycle.{
  Extension, Failure, Answers, failed_to_hook, create_tray_window, destroy_tray_window, released,
  create_tray_window-releases,
}
use cereja.Main.{
  Opt, pre_script, Results, start_lua, run_login, start_cereja, cleanup_cereja, cleanup_lua,
}
use cereja.Main.Runs.{shell_run}

abbrev two_hotkeys : Hotkeys
two_hotkeys = record { count = 2; actions = (0, 10) ∷ (1, 11) ∷ []; registered = 1 ∷ 0 ∷ [] }

two_hotkeys-IsWellFormed : Hotkey.IsWellFormed two_hotkeys
two_hotkeys-IsWellFormed = record { bounded = omega arith; ids = refl }

register-adds_example :
    (next : Hotkeys) × (register true two_hotkeys 12 ≡ done next)
    × Hotkey.IsWellFormed next
    × (hotkey_pressed next 2 ≡ (if 2 == 2 then some 12 else hotkey_pressed two_hotkeys 2))
register-adds_example = register-adds two_hotkeys 12 2 two_hotkeys-IsWellFormed (omega arith)

reset-clears_example :
    Hotkey.IsWellFormed (reset two_hotkeys)
    × ((reset two_hotkeys).registered ≡ [])
    × (hotkey_pressed (reset two_hotkeys) 1 ≡ none)
reset-clears_example = reset-clears two_hotkeys 1 two_hotkeys-IsWellFormed

-- All calls succeed.
abbrev all_well : Answers
all_well = record {
  registers_class = true;
  creates_window = true;
  finds_tray_window = true;
  runs_script = true;
  finds_path = true;
  loads_library = true;
  has_start_hook = true;
  has_end_hook = true;
  starts_hook = true;
  ends_hook = true;
}

abbrev no_hook : Answers
no_hook = record all_well { starts_hook = false }

no_hook_fails : (create_tray_window no_hook (released true)).1 ≡ some failed_to_hook
unfolding create_tray_window
no_hook_fails = refl

create_tray_window-releases_example : (create_tray_window no_hook (released true)).0 ≡ released true
create_tray_window-releases_example =
    create_tray_window-releases no_hook true failed_to_hook no_hook_fails

-- The library does not take its hook away.
abbrev keeps_hook : Answers
keeps_hook = record all_well { ends_hook = false }

abbrev ended : Extension × Option Failure
ended = destroy_tray_window keeps_hook (create_tray_window all_well (released true)).0

abbrev command_line : List Opt
command_line = pre_script (97 ∷ []) ∷ pre_script (98 ∷ []) ∷ []

abbrev login_fails : Results
login_fails = record {
  another_instance = false;
  lua_starts = true;
  pre_script_runs = true;
  login_runs = false;
  main_loop_runs = true;
  logout_runs = true;
}

-- After login.lua has failed there is no main loop.
no_main_loop :
    shell_run login_fails none
    ≡ (false, start_lua ∷ start_cereja ∷ run_login ∷ cleanup_cereja ∷ cleanup_lua ∷ [])
no_main_loop = refl
