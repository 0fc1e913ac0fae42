-- ===== src/Main/Runs.antt =====
-- `inner_main` of src/main.c: its options, and the scripts between the start and the end of the shell.
use cereja.Prelude.{Bool, true, false, not, Option, none, some, List, [], ◌∷◌, ◌++◌, if◌then◌else◌}
use cereja.Main.{
  Text, Opt, invalid, missing_argument, exec, pre_script, file, help, test, version, Act,
  notice_invalid, notice_missing, notice_running, send_script, show_help, show_version, run_test,
  start_lua, start_cereja, run_pre_script, run_login, main_loop, run_logout, cleanup_cereja,
  cleanup_lua, dofile_open, dofile_close, Results,
}

-- The options that only set the script that is run first.
abbrev pub only_pre_scripts : List Opt → Bool
only_pre_scripts [] = true
only_pre_scripts (pre_script t ∷ opts) = only_pre_scripts opts
only_pre_scripts (_ ∷ opts) = false

abbrev pub last_pre_script : Option Text → List Opt → Option Text
last_pre_script s [] = s
last_pre_script s (pre_script t ∷ opts) = last_pre_script (some t) opts
last_pre_script s (_ ∷ opts) = last_pre_script s opts

-- What an option does at once, and whether the options behind it are left unread.
abbrev act_of : Opt → List Act
act_of invalid = notice_invalid ∷ []
act_of missing_argument = notice_missing ∷ []
act_of (exec t) = send_script t ∷ []
act_of (pre_script t) = []
act_of (file t) = send_script (dofile_open ++ (t ++ dofile_close)) ∷ []
act_of help = show_help ∷ []
act_of (test t) = run_test t ∷ []
act_of version = show_version ∷ []

abbrev is_last : Opt → Bool
is_last (exec t) = false
is_last (pre_script t) = false
is_last (file t) = false
is_last _ = true

abbrev pub options_acts : List Opt → List Act
options_acts [] = []
options_acts (opt ∷ opts) = act_of opt ++ (if is_last opt then [] else options_acts opts)

-- Steps in their order, up to the first that fails; a success is one of them all.
abbrev until_failure : List (Act × Bool) → Bool × List Act
until_failure [] = (true, [])
until_failure ((act, succeeds) ∷ steps) =
    let (all, acts) = until_failure steps in
    if succeeds then (all, act ∷ acts) else (false, act ∷ [])

-- The scripts and the main loop, with their results.
abbrev shell_steps : Results → List (Act × Bool)
shell_steps r =
    (run_login, r.login_runs) ∷ (main_loop, r.main_loop_runs) ∷ (run_logout, r.logout_runs) ∷ []

abbrev steps : Results → Option Text → List (Act × Bool)
steps r none = shell_steps r
steps r (some t) = (run_pre_script t, r.pre_script_runs) ∷ shell_steps r

-- A run with no option but -E.
abbrev pub shell_run : Results → Option Text → Bool × List Act
shell_run r script =
    let (succeeds, acts) = until_failure (steps r script) in
    if r.another_instance
    then (false, notice_running ∷ [])
    else if not r.lua_starts
    then (false, start_lua ∷ [])
    else (succeeds, start_lua ∷ start_cereja ∷ (acts ++ cleanup_cereja ∷ cleanup_lua ∷ []))
