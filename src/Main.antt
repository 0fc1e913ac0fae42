-- ===== src/Main.antt =====
-- src/main.c: the options of the command line, and the run of the shell from its start to its end.
-- The results of getopt_long, of Lua and of Windows are given.
pub mod Runs
pub mod Window
pub mod Paths
use cereja.Prelude.{
  ℕ, ◌≡◌, Bool, true, false, not, Option, none, some, List, [], ◌∷◌, ◌++◌, arith, refl,
  if◌then◌else◌,
}

abbrev pub Text : Type 0
Text = List ℕ

-- A result of getopt_long with `optarg`.
pub data Opt : Type 0 where
  invalid missing_argument : Opt
  exec : Text → Opt
  pre_script : Text → Opt
  file : Text → Opt
  help : Opt
  test : Text → Opt
  version : Opt

-- What the program does to the outside, in order.
pub data Act : Type 0 where
  notice_invalid notice_missing notice_running : Act
  send_script : Text → Act
  show_help show_version : Act
  run_test : Text → Act
  start_lua start_cereja : Act
  run_pre_script : Text → Act
  run_login main_loop run_logout : Act
  cleanup_cereja cleanup_lua : Act

-- "dofile('" and "')"
abbrev dofile_open : Text
dofile_open = 100 ∷ 111 ∷ 102 ∷ 105 ∷ 108 ∷ 101 ∷ 40 ∷ 39 ∷ []

abbrev dofile_close : Text
dofile_close = 39 ∷ 41 ∷ []

-- What process_command_line_options leaves: whether the program is done, `*p_pre_script`, and what it
-- did.
pub record Options : Type 0 where
  pub is_done : Bool
  pub script : Option Text
  pub acts : List Act

-- The loop over the options, which end with -1 at the end of the list.
unfoldable pub options_loop : List Opt → Options → Options
options_loop [] s = s
options_loop (invalid ∷ opts) s = record s { is_done = true; acts = s.acts ++ notice_invalid ∷ [] }
options_loop (missing_argument ∷ opts) s = record s {
  is_done = true;
  acts = s.acts ++ notice_missing ∷ [];
}
options_loop (exec t ∷ opts) s =
    options_loop opts (record s { is_done = true; acts = s.acts ++ send_script t ∷ [] })
options_loop (pre_script t ∷ opts) s = options_loop opts (record s { script = some t })
options_loop (file t ∷ opts) s = options_loop opts (record s {
  is_done = true;
  acts = s.acts ++ send_script (dofile_open ++ (t ++ dofile_close)) ∷ [];
})
options_loop (help ∷ opts) s = record s { is_done = true; acts = s.acts ++ show_help ∷ [] }
options_loop (test t ∷ opts) s = record s { is_done = true; acts = s.acts ++ run_test t ∷ [] }
options_loop (version ∷ opts) s = record s { is_done = true; acts = s.acts ++ show_version ∷ [] }

unfoldable pub process_command_line_options : List Opt → Options
unfolding options_loop
process_command_line_options opts =
    options_loop opts (record { is_done = false; script = none; acts = [] })

-- The results of the calls of inner_main.
pub record Results : Type 0 where
  pub another_instance : Bool
  pub lua_starts : Bool
  pub pre_script_runs : Bool
  pub login_runs : Bool
  pub main_loop_runs : Bool
  pub logout_runs : Bool

-- The chain of `&&`: its result and what was run.
unfoldable pub run_scripts : Results → Option Text → Bool × List Act
run_scripts r script =
    let logout : Bool × List Act = (r.logout_runs, run_logout ∷ []) in
    let loop : Bool × List Act =
      if r.main_loop_runs then (logout.0, main_loop ∷ logout.1) else (false, main_loop ∷ []) in
    let login : Bool × List Act =
      if r.login_runs then (loop.0, run_login ∷ loop.1) else (false, run_login ∷ []) in
    elim script [
      | none ↦ login
      | some t ↦
          if r.pre_script_runs
          then (login.0, run_pre_script t ∷ login.1)
          else (false, run_pre_script t ∷ [])
    ]

-- EXIT_SUCCESS, and what was done.
unfoldable pub inner_main : Results → List Opt → Bool × List Act
unfolding process_command_line_options run_scripts
inner_main r opts =
    let o = process_command_line_options opts in
    if o.is_done
    then (true, o.acts)
    else if r.another_instance
    then (false, o.acts ++ notice_running ∷ [])
    else if not r.lua_starts
    then (false, o.acts ++ start_lua ∷ [])
    else (
      (run_scripts r o.script).0,
      o.acts
          ++ (start_lua
              ∷ start_cereja
              ∷ ((run_scripts r o.script).1 ++ cleanup_cereja ∷ cleanup_lua ∷ [])),
    )
