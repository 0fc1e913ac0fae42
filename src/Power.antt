-- ===== src/Power.antt =====
-- The functions of lib/shell/__init__.c that end the session or suspend the machine. What the user and Windows
-- answer is given; the calls are kept in a log, the last one first.
pub mod Confirmed
use cereja.Prelude.{ℕ, ◌+◌, Bool, true, false, not, ◌&&◌, List, [], ◌∷◌, if◌then◌else◌}

-- What ExitWindowsEx is called with: EWX_LOGOFF, EWX_REBOOT, and EWX_SHUTDOWN with EWX_POWEROFF.
pub data ExitKind : Type 0 where
  ewx_logoff ewx_reboot ewx_shutdown_poweroff : ExitKind

pub data PowerCall : Type 0 where
  message_box : (idyes : Bool) → PowerCall
  token_opened : PowerCall
  privilege_enabled : PowerCall
  token_closed : PowerCall
  exit_windows : ExitKind → PowerCall
  suspend_state : (hibernate : Bool) → PowerCall
  lock_work_station : PowerCall

-- The answer of the user, and whether the calls for the privilege succeed.
pub record Answers : Type 0 where
  pub idyes : Bool
  pub opens_token : Bool
  pub finds_privilege : Bool
  pub adjusts : Bool
  pub locks : Bool

-- A Boolean that is returned, or the error of set_privilege_to_shutdown.
pub data PowerResult : Type 0 where
  gives : Bool → PowerResult
  adjusting_failed : PowerResult

pub confirm_user_permission : Answers → List PowerCall → Bool × List PowerCall
confirm_user_permission a log = (a.idyes, message_box a.idyes ∷ log)

-- Whether it returns, and the log. A privilege that is not adjusted is not enabled.
pub set_privilege_to_shutdown : Answers → List PowerCall → Bool × List PowerCall
set_privilege_to_shutdown a log =
    if not a.opens_token
    then (false, log)
    else if not a.finds_privilege
    then (false, token_closed ∷ token_opened ∷ log)
    else if not a.adjusts
    then (false, token_closed ∷ token_opened ∷ log)
    else (true, token_closed ∷ privilege_enabled ∷ token_opened ∷ log)

-- The functions that ask the user first.
pub confirmed_call : PowerCall → Answers → List PowerCall → PowerResult × List PowerCall
unfolding confirm_user_permission
confirmed_call last a log =
    let (idyes, asked) = confirm_user_permission a log in
    if idyes then (gives true, last ∷ asked) else (gives false, asked)

-- The two that set the privilege too.
pub privileged_exit : ExitKind → Answers → List PowerCall → PowerResult × List PowerCall
unfolding confirm_user_permission set_privilege_to_shutdown
privileged_exit kind a log =
    let (idyes, asked) = confirm_user_permission a log in
    let (returns, ready) = set_privilege_to_shutdown a asked in
    if idyes
    then (if returns then (gives true, exit_windows kind ∷ ready) else (adjusting_failed, ready))
    else (gives false, asked)

pub data PowerFunction : Type 0 where
  system_hibernate system_lock system_logoff : PowerFunction
  system_reboot system_shutdown system_suspend : PowerFunction

unfoldable pub call_power : PowerFunction → Answers → List PowerCall → PowerResult × List PowerCall
unfolding confirmed_call privileged_exit
call_power system_hibernate a log = confirmed_call (suspend_state true) a log
call_power system_lock a log = (gives a.locks, lock_work_station ∷ log)
call_power system_logoff a log = confirmed_call (exit_windows ewx_logoff) a log
call_power system_reboot a log = privileged_exit ewx_reboot a log
call_power system_shutdown a log = privileged_exit ewx_shutdown_poweroff a log
call_power system_suspend a log = confirmed_call (suspend_state false) a log
