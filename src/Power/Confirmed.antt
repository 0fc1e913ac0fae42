-- ===== src/Power/Confirmed.antt =====
-- The order of the calls of lib/shell/__init__.c that end the session or suspend the machine.
use cereja.Prelude.{
  ℕ, suc, ◌-◌, ◌≡◌, refl, Bool, true, false, not, ◌&&◌, ◌||◌, List, [], ◌∷◌, arith,
}
use cereja.Power.{
  ExitKind, ewx_logoff, ewx_reboot, ewx_shutdown_poweroff, PowerCall, message_box, token_opened,
  privilege_enabled, token_closed, exit_windows, suspend_state, lock_work_station, Answers,
  PowerFunction, system_hibernate, system_lock, system_logoff, system_reboot, system_shutdown,
  system_suspend, call_power,
}

-- The user has said yes since the last such call.
abbrev pub is_confirmed : List PowerCall → Bool
is_confirmed [] = false
is_confirmed (message_box idyes ∷ log) = idyes
is_confirmed (token_opened ∷ log) = is_confirmed log
is_confirmed (privilege_enabled ∷ log) = is_confirmed log
is_confirmed (token_closed ∷ log) = is_confirmed log
is_confirmed (exit_windows kind ∷ log) = false
is_confirmed (suspend_state hibernate ∷ log) = false
is_confirmed (lock_work_station ∷ log) = false

-- The privilege has been enabled since the user was asked.
abbrev pub is_enabled : List PowerCall → Bool
is_enabled [] = false
is_enabled (message_box idyes ∷ log) = false
is_enabled (token_opened ∷ log) = is_enabled log
is_enabled (privilege_enabled ∷ log) = true
is_enabled (token_closed ∷ log) = is_enabled log
is_enabled (exit_windows kind ∷ log) = false
is_enabled (suspend_state hibernate ∷ log) = false
is_enabled (lock_work_station ∷ log) = false

abbrev pub wants_privilege : ExitKind → Bool
wants_privilege ewx_logoff = false
wants_privilege ewx_reboot = true
wants_privilege ewx_shutdown_poweroff = true

-- The tokens that are open, `none` of which is closed twice.
abbrev pub open_tokens : List PowerCall → ℕ
open_tokens [] = 0
open_tokens (token_opened ∷ log) = suc (open_tokens log)
open_tokens (token_closed ∷ log) = open_tokens log - 1
open_tokens (message_box idyes ∷ log) = open_tokens log
open_tokens (privilege_enabled ∷ log) = open_tokens log
open_tokens (exit_windows kind ∷ log) = open_tokens log
open_tokens (suspend_state hibernate ∷ log) = open_tokens log
open_tokens (lock_work_station ∷ log) = open_tokens log

-- Each end or suspension is confirmed, and has its privilege.
abbrev pub is_allowed : List PowerCall → Bool
is_allowed [] = true
is_allowed (exit_windows kind ∷ log) =
    is_confirmed log && (not (wants_privilege kind) || is_enabled log) && is_allowed log
is_allowed (suspend_state hibernate ∷ log) = is_confirmed log && is_allowed log
is_allowed (message_box idyes ∷ log) = is_allowed log
is_allowed (token_opened ∷ log) = is_allowed log
is_allowed (privilege_enabled ∷ log) = is_allowed log
is_allowed (token_closed ∷ log) = is_allowed log
is_allowed (lock_work_station ∷ log) = is_allowed log

pub record IsOrderly (log : List PowerCall) : Type 0 where
  pub allowed : is_allowed log ≡ true
  pub no_tokens : open_tokens log ≡ 0

call_power-IsOrderly :
    (f : PowerFunction) (a : Answers) (log : List PowerCall)
    → IsOrderly log
    → IsOrderly (call_power f a log).1
unfolding call_power
call_power-IsOrderly system_hibernate a log h = ground arith
call_power-IsOrderly system_lock a log h = ground arith
call_power-IsOrderly system_logoff a log h = ground arith
call_power-IsOrderly system_reboot a log h = ground arith
call_power-IsOrderly system_shutdown a log h = ground arith
call_power-IsOrderly system_suspend a log h = ground arith

-- A sequence of calls, each with its answers.
pub call_powers : List (PowerFunction × Answers) → List PowerCall → List PowerCall
call_powers [] log = log
call_powers ((f, a) ∷ rest) log = call_powers rest (call_power f a log).1

calls-IsOrderly :
    (given : List (PowerFunction × Answers)) (log : List PowerCall)
    → IsOrderly log
    → IsOrderly (call_powers given log)
unfolding call_powers
calls-IsOrderly [] log h = h
calls-IsOrderly ((f, a) ∷ rest) log h =
    calls-IsOrderly rest (call_power f a log).1 (call_power-IsOrderly f a log h)

-- In any sequence of calls of the functions of shell that end the session, suspend the machine or
-- lock it, on any answers, each end of the session and each suspension follows a yes of the user
-- that no other one has used, a reboot or a shut-down has the privilege enabled after it, and no
-- token stays open.
pub call_powers-IsOrderly :
    (given : List (PowerFunction × Answers)) → IsOrderly (call_powers given [])
call_powers-IsOrderly given = calls-IsOrderly given [] (record { allowed = refl; no_tokens = refl })
