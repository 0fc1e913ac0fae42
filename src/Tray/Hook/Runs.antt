-- ===== src/Tray/Hook/Runs.antt =====
-- Sequences of calls of lib/shell/tray-hook.c.
use cereja.Prelude.{
  remove, ℕ, ◌≡◌, refl, Bool, true, not, ◌&&◌, ◌||◌, List, [], ◌∷◌, ◌==◌, if◌then◌else◌, arith,
}
use cereja.Tray.Hook.{
  null, HookCall, installed, removed, HookState, start_hook, end_hook, attach, detach,
}

-- A process loads or unloads the library, or calls one of its functions. What Windows answers is given.
pub data HookEvent : Type 0 where
  attaches : (process dll_instance : ℕ) → HookEvent
  detaches : (answer : Bool) → HookEvent
  starts : (process tray_window callback_window answer : ℕ) → HookEvent
  ends : (answer : Bool) → HookEvent

pub run_event : HookEvent → HookState → HookState
unfolding start_hook end_hook attach detach
run_event (attaches process dll_instance) s = attach process dll_instance s
run_event (detaches answer) s = detach answer s
run_event (starts process tray_window callback_window answer) s =
    (start_hook process tray_window callback_window answer s).1
run_event (ends answer) s = (end_hook answer s).1

pub run_events : List HookEvent → HookState → HookState
unfolding run_event
run_events [] s = s
run_events (e ∷ es) s = run_events es (run_event e s)

-- The hooks that are installed after the calls.
pub live : List HookCall → List ℕ
live [] = []
live (installed h ∷ cs) = h ∷ live cs
live (removed h ∷ cs) = remove h (live cs)

-- Where `g_HHook` is NULL there is no hook but those that stay, and no window; else it is one hook
-- more, between two windows.
pub record IsHooked (s : HookState) (stay : List ℕ) : Type 0 where
  pub live_hooks : live s.calls ≡ (if s.h_hook == null then stay else s.h_hook ∷ stay)
  pub windows :
      (if s.h_hook == null
        then (s.tray_window == null) && (s.callback_window == null)
        else not (s.tray_window == s.callback_window))
      ≡ true

-- The hook whose removal Windows refuses at an event.
abbrev refuse : (answer : Bool) → HookState → List ℕ → List ℕ
refuse answer s stay = if answer || (s.h_hook == null) then stay else s.h_hook ∷ stay

pub refused : HookEvent → HookState → List ℕ → List ℕ
refused (attaches process dll_instance) s stay = stay
refused (detaches answer) s stay = refuse answer s stay
refused (starts process tray_window callback_window answer) s stay = stay
refused (ends answer) s stay = refuse answer s stay

unfoldable pub all_refused : List HookEvent → HookState → List ℕ → List ℕ
unfolding refused run_event
all_refused [] s stay = stay
all_refused (e ∷ es) s stay = all_refused es (run_event e s) (refused e s stay)

start_hook-IsHooked :
    (process tray_window callback_window answer : ℕ) (s : HookState) (stay : List ℕ)
    → IsHooked s stay
    → IsHooked (start_hook process tray_window callback_window answer s).1 stay
unfolding start_hook live
start_hook-IsHooked process tray_window callback_window answer s stay h = ground arith

end_hook-IsHooked :
    (answer : Bool) (s : HookState) (stay : List ℕ)
    → IsHooked s stay
    → IsHooked (end_hook answer s).1 (refuse answer s stay)
unfolding end_hook live
end_hook-IsHooked answer s stay h = ground arith

run_event-IsHooked :
    (e : HookEvent) (s : HookState) (stay : List ℕ)
    → IsHooked s stay
    → IsHooked (run_event e s) (refused e s stay)
unfolding run_event refused
run_event-IsHooked (attaches process dll_instance) s stay h =
    unfold attach in record { live_hooks = h.live_hooks; windows = h.windows }
run_event-IsHooked (detaches answer) s stay h = unfold detach in end_hook-IsHooked answer s stay h
run_event-IsHooked (starts process tray_window callback_window answer) s stay h =
    start_hook-IsHooked process tray_window callback_window answer s stay h
run_event-IsHooked (ends answer) s stay h = end_hook-IsHooked answer s stay h

pub run_events-IsHooked :
    (es : List HookEvent) (s : HookState) (stay : List ℕ)
    → IsHooked s stay
    → IsHooked (run_events es s) (all_refused es s stay)
unfolding run_events all_refused
run_events-IsHooked [] s stay h = h
run_events-IsHooked (e ∷ es) s stay h =
    run_events-IsHooked es (run_event e s) (refused e s stay) (run_event-IsHooked e s stay h)

-- The library is loaded into no process.
abbrev pub new : HookState
new = record {
  h_module = λ p. null;
  h_hook = null;
  tray_window = null;
  callback_window = null;
  calls = [];
}

new-IsHooked : IsHooked new []
unfolding live
new-IsHooked = record { live_hooks = refl; windows = refl }

-- After any sequence of loadings and unloadings of the hook library in any processes, and of
-- starts and ends of the hook, the hooks that are installed are those whose removal Windows
-- refused and, just where g_HHook is not NULL, that hook; where it is NULL so are both windows,
-- and else they differ.
pub run_events-new : (es : List HookEvent) → IsHooked (run_events es new) (all_refused es new [])
run_events-new es = run_events-IsHooked es new [] new-IsHooked
