-- ===== src/DeviceTests.antt =====
-- The mixer, the monitors, the network adapters, the hook and the window of shell.window, on concrete
-- devices, processes and messages.
use mathlib.Core.Path.{subst}
use cereja.Prelude.{
  ℕ, ◌+◌, ◌≡◌, ◌↔◌, refl, true, false, none, some, List, [], ◌∷◌, replicate, length-replicate,
  length, ◌==◌, if◌then◌else◌, arith,
}
use cereja.Prelude.Int.{ℤ, pos, neg, ◌+ℤ◌, ◌-ℤ◌, ◌*ℤ◌}
use cereja.Ui.Sound.{Mixer, MixerControl, MixerCall, World, volume_is, set_volume}
use cereja.Ui.Sound.Volumes.{IsShort, Sets, set_volume-Sets}
use cereja.Ui.Sound.Returns.{HasShortControls}
use cereja.Ui.Sound.Sessions.{
  sets_volume, toggles_mute, gets_mute, IsTidy, nil-IsTidy, call_all, call_all-IsTidy,
}
use cereja.Ui.Monitor.{
  MonitorInfo, get_info, VirtualScreen, placement_of, get_vscreen_placement, set_workarea, find_all,
}
use cereja.Ui.Monitor.WorkArea.{set_workarea-get_info, set_workarea-default}
use cereja.Ui.System.{Adapter, Heap, MemoryCall, returned, get_network_adapter}
use cereja.Ui.System.Mac.{joined}
use cereja.Ui.System.Tables.{Allocates, numbered, live_blocks, get_network_adapter-gives}
use cereja.Power.{
  Answers, exit_windows, ewx_reboot, token_closed, privilege_enabled, token_opened, message_box,
  system_reboot, system_lock, system_suspend, call_power,
}
use cereja.Power.Confirmed.{IsOrderly, call_powers, call_powers-IsOrderly}
use cereja.ShellWindow.{Memory, other, shell_window_proc}
use cereja.Tray.Hook.Runs.{
  HookEvent, attaches, detaches, starts, ends, run_events, all_refused, IsHooked, new,
  run_events-new,
}

-- A mixer with one control whose value is its state.
abbrev control : MixerControl
control = record { id = 7; minimum = pos 0; maximum = pos 65535 }

abbrev mixer : Mixer
mixer = record {
  State = ℕ;
  open_mixer = λ s. (some 3, s);
  close_mixer = λ m s. s;
  get_line_info = λ m s. some (1, 2);
  get_line_controls = λ m l c type s. some control;
  get_details = λ m i s. s;
  set_details = λ m i v s. v;
}

-- "50%" is fifty, and "+1" is one.
abbrev atoi : List ℕ → ℤ
atoi order = if length order == 3 then pos 50 else pos 1

abbrev loud : World mixer
loud = record { state = 60000; calls = [] }

fifty :
    set_volume mixer atoi (b'5' ∷ b'0' ∷ b'%' ∷ []) loud
    ≡ some (
      volume_is (pos 32768) (pos 0) (pos 65535),
      record {
        state = 32768;
        calls = MixerCall.closed 3 ∷ MixerCall.set_value 3 7 32768 ∷ MixerCall.opened 3 ∷ [];
      },
    )
unfolding set_volume ◌-ℤ◌ ◌*ℤ◌ ◌+ℤ◌
fifty = refl

set_volume-Sets_example :
    Sets mixer atoi loud
      (record {
        state = 32768;
        calls = MixerCall.closed 3 ∷ MixerCall.set_value 3 7 32768 ∷ MixerCall.opened 3 ∷ [];
      })
      (pos 32768)
      (pos 0)
      (pos 65535)
set_volume-Sets_example =
    set_volume-Sets mixer atoi b'5' (b'0' ∷ b'%' ∷ []) loud _ (pos 32768) (pos 0) (pos 65535) fifty
      (omega arith)

control-IsShort : IsShort control
control-IsShort = record {
  low = 0;
  high = 65535;
  minimum_is = refl;
  maximum_is = refl;
  ordered = omega arith;
  short = omega arith;
}

all_short : HasShortControls mixer
all_short m l c type s mc e =
    let same : control ≡ mc = cc e in subst (λ x. IsShort x) same control-IsShort

call_all-IsTidy_example :
    (u : World mixer) × (call_all mixer atoi
        (sets_volume (b'+' ∷ b'1' ∷ []) ∷ toggles_mute ∷ gets_mute ∷ [])
        loud
      ≡ some u)
    × IsTidy u.calls
call_all-IsTidy_example =
    call_all-IsTidy mixer atoi (sets_volume (b'+' ∷ b'1' ∷ []) ∷ toggles_mute ∷ gets_mute ∷ []) loud
      all_short ((omega arith, omega arith), (tt, (tt, tt))) nil-IsTidy

-- A screen to the left of the primary one.
abbrev screen : VirtualScreen
screen = record {
  x_virtual_screen = neg 100;
  y_virtual_screen = pos 0;
  cx_virtual_screen = pos 300;
  cy_virtual_screen = pos 200;
}

abbrev primary : MonitorInfo
primary = record {
  monitor = record { left = pos 0; top = pos 0; right = pos 200; bottom = pos 200 };
  work = record { left = pos 0; top = pos 10; right = pos 200; bottom = pos 200 };
  flags = 1;
}

set_workarea-get_info_example :
    (set_workarea screen (some (get_info primary).placement) ≡ primary.monitor)
    × (set_workarea screen (some (get_info primary).workarea) ≡ primary.work)
unfolding get_info ◌-ℤ◌
set_workarea-get_info_example = set_workarea-get_info screen primary refl refl

set_workarea-default_example :
    (placement_of (set_workarea screen none) ≡ get_vscreen_placement screen)
    ↔ ((neg 100 ≡ pos 0) × (pos 0 ≡ pos 0))
set_workarea-default_example = set_workarea-default screen

-- The right edge is 400 instead of 200.
too_far : (set_workarea screen none).right ≡ pos 400
unfolding set_workarea ◌-ℤ◌
too_far = refl

two_monitors : find_all (5 ∷ 6 ∷ []) ≡ (1, 5) ∷ (2, 6) ∷ []
unfolding find_all
two_monitors = refl

abbrev heap : Heap
heap = record { place = λ i. i + 10; block = λ size. replicate size 1 }

allocates : Allocates heap
allocates = record { placed = λ i e. absurd (omega arith); sized = λ size. length-replicate size 1 }

abbrev adapter : Adapter
adapter = record {
  adapter_name = b'a' ∷ [];
  description = [];
  address = 0 ∷ 0xab ∷ [];
  ip_address = [];
  ip_mask = [];
  gateway = [];
  dhcp_server = [];
}

-- "00:ab"
in_hexadecimal : joined (0 ∷ 0xab ∷ []) ≡ b'0' ∷ b'0' ∷ b':' ∷ b'a' ∷ b'b' ∷ []
in_hexadecimal = refl

get_network_adapter-gives_example :
    (after : List MemoryCall) × (get_network_adapter heap 9 (some (adapter ∷ [])) []
      ≡ some (returned (numbered (adapter ∷ []) 0), after))
    × (live_blocks after ≡ 9 ∷ live_blocks [])
get_network_adapter-gives_example =
    get_network_adapter-gives heap 9 (adapter ∷ []) [] allocates (λ e. absurd (omega arith), tt)

-- The program starts the hook, and the process of the other shell ends before the program does.
abbrev events : List HookEvent
events =
    attaches 1 40
    ∷ starts 1 70 80 90
    ∷ attaches 2 41
    ∷ detaches true
    ∷ ends true
    ∷ starts 1 71 80 91
    ∷ ends false
    ∷ starts 1 72 80 92
    ∷ []

run_events-new_example : IsHooked (run_events events new) (all_refused events new [])
run_events-new_example = run_events-new events

one_refused : all_refused events new [] ≡ 91 ∷ []
unfolding all_refused
one_refused = refl

-- WM_ShellHook is 50000, and no address is one of a SHELLHOOKINFO.
abbrev no_memory : Memory
no_memory = record { window_at = λ a. none }

-- A message to paint, where the variable holds 1.
paint_is_published :
    shell_window_proc no_memory 50000 1 true (other 15 0 7)
    ≡ some (record { msg = 15; event = 1; window = 7 } ∷ [], true)
unfolding shell_window_proc
paint_is_published = refl

-- Before WM_CREATE it is published to no Lua.
no_lua_yet : shell_window_proc no_memory 50000 1 false (other 36 0 7) ≡ none
unfolding shell_window_proc
no_lua_yet = refl

-- The user confirms the reboot, and Windows adjusts the privilege.
abbrev agreed : Answers
agreed = record {
  idyes = true;
  opens_token = true;
  finds_privilege = true;
  adjusts = true;
  locks = true;
}

call_powers-IsOrderly_example : IsOrderly (
    call_powers
      ((system_reboot, agreed) ∷ (system_lock, agreed) ∷ (system_suspend, agreed) ∷ [])
      [])
call_powers-IsOrderly_example =
    call_powers-IsOrderly
      ((system_reboot, agreed) ∷ (system_lock, agreed) ∷ (system_suspend, agreed) ∷ [])

reboots :
    (call_power system_reboot agreed []).1
    ≡ exit_windows ewx_reboot
      ∷ token_closed
      ∷ privilege_enabled
      ∷ token_opened
      ∷ message_box true
      ∷ []
unfolding call_power
reboots = refl
