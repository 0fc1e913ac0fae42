-- ===== src/Lib.antt =====
-- The C part of cereja, a shell for Windows that is scripted in Lua: the tray service of
-- lib/shell/tray.c, the window of lib/ui/tray.c that shows it, and the reading of arguments and the
-- building of values in src/api.c, by which every C function that Lua calls gets its arguments and
-- gives its results; with them the hotkeys of lib/ui/hotkey.c, the windows of lib/ui/window.c, the
-- loading of extensions in src/builtins.c, the start-up programs of lib/shell/__init__.c, the run
-- of the program in src/main.c, the texts of src/utf8api.c, the hook of lib/shell/tray-hook.c, and the
-- extensions of lib/ui, lib/shell and lib/app for the volume, the monitors, the network, the other
-- windows and the program Snarl.
--
-- How the parts interact. Programs tell the tray of their icons by WM_COPYDATA: `tray_window_proc`
-- takes such a message apart, `tray_message_proc` turns it into a call of `TrayData_AddIcon`,
-- `TrayData_RemoveIcon` or `TrayData_UpdateIcon`, and each change is published to the subscribers of
-- `shell.tray`. The functions that Lua may call, `shell.tray.clean_icon`, `move_icon`,
-- `reset_icons` and `reorder_icons`, change the same array. The window of lib/ui/tray.c reads the
-- array, keeps a cursor in it, and is a subscriber: what is published comes back to it as the posted
-- message UIM_TRAY_UPDATE.
--
-- Which file models which part.
--   Prelude: numbers, Booleans, lists, integers, and arrays cut into pieces.
--   Tray/Notify: the structures of lib/shell/tray.h, with their members' names, and the effects.
--   Tray/TrayIcon: `TrayIcon_Update` and `TrayIcon_New`.
--   Tray/TrayData: `TrayData_*`, on an array that is a list of slots of which `count` are in use.
--   Tray/Window: `tray_message_proc` and `tray_window_proc`.
--   Tray/Api, Tray/Api/IconData: `shell_tray_clean_icon`, `_get_icon_count`, `_get_icon_data`,
--     `_move_icon`, `_reset_icons` and `_reorder_icons`.
--   Tray/Live, Tray/Spec: the tray as a list of icons, without the array, and the operations on it;
--     Tray/TrayIcon/Members has the members of an icon that is updated.
--   Tray/History: sequences of messages and calls.
--   Ui/Tray, Ui/Tray/Commands, Ui/Tray/Events: the cursor, the commands and the messages of
--     `ui_window_proc`.
--   Ui/Tray/Keys: `KeyTable_*`.
--   Args, Args/Scalars, Args/Machine: `Crj_ParseArgs`, `Crj_ParseTable`, `parse_item`, `skip_item`,
--     `parse_table_item` and `parse_table`, on a format that is the list of its characters.
--     Args/Patterns has the formats of items in tables, with the values that agree with them.
--   Build, Build/Scalars, Build/Machine: `Crj_BuildValues` and `build_a_value`. Build/Prints has the
--     values that formats print, and the calls of Lua that they stand for; Build/Heights has the
--     height of the stack.
--   Ui/Window, Ui/Window/Style, Ui/Window/Names: the functions of lib/ui/window.c that change windows
--     or give their names, with `GetNextAppWindow` and `GetBottomTopmostWindow`, over the window system
--     of Ui/Window/Desktop.
--   Ui/Layout: `ui_window_resize` and `ui_window_paint` of lib/ui/tray.c.
--   Ui/Sound: the volume and the muting of lib/ui/sound.c, over the mixer of Windows.
--   Ui/Monitor: the rectangles of lib/ui/monitor.c.
--   Ui/System: the tables of the network adapters and parameters of lib/ui/system.c.
--   ShellWindow: `shell_window_proc`, the start and the end of lib/shell/window.c.
--   Power: the functions of lib/shell/__init__.c that end the session or suspend the machine.
--   Snarl: the messages of lib/app/snarl.c.
--   Utf8: the conversions of src/utf8api.c, `FormatMessageU`, `GetModuleFileNameU` and `Utf8_GetEnv`.
--   Errors: `Crj_PushWindowsError` of src/api.c.
--   Calls: `Crj_PCall`, `Crj_Call` and `Crj_CPCall`, over Lua's functions on the stack.
--   Directories: `Crj_UserDirectory` and `Crj_SystemDirectory`, and `load_lua_part` of src/builtins.c.
--   Extensions: `cereja__load_extension` and `unload_all_extensions` of src/builtins.c.
--   Startup: `run_registry_items`, `run_folder_items` and `_shell_run_startup_programs`, over the
--     registry of Startup/Registry.
--   Tray/Hook: lib/shell/tray-hook.c, in the processes that share its variables.
--   Tray/Lifecycle: `Hook_Start`, `Hook_End`, `create_tray_window` and `destroy_tray_window`.
--   Ui/Hotkey: the hotkeys of lib/ui/hotkey.c.
--   Main, Main/Runs, Main/Window, Main/Paths: `process_command_line_options`, `inner_main`, `main_window_proc`,
--     `run_file` and the arguments of `main`, of src/main.c.
--   Tests, ArgsTests, BuildTests, ApiTests, TextTests, DesktopTests, DeviceTests, StartupTests,
--     MoreTests: concrete trays, messages, formats, stacks, buffers, libraries, texts, windows, mixers,
--     monitors, registries, hotkeys and command lines.
--
-- How state and operations correspond. A static variable of the C code is a field of a record that
-- is passed on; a function returns the new state with the effects in their order. An access
-- outside an array, or through a slot that holds a freed icon, is `none`, so a theorem that an
-- operation returns says that there is none. Handles and unsigned words are numbers, `int` is the
-- integers without a bound, since all of them here lie near the number of icons; Snarl's `int_of` is a
-- word of 32 bits as an `int`. Texts are lists of
-- UTF-16 units. Lua's values and the functions that read them are a parameter (`Lua` of
-- Args/Machine). Windows is a parameter: `is_window` answers IsWindow, `is_pressed` GetKeyState.
--
-- Loops. A loop with a counter runs for the rounds that its bounds leave. The loop of
-- `shell_tray_move_icon` runs on fuel, one more than the number of icons, which is enough because
-- each round brings the index nearer to its end. parse_item and parse_table run on fuel, three for
-- each character of the format and three more; out of fuel is an outcome of its own. build_a_value
-- and its loop over a table run on fuel, two for each character and one more. The loops of
-- lib/ui/window.c and of lib/shell/__init__.c run for a number of rounds, which is enough where it is
-- more than the windows or the values there are.
--
-- Posted messages. Windows hands a thread its posted messages in their order and before the input of
-- the user; so Ui/Tray/Events handles what an event posted before the next event.
--
-- In src/api.c, an argument that is not there, or of another type than the format says, is the
-- outcome `fault`, and so is the NULL that Crj_ParseTable gives for the flag of optional arguments.
--
-- Texts. The conversions between UTF-16 and UTF-8 are a parameter (`Converter` of Utf8), and `Converts`
-- says what their documentation says. A buffer is the list of its characters, and a write that leaves
-- it is `none`.
--
-- Calls of other code. Crj_BuildValues, the functions of lib/ui/window.c and the start-up programs
-- keep the calls that they make in a log, the last one first. The window system and the registry are
-- parameters, which each call may change; what theorems need of the registry is the record `Documented`
-- of Startup/Registry, by which RegEnumValue fails where the buffers that it is given have no room.
--
-- Not modelled: Lua itself (the stack's values, the registry, the subscribers' list of
-- lib/shell/tray.lua), fonts and colours, and what only passes on an answer of Windows or Lua: the
-- extensions ui.key and ui.ime, the wrappers of src/utf8api.c but those named above, the notices, and the bit functions and the functions of os in src/builtins.c.
pub mod Prelude
pub mod Utf8
pub mod Tray
pub mod Ui
pub mod Args
pub mod Build
pub mod Calls
pub mod Directories
pub mod Errors
pub mod Extensions
pub mod Startup
pub mod Power
pub mod Snarl
pub mod ShellWindow
pub mod Main
pub mod Tests
pub mod ArgsTests
pub mod MoreTests
pub mod BuildTests
pub mod DesktopTests
pub mod ApiTests
pub mod StartupTests
pub mod TextTests
pub mod DeviceTests
