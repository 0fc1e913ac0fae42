-- ===== src/Tray.antt =====
-- The shell extension's tray service, lib/shell/tray.c and lib/shell/tray.h.
pub mod Notify
pub mod TrayIcon
pub mod TrayData
pub mod Window
pub mod Lifecycle
pub mod Hook
pub mod Api
pub mod Live
pub mod Spec
pub mod History
