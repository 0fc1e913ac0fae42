-- ===== src/Ui.antt =====
-- The user interface extensions of lib/ui.
pub mod Tray
pub mod Hotkey
pub mod Window
pub mod Layout
pub mod Sound
pub mod Monitor
pub mod System
