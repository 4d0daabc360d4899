-- ===== src/Hotplug.antt =====
-- The daemon libusbdisp/main.c, which sends the screen to a display as long as one is attached.
pub mod Daemon
pub mod Calls
pub mod Frames
