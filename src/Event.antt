-- ===== src/Event.antt =====
-- The auto-reset event of libusbdisp/libenc/event.c.
pub mod Deadline
pub mod Steps
pub mod Exclusion
