-- ===== src/Tool.antt =====
-- The command line tool libusbdisp/jpegenc.c: what its `main` does with a bitmap file.
pub mod SaveJpg
pub mod Saved
pub mod Dump
pub mod Dumped
