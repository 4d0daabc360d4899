-- ===== src/Sse2.antt =====
-- libusbdisp/libenc/Optimize_SSE2.h: the versions of `load_data_units_from_buffer` and `process_DU` that
-- the makefile compiles (`-D _SSE2_`), and their agreement with those of jpeg_enc.c.
pub mod Intrinsics
pub mod Block
pub mod Fold
pub mod Plain
pub mod Mask
pub mod Chunks
pub mod Process
pub mod Load
pub mod Rle
pub mod Replay
pub mod RleRoom
