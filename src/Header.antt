-- ===== src/Header.antt =====
-- The header of a JPEG file, from libusbdisp/libenc/jpeg_enc.c.
pub mod Infos
pub mod Writers
pub mod Segments
pub mod Chip
