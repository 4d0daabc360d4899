-- ===== src/Bits.antt =====
-- The bit writer of libusbdisp/libenc/jpeg_enc.c.
pub mod Writer
pub mod Digits
pub mod Stuffing
pub mod Fields
pub mod Write
pub mod Queue
pub mod Flush
