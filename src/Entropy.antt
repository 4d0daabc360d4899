-- ===== src/Entropy.antt =====
-- Entropy coding of blocks: `process_DU` of libusbdisp/libenc/jpeg_enc.c.
pub mod Magnitude
pub mod Block
pub mod Code
pub mod Written
pub mod Scan
pub mod Order
pub mod Loops
pub mod Process
pub mod Decode
