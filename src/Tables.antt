-- ===== src/Tables.antt =====
-- The constant tables at the head of libusbdisp/libenc/jpeg_enc.c.
pub mod Quantization
pub mod Codes
