-- ===== src/Encoder.antt =====
-- The encoder of libusbdisp/libenc/jpeg_enc.c above its parts: `Initialize`, the loading of blocks,
-- `main_encoder` and `encode`.
pub mod Cinfo
pub mod Load
pub mod Main
pub mod Raster
pub mod Scan
pub mod Encode
pub mod File
pub mod Divisors
