-- ===== src/Bmp.antt =====
-- `load_bmp` of libusbdisp/jpegenc.c: Windows bitmap files of 24 and 32 bits.
pub mod Blocks
pub mod Headers
pub mod Load
pub mod Print
pub mod Fields
pub mod RoundTrip
pub mod Accepts
