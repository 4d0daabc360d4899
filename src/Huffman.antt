-- ===== src/Huffman.antt =====
-- The Huffman codes of libusbdisp/libenc/jpeg_enc.c.
pub mod Codes
pub mod Decode
pub mod Tables
