-- ===== src/Quant.antt =====
-- Quantization tables: `set_quant_table`, `set_DQTinfo`, `flss`, `compute_reciprocal` and
-- `prepare_quant_tables` of libusbdisp/libenc/jpeg_enc.c.
pub mod Tables
pub mod Zigzag
pub mod Scaling
pub mod Reciprocal
pub mod Prepared
