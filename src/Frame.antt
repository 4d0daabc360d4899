-- ===== src/Frame.antt =====
-- The stream of a frame, made of coded blocks behind block headers, in libusbdisp/jpegenc.c.
pub mod BlockHeader
pub mod Padding
pub mod Convert
pub mod Blocks
pub mod Buffer
pub mod Skips
pub mod Sent
pub mod Missed
pub mod Dirty
pub mod Whole
