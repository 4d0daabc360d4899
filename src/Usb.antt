-- ===== src/Usb.antt =====
-- The USB commands of libusbdisp/jpegenc.c.
pub mod Commands
pub mod Order
pub mod PictureFrame
