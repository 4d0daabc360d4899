-- ===== src/Tests.antt =====
-- Runs of the model of libusbdisp/libenc/jpeg_enc.c at concrete inputs, and the theorems applied to some.
mod Data
mod Encoder
mod Entropy
mod Bits
mod Tables
mod Event
mod Usb
mod Frame
mod Sse2
mod Bmp
mod Dirty
mod Tool
mod Hotplug
