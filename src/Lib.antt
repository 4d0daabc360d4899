-- ===== src/Lib.antt =====
-- The JPEG encoder of jpeg_study, which compresses screen images for USB display adapters, and its
-- results. Paths are given from the repository's root.
--
-- The program: libusbdisp/libenc/jpeg_enc.c encodes an image held as three planes of samples. Its state
-- is `cinfo_t` (libusbdisp/libenc/jpeg_enc.h) and a few static tables. `Initialize` fills the tables for
-- a quality; `WriteHeader` writes the marker segments; `encode` runs `main_encoder`, which takes the
-- image in blocks of 8 by 8 (`load_data_units_from_buffer`), transforms and quantizes them
-- (`fdct_and_quantization`) and codes the coefficients (`process_DU`) with `writebits`; `flashbits` and
-- an EOI marker end the stream.
--
-- The parts:
--   Tables: the constant tables, as lists.
--   Stream: `jpeg_stream_t`, `writebyte`, `writeword`. The stream is the list of the bytes written; the
--     code never checks the room that is left, and the list has no bound.
--   Header: the segment structs (Infos), the functions that write them and `WriteHeader` (Writers), a
--     reader of marker segments that is independent of the encoder (Segments), and the format of the
--     display chip that `GetDQTinfo` writes (Chip).
--   Quant: `set_quant_table`, `set_DQTinfo`, `compute_reciprocal`, `prepare_quant_tables` (Tables), the
--     zigzag order as a permutation (Zigzag), the scaled tables (Scaling), the reciprocals (Reciprocal)
--     and the divisor tables (Prepared).
--   Bits: `writebits` and `flashbits` (Writer) on the fields `jpeg_stream`, `wordnew` and `wordpos`,
--     byte stuffing with a reader that undoes it (Stuffing), and the view of the writer as a queue of
--     bits (Queue, Flush).
--   Huffman: `compute_Huffman_table` and `init_Huffman_tables` (Codes), and a decoder built from the
--     counts and values of a DHT segment alone (Decode, Tables).
--   Entropy: `process_DU` (Magnitude, Block), the bits that the standard gives a block (Code), that
--     these are written (Order, Written, Scan, Loops, Process), and a decoder of blocks that reads them
--     back (Decode).
--   Encoder: `cinfo_t`, the static variables and `Initialize` (Cinfo), the divisor tables behind it
--     (Divisors), `load_data_units_from_buffer` (Load), `main_encoder` and `encode` (Main), the order of the blocks and the end of the loops
--     (Raster), what a decoder reads from the scan (Scan), `encode` (Encode) and a whole file (File).
--   Event: the auto-reset event of libusbdisp/libenc/event.c, with which threads wait for each other: the
--     deadline of `time_wait_event` (Deadline), `set_event`, `wait_event` and `time_wait_event` as steps of
--     any number of threads (Steps), and what holds in every order of the steps (Exclusion).
--   Sse2: `load_data_units_from_buffer` and `process_DU` of libusbdisp/libenc/Optimize_SSE2.h, which the
--     makefile compiles on x86 (`-D _SSE2_`): the intrinsics on lists of lanes (Intrinsics), the functions
--     (Block, Load), and their agreement with the plain ones through a fold over the coefficients (Fold,
--     Plain, Mask, Chunks, Process). The loops over a mask have 16 rounds as fuel, one for each coefficient.
--     The version under `_SSE2_WRITEBLOCK_`, which collects the bit strings of a block first (Rle), is
--     compared with the other (Replay), and its array `RLE` with what is put there (RleRoom).
--   Bmp: `load_bmp` of libusbdisp/jpegenc.c (Headers, Load) and bitmap files as the format describes them
--     (Print), with what is read from them (Fields, RoundTrip, Accepts). A loop that fills a buffer in order
--     is the list of what its rounds fill (Blocks).
--   Frame: `rgb2ycc` and `getBufFormBmp` of libusbdisp/jpegenc.c, which codes a frame in blocks of 32 by 8 pixels:
--     the conversion (Convert), the headers of blocks (BlockHeader), the loops with the comparison of two frames
--     (Blocks), the padding (Padding) and the whole function (Buffer); then what is sent of a frame (Skips,
--     Sent, Whole) and what is not (Dirty, Missed). `unsigned long` has 8 bytes; the padding loop has 32 rounds
--     as fuel, enough from every multiple of 4.
--   Tool: the mode `-j` of `main` in libusbdisp/jpegenc.c, which makes a JPEG file of a bitmap file (SaveJpg), and
--     what is in the file (Saved); the mode `-f`, which prints a file as the text of a C array (Dump), and what a
--     reader finds in it (Dumped). The mode `-b` is `bmp_to_bin` of Frame/Buffer.
--   Hotplug: the callbacks and the loop of the daemon libusbdisp/main.c (Daemon), the order of its calls of the
--     service (Calls), and the frames that it sends (Frames). The loop has no end; a run is a list of rounds,
--     each with the events that libusb delivers in it.
--   Usb: the commands of libusbdisp/jpegenc.c to the display chip (Commands), with the device as the list
--     of its replies to `libusb_control_transfer`, and the order of the transfers (Order). The loops that
--     poll the status have one round more than there are replies, and each takes a reply; a device with no
--     reply left gives no result. PictureFrame is the command to all attached displays.
--   Tests: runs of the functions and the theorems at concrete inputs.
--   Prelude: what the parts share.
--
-- Conventions: a function that changes `cinfo_t` takes the fields that it uses and returns them. Numbers
-- are unbounded, and each wrap of a C type is written out (u8, u16, u32); `int` and `INT16` coefficients
-- are integers. The functions of jpeg_enc.c are the plain ones, with the 32-bit buffer (`_64_BIT_` is
-- not defined); where `_SSE2_` is, two of them are replaced by those of Sse2. Loops with a count are
-- recursion on the rounds left; the two scans in `process_DU` and its loop have 64 rounds as fuel, since
-- every round moves the index; the loops of `main_encoder` have 8193 tests as fuel, which is more than a
-- `WORD` that grows by 8 can make without coming back to 0, and give no result when it runs out.
--
-- Parameters: `jsimd_fdct_ifast` and `jsimd_quantize` are assembler of another project. They are any
-- functions on blocks; results on the scan ask that for samples from -128 to 128 their composition gives
-- coefficients of the 8-bit baseline process. `jsimd_extbgrx_ycc_convert`, of the same project, is any function
-- on a row of pixels. Files and `malloc` are arguments of `load_bmp` and of the mode
-- `-j`; a call of `malloc` succeeds or not by its size.
--
-- Not modelled: the NEON variant, the arguments of the command line tool libusbdisp/jpegenc.c and its modes
-- that send a picture to the device, the screenshots of libusbdisp/main.c, libusbdisp/xrandr.c, the C++
-- classes, the evdi copy under libusbdisp/deb_install, and all input and output.
--
-- What C leaves undefined: where an `int` overflows in `load_bmp`, `time_wait_event` and the mode `-j`, and where
-- that mode uses its buffers beyond their size, the result says so. Elsewhere, as for the bytes of a bitmap
-- file, a read behind the end of a buffer gives 0, and a stream has no bound. The size of a file in the mode
-- `-f` is taken to be below 2^31. The static variables are zero before the first `Initialize`, as C starts them.
pub mod Prelude
pub mod Tables
pub mod Stream
pub mod Header
pub mod Quant
pub mod Bits
pub mod Huffman
pub mod Entropy
pub mod Sse2
pub mod Encoder
pub mod Tests
pub mod Event
pub mod Usb
pub mod Bmp
pub mod Frame
pub mod Tool
pub mod Hotplug
