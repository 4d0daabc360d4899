-- ===== src/Bmp/Headers.antt =====
-- `BITMAPFILEHEADER` and `BITMAPINFOHEADER` of libusbdisp/jpegenc.c, packed, as they lie in a file on a
-- little-endian machine.
use jpeg_study.Prelude.{ℕ, ◌+◌, ◌-◌, ◌*◌, ◌^◌, ltb, if◌then◌else◌, List, get_or}
use jpeg_study.Prelude.Int.{ℤ, pos, negsuc}

-- A byte of the file; a read behind its end, which C leaves undefined, gives 0.
abbrev pub byte : List ℕ → ℕ → ℕ
byte file i = get_or file i 0

unfoldable pub read16 : List ℕ → ℕ → ℕ
read16 file i = byte file i + 2 ^ 8 * byte file (i + 1)

unfoldable pub read32 : List ℕ → ℕ → ℕ
read32 file i =
    byte file i
    + 2 ^ 8 * byte file (i + 1)
    + 2 ^ 16 * byte file (i + 2)
    + 2 ^ 24 * byte file (i + 3)

-- An `int` from its 32 bits.
unfoldable pub from_u32 : ℕ → ℤ
from_u32 w = if ltb w (2 ^ 31) then pos w else negsuc (2 ^ 32 - w - 1)

pub record BitmapFileHeader : Type 0 where
  pub bf_type : ℕ
  pub bf_size : ℕ
  pub bf_reserved1 : ℕ
  pub bf_reserved2 : ℕ
  pub bf_off_bits : ℕ

pub record BitmapInfoHeader : Type 0 where
  pub bi_size : ℕ
  pub bi_width : ℤ
  pub bi_height : ℤ
  pub bi_planes : ℕ
  pub bi_bit_count : ℕ
  pub bi_compression : ℕ
  pub bi_size_image : ℕ
  pub bi_x_pels_per_meter : ℤ
  pub bi_y_pels_per_meter : ℤ
  pub bi_clr_used : ℕ
  pub bi_clr_important : ℕ

-- `(BITMAPFILEHEADER *)pfile`.
unfoldable pub file_header : List ℕ → BitmapFileHeader
file_header file = record {
  bf_type = read16 file 0;
  bf_size = read32 file 2;
  bf_reserved1 = read16 file 6;
  bf_reserved2 = read16 file 8;
  bf_off_bits = read32 file 10;
}

-- `(BITMAPINFOHEADER *)(pfile + sizeof(BITMAPFILEHEADER))`.
unfoldable pub info_header : List ℕ → BitmapInfoHeader
info_header file = record {
  bi_size = read32 file 14;
  bi_width = from_u32 (read32 file 18);
  bi_height = from_u32 (read32 file 22);
  bi_planes = read16 file 26;
  bi_bit_count = read16 file 28;
  bi_compression = read32 file 30;
  bi_size_image = read32 file 34;
  bi_x_pels_per_meter = from_u32 (read32 file 38);
  bi_y_pels_per_meter = from_u32 (read32 file 42);
  bi_clr_used = read32 file 46;
  bi_clr_important = read32 file 50;
}
