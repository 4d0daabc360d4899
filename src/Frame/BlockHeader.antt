-- ===== src/Frame/BlockHeader.antt =====
-- `BlockHeader_t` of libusbdisp/jpegenc.c and the header that `getBufFormBmp` gives a block. The bit fields
-- lie from the low bit on, as GCC places them on little-endian machines.
use jpeg_study.Prelude.{ℕ, ◌+◌, ◌-◌, ◌*◌, ◌/◌, ◌%◌, ◌^◌, ◌≤◌, ◌<◌, ◌≡◌, arith}

pub record BlockHeader : Type 0 where
  pub quality : ℕ
  pub len : ℕ
  pub block_index : ℕ
  pub reserved0 : ℕ
  pub end : ℕ
  pub id : ℕ

-- The 32 bits of a header; an assignment to a field keeps the bits that fit.
unfoldable pub header_word : BlockHeader → ℕ
header_word h =
    h.quality % 4
    + h.len % 2 ^ 8 * 2 ^ 2
    + h.block_index % 2 ^ 16 * 2 ^ 10
    + h.reserved0 % 2 * 2 ^ 26
    + h.end % 2 * 2 ^ 27
    + h.id % 16 * 2 ^ 28

-- `(encode(&cinfo) + 3) & 0xFFFFFFFC` for the number of bytes of a block.
unfoldable pub compress_len : ℕ → ℕ
compress_len bytes = (bytes + 3) / 4 * 4

-- The header of block `blk_cnt`; `last` is 1 for the block in the last place. The code sets `quality` to
-- HEADER_QUA, 2, and `id` to 13. `(compress_len / 4) - 1` is an `int`, of which the field keeps 8 bits; 256 is
-- added since `-` stops at 0.
unfoldable pub block_header : ℕ → ℕ → ℕ → BlockHeader
block_header bytes blk_cnt last = record {
  quality = 2;
  len = (compress_len bytes / 4 + 256 - 1) % 2 ^ 8;
  block_index = blk_cnt % 2 ^ 16;
  reserved0 = 0;
  end = last;
  id = 13;
}

-- The fields that the chip reads from the word.
abbrev pub read_len : ℕ → ℕ
read_len word = word / 2 ^ 2 % 2 ^ 8

abbrev pub read_index : ℕ → ℕ
read_index word = word / 2 ^ 10 % 2 ^ 16

abbrev pub read_end : ℕ → ℕ
read_end word = word / 2 ^ 27 % 2

-- The chip reads the index and the end mark of a header back, for at most 2^16 blocks, and the length if the
-- coded block is from 1 to 1024 bytes long: `len` words and one more are the bytes, rounded up.
pub block_header_read_back :
    (bytes blk_cnt last : ℕ)
    → 1 ≤ bytes
    → bytes ≤ 1024
    → blk_cnt < 2 ^ 16
    → last ≤ 1
    → let word = header_word (block_header bytes blk_cnt last) in
      ((read_len word + 1) * 4 ≡ compress_len bytes)
      × (read_index word ≡ blk_cnt)
      × (read_end word ≡ last)
unfolding header_word block_header compress_len
block_header_read_back bytes blk_cnt last low high index mark =
    (omega arith, omega arith, omega arith)

-- A coded block of more than 1024 bytes does not fit the field: the length read is shorter than the block.
pub block_header_too_long :
    (bytes blk_cnt last : ℕ)
    → 1024 < bytes
    → (read_len (header_word (block_header bytes blk_cnt last)) + 1) * 4 < compress_len bytes
unfolding header_word block_header compress_len
block_header_too_long bytes blk_cnt last long = omega arith
