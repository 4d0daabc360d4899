-- ===== src/Tests/Frame.antt =====
-- The theorems on the frames of libusbdisp/jpegenc.c, and runs.
use jpeg_study.Prelude.{◌+◌, ◌-◌, ◌*◌, ◌%◌, ◌≤◌, ◌<◌, ◌≡◌, refl, arith, length, some}
use jpeg_study.Frame.BlockHeader.{
  block_header, header_word, compress_len, read_len, read_index, read_end, block_header_read_back,
}
use jpeg_study.Frame.Padding.{Padded, pad_stream, pad_lem}

block_header_read_back_example :
    let word = header_word (block_header 333 4321 1) in
    ((read_len word + 1) * 4 ≡ compress_len 333) × (read_index word ≡ 4321) × (read_end word ≡ 1)
block_header_read_back_example =
    block_header_read_back 333 4321 1 (omega arith) (omega arith) (omega arith) (omega arith)

pad_lem_example :
    (p : Padded) × (pad_stream 1000 ≡ some p)
    × (p.streamlen % 128 ≡ 0)
    × (1000 < p.streamlen)
    × (p.streamlen ≤ 1000 + 128)
    × (length p.written ≡ 2 * (p.streamlen - 1000))
pad_lem_example = pad_lem 1000 refl

-- Id 13, the end mark, block 1 and 2 words behind the first, of quality 2.
header_word_test : header_word (block_header 12 1 1) ≡ 0xd800040a
unfolding header_word block_header compress_len
header_word_test = refl
