-- ===== src/Tests/Sse2.antt =====
-- The theorems on libusbdisp/libenc/Optimize_SSE2.h, at a block with runs of zeros across chunks of 16, and runs.
use jpeg_study.Prelude.{◌*◌, ◌^◌, ◌≤◌, ◌≡◌, refl, arith, List, length, get_or, set, replicate}
use jpeg_study.Prelude.Int.{ℤ, pos, negsuc, ◌-ℤ◌, IsI16}
use jpeg_study.Huffman.Tables.{y_code}
use jpeg_study.Entropy.Block.{process_du}
use jpeg_study.Encoder.Load.{load_data_units_from_buffer}
use jpeg_study.Sse2.Intrinsics.{load_si128, cmpeq_zero_epi16, movemask_epi8, ctz}
use jpeg_study.Sse2.Block.{nonzero_bits, process_du_sse2}
use jpeg_study.Sse2.Process.{process_du_sse2-process_du}
use jpeg_study.Sse2.Rle.{rle_of, process_du_rle}
use jpeg_study.Sse2.Replay.{process_du_rle-process_du_sse2}
use jpeg_study.Sse2.RleRoom.{length-rle_of}
use jpeg_study.Sse2.Load.{load_data_units_sse2, load_data_units_sse2_lem}
use jpeg_study.Tests.Data.{begun_writer, small_cinfo}

abbrev block : List ℤ
block = set (set (set (replicate 64 (pos 0)) 0 (negsuc 4)) 1 (pos 3)) 35 (negsuc 0)

block-IsI16 : IsI16 (get_or block 0 (pos 0) -ℤ pos 7)
unfolding ◌-ℤ◌
block-IsI16 = omega arith

process_du_sse2-process_du_example :
    process_du_sse2 block (pos 7) y_code.ht begun_writer
    ≡ process_du block (pos 7) y_code.ht begun_writer
process_du_sse2-process_du_example =
    process_du_sse2-process_du block (pos 7) y_code.ht begun_writer block-IsI16

process_du_rle-process_du_sse2_example :
    process_du_rle block (pos 7) y_code.ht begun_writer
    ≡ process_du_sse2 block (pos 7) y_code.ht begun_writer
process_du_rle-process_du_sse2_example =
    process_du_rle-process_du_sse2 block (pos 7) y_code.ht begun_writer

-- A block without a zero takes the whole array.
length-rle_of_example : length (rle_of (replicate 64 (pos 5)) (pos 7) y_code.ht) ≤ 128
length-rle_of_example = length-rle_of (replicate 64 (pos 5)) (pos 7) y_code.ht

load_data_units_sse2_lem_example :
    load_data_units_sse2 0 0 small_cinfo ≡ load_data_units_from_buffer 0 0 small_cinfo
load_data_units_sse2_lem_example = load_data_units_sse2_lem 0 0 small_cinfo

-- Two bits for each of coefficients 0, 1 and 35 of the list.
nonzero_bits_test : nonzero_bits block 0 ≡ 0xf
unfolding nonzero_bits load_si128 cmpeq_zero_epi16 movemask_epi8
nonzero_bits_test = refl

ctz_test : ctz 32 (3 * 4 ^ 5) ≡ 10
unfolding ctz
ctz_test = refl
