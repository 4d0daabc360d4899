-- ===== src/Tests/Entropy.antt =====
-- The theorems on the entropy coder of libusbdisp/libenc/jpeg_enc.c, at a block with a run of 20 zeros,
-- behind a writer that holds 5 bits.
use jpeg_study.Prelude.{◌^◌, ◌≡◌, refl, arith, Bool, true, false, some}
use jpeg_study.Prelude.{List, [], ◌∷◌, ◌++◌, ltb, ltb→lt, get_or, set, replicate}
use jpeg_study.Prelude.Below.{all_below, all_below_sound}
use jpeg_study.Prelude.Int.{ℤ, pos, negsuc, magnitude, ◌-ℤ◌}
use jpeg_study.Bits.Queue.{Carries}
use jpeg_study.Tables.Quantization.{zigzag}
use jpeg_study.Huffman.Tables.{y_code, y_code-IsComplete}
use jpeg_study.Entropy.Block.{process_du, find_end, zigzag_loop, zigzag_order}
use jpeg_study.Entropy.Code.{block_bits, in_scan_order}
use jpeg_study.Entropy.Process.{IsCodable, process_du-Carries}
use jpeg_study.Entropy.Order.{zigzag_order_lem}
use jpeg_study.Entropy.Decode.{decode_block}
use jpeg_study.Entropy.Decode.Block.{process_du-Decodes}
use jpeg_study.Tests.Data.{begun_writer, begun-Carries}

-- Coefficients 0, 1 and 35; between the last two stand more than 16 zeros of the scan.
abbrev block : List ℤ
block = set (set (set (replicate 64 (pos 0)) 0 (negsuc 4)) 1 (pos 3)) 35 (negsuc 0)

small_at : all_below 64 (λ k. ltb (magnitude (get_or block k (pos 0))) (2 ^ 10)) ≡ true
unfolding all_below
small_at = refl

block-IsCodable : IsCodable (pos 7) block
unfolding ◌-ℤ◌
block-IsCodable = record {
  dc_small = omega arith;
  ac_small = λ k p q.
      ltb→lt _ _
        (all_below_sound 64 (λ k. ltb (magnitude (get_or block k (pos 0))) (2 ^ 10)) k small_at q);
}

abbrev begun : List Bool
begun = true ∷ false ∷ true ∷ false ∷ true ∷ []

process_du-Decodes_example :
    (coded : List Bool) × Carries
      (0x12 ∷ [])
      (begun ++ coded)
      ((process_du block (pos 7) y_code.ht begun_writer).writer)
    × ((more : List Bool)
        → decode_block y_code (pos 7) (coded ++ more) ≡ some (in_scan_order block, more))
process_du-Decodes_example =
    process_du-Decodes y_code y_code-IsComplete (0x12 ∷ []) begun begun_writer block (pos 7)
      block-IsCodable begun-Carries

process_du-Carries_example :
    Carries
      (0x12 ∷ [])
      (begun ++ block_bits y_code.ht (pos 7) block)
      ((process_du block (pos 7) y_code.ht begun_writer).writer)
process_du-Carries_example =
    process_du-Carries (0x12 ∷ []) y_code block (pos 7) begun begun_writer y_code-IsComplete
      block-IsCodable begun-Carries

zigzag_order_lem_example : zigzag_order block ≡ in_scan_order block
zigzag_order_lem_example = zigzag_order_lem block

-- The last coefficient of the scan that is not 0.
find_end_test : find_end (zigzag_order block) 63 ≡ 32
unfolding find_end zigzag_loop zigzag_order zigzag
find_end_test = refl
