-- ===== src/Tests/Tables.antt =====
-- The theorems on the header and the tables of libusbdisp/libenc/jpeg_enc.c, and runs of its functions.
use jpeg_study.Prelude.{◌+◌, ◌/◌, ◌≡◌, refl, arith, some}
use jpeg_study.Prelude.{[], ◌∷◌, ◌++◌, length, get_or, replicate}
use jpeg_study.Tables.Quantization.{std_luminance_qt, std_chrominance_qt, zigzag, aanscales}
use jpeg_study.Header.Writers.{write_header, set_dht_info, get_dqt_info}
use jpeg_study.Header.Segments.{read_header}
use jpeg_study.Header.Segments.WriteHeader.{scaled_table, header_segments, read_header-encoder}
use jpeg_study.Header.Chip.{chip_format, row_table, get_dqt_info-set_dqt_info}
use jpeg_study.Quant.Tables.{
  set_quant_table, set_dqt_info, compute_reciprocal, divisor_of, descaled,
}
use jpeg_study.Quant.Zigzag.{scanned}
use jpeg_study.Quant.Scaling.{IsScaled, set_quant_table-IsScaled}
use jpeg_study.Quant.Reciprocal.{
  multiply_twice, compute_reciprocal-rounds, compute_reciprocal-vanishes,
}
use jpeg_study.Tests.Data.{blank_dqt}

read_header-encoder_example :
    read_header 6 (write_header (set_dqt_info 80 blank_dqt) set_dht_info 640 480 [] ++ (0x55 ∷ []))
    ≡ some (
      header_segments
          (scaled_table std_luminance_qt 80)
          (scaled_table std_chrominance_qt 80)
          640
          480,
      0x55 ∷ [],
    )
read_header-encoder_example = read_header-encoder 80 640 480 blank_dqt (0x55 ∷ []) refl refl

get_dqt_info-set_dqt_info_example :
    (get_dqt_info (set_dqt_info 80 blank_dqt) (7 ∷ [])
      ≡ (7 ∷ []) ++ chip_format (row_table std_luminance_qt 80) (row_table std_chrominance_qt 80))
    × (length (get_dqt_info (set_dqt_info 80 blank_dqt) (7 ∷ [])) ≡ 1 + 138)
get_dqt_info-set_dqt_info_example = get_dqt_info-set_dqt_info 80 blank_dqt (7 ∷ []) refl refl

set_quant_table-IsScaled_example :
    IsScaled
      (get_or std_luminance_qt (scanned 8) 0)
      40
      (get_or (set_quant_table std_luminance_qt 40 (replicate 64 9)) 8 0)
set_quant_table-IsScaled_example =
    set_quant_table-IsScaled std_luminance_qt 40 (replicate 64 9) 8 refl (omega arith)

compute_reciprocal-rounds_example :
    multiply_twice (compute_reciprocal 88) 1000 ≡ (1000 + 88 / 2) / 88
compute_reciprocal-rounds_example =
    compute_reciprocal-rounds 88 1000 (omega arith) (omega arith) (omega arith)

compute_reciprocal-vanishes_example : multiply_twice (compute_reciprocal 2) 1000 ≡ 0
compute_reciprocal-vanishes_example = compute_reciprocal-vanishes 2 1000 (omega arith) (omega arith)

-- At quality 100 the divisor of the last coefficient is 1.
divisor_test : divisor_of (replicate 64 1) 63 ≡ 1
unfolding divisor_of descaled zigzag aanscales
divisor_test = refl
