-- ===== src/Tests/Encoder.antt =====
-- The theorems on the encoder of libusbdisp/libenc/jpeg_enc.c as a whole, at the image of 8 by 8.
use jpeg_study.Prelude.{ℕ, ◌+◌, ◌*◌, ◌%◌, ◌<◌, ◌≡◌, refl, arith, none, some}
use jpeg_study.Prelude.{List, [], ◌++◌, length, get_or, foldl, All, All-map, range_from}
use jpeg_study.Prelude.Int.{pos, ◌-ℤ◌}
use jpeg_study.Tables.Quantization.{std_luminance_qt, std_chrominance_qt}
use jpeg_study.Header.Segments.{read_header}
use jpeg_study.Header.Segments.WriteHeader.{scaled_table, header_segments}
use jpeg_study.Encoder.Cinfo.{Cinfo, initialize, initialize_globals}
use jpeg_study.Encoder.Divisors.{HasDivisor, initialize-HasDivisor}
use jpeg_study.Encoder.Load.{load_component, load_component-sample}
use jpeg_study.Encoder.Main.{encode, main_encoder, MainState, x_loop}
use jpeg_study.Encoder.Raster.{raster, encode_at, main_encoder-raster, x_loop-wraps}
use jpeg_study.Encoder.Encode.{IsScanOf, encode-IsScanOf}
use jpeg_study.Encoder.File.{prepared, encode-file}
use jpeg_study.Tests.Data.{
  fresh, fresh-IsStatic, filled, small_cinfo, samples, no_transform, no_transform-IsTransform,
}

encode-file_example :
    (result : Cinfo) × (scan : List ℕ) × (encode no_transform
        (initialize_globals fresh)
        (prepared fresh 50 8 8 small_cinfo)
      ≡ some (result, length result.writer.jpeg_stream))
    × (read_header 6 result.writer.jpeg_stream
        ≡ some (
          header_segments
              (scaled_table std_luminance_qt 50)
              (scaled_table std_chrominance_qt 50)
              8
              8,
          scan,
        ))
    × IsScanOf no_transform (prepared fresh 50 8 8 small_cinfo) scan
encode-file_example =
    encode-file no_transform fresh 50 8 8 small_cinfo fresh-IsStatic refl refl refl (omega arith)
      (omega arith) (no_transform-IsTransform _) (no_transform-IsTransform _)

encode-IsScanOf_example :
    (result : Cinfo) × (scan : List ℕ) × (encode no_transform filled small_cinfo
      ≡ some (result, 0 + length scan))
    × (result.writer.jpeg_stream ≡ [] ++ scan)
    × IsScanOf no_transform small_cinfo scan
encode-IsScanOf_example =
    encode-IsScanOf no_transform filled small_cinfo (refl, refl, refl, refl) (omega arith)
      (omega arith) (no_transform-IsTransform _) (no_transform-IsTransform _)

abbrev wide_cinfo : Cinfo
wide_cinfo = record small_cinfo { ximage = 65529 }

abbrev start_of : Cinfo → MainState
start_of cinfo = record { cinfo = cinfo; dcy = pos 0; dccb = pos 0; dccr = pos 0 }

main_encoder-raster_example :
    main_encoder no_transform filled small_cinfo
    ≡ some ((foldl (encode_at no_transform filled) (start_of small_cinfo) (raster 8 1 0)).cinfo)
main_encoder-raster_example =
    main_encoder-raster no_transform filled small_cinfo (omega arith) (omega arith)

x_loop-wraps_example : x_loop no_transform filled 9000 0 0 (start_of wide_cinfo) ≡ none
x_loop-wraps_example =
    x_loop-wraps no_transform filled 9000 0 0 (start_of wide_cinfo) (omega arith) refl (omega arith)

samples_bytes : All (λ p. p < 256) samples
samples_bytes = All-map (λ p. p < 256) (λ i. i * 37 % 256) (range_from 64 0) (λ i. omega arith)

load_component-sample_example :
    (get_or (load_component samples 8 0 0) (8 * 3 + 5) (pos 0)
      ≡ pos (get_or samples ((0 + 3) * 8 + (0 + 5)) 0) -ℤ pos 128)
    × ((0 + 3) * 8 + (0 + 5) < length samples)
load_component-sample_example =
    load_component-sample samples 8 8 0 0 3 5 refl samples_bytes (omega arith) (omega arith)
      (omega arith) (omega arith) (omega arith)

-- Coefficient 63, of quality 80.
initialize-HasDivisor_example :
    HasDivisor (get_or std_luminance_qt 63 0) 80 63 ((initialize 80 small_cinfo).divisors.divisor_y)
    × HasDivisor
        (get_or std_chrominance_qt 63 0)
        80
        63
        ((initialize 80 small_cinfo).divisors.divisor_cb)
initialize-HasDivisor_example =
    initialize-HasDivisor 80 63 small_cinfo (omega arith) refl refl (refl, refl) (omega arith)
