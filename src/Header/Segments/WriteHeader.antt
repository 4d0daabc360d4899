-- ===== src/Header/Segments/WriteHeader.antt =====
-- `WriteHeader` of libusbdisp/libenc/jpeg_enc.c against the reader.
use mathlib.Core.Path.{ap₂}
use jpeg_study.Prelude.{ℕ, ◌/◌, ◌%◌, ◌<◌, ◌≡◌, refl, arith, u16, u8, ◌∙◌}
use jpeg_study.Prelude.{List, [], ◌∷◌, ◌++◌, some, map, range_from, get_or, drop}
use jpeg_study.Prelude.{map-range_ext, length}
use jpeg_study.Tables.Codes.{
  std_dc_luminance_nrcodes, std_dc_luminance_values, std_dc_chrominance_nrcodes,
  std_dc_chrominance_values, std_ac_luminance_nrcodes, std_ac_luminance_values,
  std_ac_chrominance_nrcodes, std_ac_chrominance_values,
}
use jpeg_study.Tables.Quantization.{std_luminance_qt, std_chrominance_qt}
use jpeg_study.Header.Infos.{DqtInfo}
use jpeg_study.Header.Writers.{write_header, set_dht_info}
use jpeg_study.Header.Segments.{Segment, read_header, frame_height, frame_width}
use jpeg_study.Quant.Tables.{quant_entry, scale_of_quality, set_quant_table, set_dqt_info}
use jpeg_study.Quant.Scaling.{quant_entry_bounds, set_quant_table_lem}
use jpeg_study.Quant.Zigzag.{scanned, scanned-lt, place-scanned}

abbrev table_bytes : List ℕ → List ℕ
table_bytes table = map (λ j. u8 (get_or table j 0)) (range_from 64 0)

abbrev dqt_of : List ℕ → List ℕ → DqtInfo
dqt_of y cb = record {
  marker = 0xffdb;
  len = 132;
  qt_y_info = 0;
  y_table = y;
  qt_cb_info = 1;
  cb_table = cb;
}

-- The frame header's body: 8 bits a sample, height, width, and three components with no subsampling.
abbrev pub sof_body : ℕ → ℕ → List ℕ
sof_body width height =
    8
    ∷ u8 (u16 height / 256)
    ∷ u8 (u16 height % 256)
    ∷ u8 (u16 width / 256)
    ∷ u8 (u16 width % 256)
    ∷ 3
    ∷ 1
    ∷ 0x11
    ∷ 0
    ∷ 2
    ∷ 0x11
    ∷ 1
    ∷ 3
    ∷ 0x11
    ∷ 1
    ∷ []

-- The four Huffman tables: class and number, counts of the lengths 1 to 16, values.
abbrev pub dht_body : List ℕ
dht_body =
    (0 ∷ drop 1 std_dc_luminance_nrcodes ++ std_dc_luminance_values)
    ++ (0x10 ∷ drop 1 std_ac_luminance_nrcodes ++ std_ac_luminance_values)
    ++ (1 ∷ drop 1 std_dc_chrominance_nrcodes ++ std_dc_chrominance_values)
    ++ (0x11 ∷ drop 1 std_ac_chrominance_nrcodes ++ std_ac_chrominance_values)

-- The segments of a header with the given two quantization tables.
abbrev pub header_segments : List ℕ → List ℕ → ℕ → ℕ → List Segment
header_segments y cb width height =
    record {
      code = 0xe0;
      body = b'J' ∷ b'F' ∷ b'I' ∷ b'F' ∷ 0 ∷ 1 ∷ 1 ∷ 0 ∷ 0 ∷ 1 ∷ 0 ∷ 1 ∷ 0 ∷ 0 ∷ [];
    }
    ∷ record { code = 0xdb; body = 0 ∷ y }
    ∷ record { code = 0xdb; body = 1 ∷ cb }
    ∷ record { code = 0xc0; body = sof_body width height }
    ∷ record { code = 0xc4; body = dht_body }
    ∷ record { code = 0xda; body = 3 ∷ 1 ∷ 0 ∷ 2 ∷ 0x11 ∷ 3 ∷ 0x11 ∷ 0 ∷ 0x3f ∷ 0 ∷ [] }
    ∷ []

read_header-write_header :
    (y cb : List ℕ) (width height : ℕ) (scan : List ℕ)
    → read_header 6 (write_header (dqt_of y cb) set_dht_info width height [] ++ scan)
      ≡ some (header_segments (table_bytes y) (table_bytes cb) width height, scan)
unfolding read_header write_header set_dht_info std_dc_luminance_nrcodes std_dc_luminance_values
    std_dc_chrominance_nrcodes std_dc_chrominance_values std_ac_luminance_nrcodes
    std_ac_luminance_values std_ac_chrominance_nrcodes std_ac_chrominance_values
read_header-write_header y cb w h s = refl

-- The table that a decoder should read: entry `k` of the scan is the basic entry of the coefficient
-- that stands there, scaled for the quality.
abbrev pub scaled_table : List ℕ → ℕ → List ℕ
scaled_table basic quality =
    map (λ k. quant_entry (get_or basic (scanned k) 0) (scale_of_quality quality)) (range_from 64 0)

pub table_bytes-set_quant_table :
    (basic : List ℕ) (quality : ℕ) (t : List ℕ)
    → length t ≡ 64
    → table_bytes (set_quant_table basic (scale_of_quality quality) t) ≡ scaled_table basic quality
table_bytes-set_quant_table basic quality t l = map-range_ext _ _ 64 0 (λ k p q. entry k q)
  where
    entry :
        (k : ℕ)
        → k < 64
        → u8 (get_or (set_quant_table basic (scale_of_quality quality) t) k 0)
          ≡ quant_entry (get_or basic (scanned k) 0) (scale_of_quality quality)
    entry k q =
        let found =
          set_quant_table_lem basic (scale_of_quality quality) t (scanned k) l (scanned-lt k q) in
        rw (rw (place-scanned k q) at found) (
          omega (arith, quant_entry_bounds (get_or basic (scanned k) 0) (scale_of_quality quality)))

-- On quantization tables of 64 entries, a reader of JPEG headers accepts what `WriteHeader` writes into
-- an empty stream for any quality and size, whatever data follows, and finds the JFIF segment, the two tables scaled for the quality in scan order, the
-- frame, the four standard Huffman tables and the scan header, and then exactly that data.
pub read_header-encoder :
    (quality width height : ℕ) (dqt : DqtInfo) (scan : List ℕ)
    → length dqt.y_table ≡ 64
    → length dqt.cb_table ≡ 64
    → read_header 6 (write_header (set_dqt_info quality dqt) set_dht_info width height [] ++ scan)
      ≡ some (
        header_segments
            (scaled_table std_luminance_qt quality)
            (scaled_table std_chrominance_qt quality)
            width
            height,
        scan,
      )
unfolding set_dqt_info
read_header-encoder quality width height dqt scan ly lcb =
    read_header-write_header _ _ width height scan
    ∙ ap₂ (λ y cb. some (header_segments y cb width height, scan))
        (table_bytes-set_quant_table std_luminance_qt quality dqt.y_table ly)
        (table_bytes-set_quant_table std_chrominance_qt quality dqt.cb_table lcb)

-- The frame header states the height and the width, each reduced to 16 bits.
pub frame_size :
    (width height : ℕ)
    → (frame_width (sof_body width height) ≡ u16 width)
      × (frame_height (sof_body width height) ≡ u16 height)
unfolding frame_width frame_height
frame_size width height = (omega arith, omega arith)
