-- ===== src/Encoder/File.antt =====
-- `Initialize`, `WriteHeader` and `encode` of libusbdisp/libenc/jpeg_enc.c, one behind the other: a whole
-- JPEG file.
use jpeg_study.Prelude.{
  ℕ, ◌≤◌, ◌≡◌, refl, sym, ap, ◌∙◌, List, [], ◌++◌, length, length-append, some,
}
use jpeg_study.Tables.Quantization.{std_luminance_qt, std_chrominance_qt}
use jpeg_study.Header.Writers.{write_header, set_dht_info}
use jpeg_study.Header.Segments.{read_header}
use jpeg_study.Header.Segments.WriteHeader.{scaled_table, header_segments, read_header-encoder}
use jpeg_study.Quant.Tables.{set_dqt_info}
use jpeg_study.Encoder.Cinfo.{
  Cinfo, Globals, IsReady, IsStatic, initialize_globals, initialize, initialize_globals-IsReady,
}
use jpeg_study.Encoder.Main.{Jsimd, encode}
use jpeg_study.Encoder.Scan.{IsTransform}
use jpeg_study.Encoder.Encode.{IsScanOf, encode-IsScanOf}

-- `WriteHeader`, on `cinfo`.
unfoldable pub write_header_to : Globals → ℕ → ℕ → Cinfo → Cinfo
write_header_to g width height cinfo =
    let stream = write_header cinfo.dqt_info g.dht_info width height cinfo.writer.jpeg_stream in
    record cinfo { writer = record cinfo.writer { jpeg_stream = stream } }

-- `cinfo` when `encode` is called.
abbrev pub prepared : Globals → ℕ → ℕ → ℕ → Cinfo → Cinfo
prepared g quality width height cinfo =
    write_header_to (initialize_globals g) width height (initialize quality cinfo)

module _ (g : Globals) (quality width height : ℕ) (cinfo : Cinfo)
    (ready : IsReady (initialize_globals g)) (empty : cinfo.writer.jpeg_stream ≡ []) where
  -- The stream then holds the header alone.
  prepared-stream :
      (prepared g quality width height cinfo).writer.jpeg_stream
      ≡ write_header (set_dqt_info quality cinfo.dqt_info) set_dht_info width height []
  unfolding write_header_to initialize
  prepared-stream = rw (ready.1, empty) refl

-- A file written by `Initialize`, `WriteHeader` and `encode` into an empty stream, for an image of at
-- most 65528 columns and rows, quantization tables of 64 entries, static variables that hold the standard
-- tables or, before the first `Initialize`, zeros, and a transform that gives baseline coefficients, is read back:
-- `encode` ends, a reader of marker segments finds the header of that quality and size and hands on the
-- bytes behind it, and these are the scan data of the image.
pub encode-file :
    (j : Jsimd) (g : Globals) (quality width height : ℕ) (cinfo : Cinfo)
    → IsStatic g
    → cinfo.writer.jpeg_stream ≡ []
    → length cinfo.dqt_info.y_table ≡ 64
    → length cinfo.dqt_info.cb_table ≡ 64
    → cinfo.ximage ≤ 65528
    → cinfo.yimage ≤ 65528
    → IsTransform j ((initialize quality cinfo).divisors.divisor_y)
    → IsTransform j ((initialize quality cinfo).divisors.divisor_cb)
    → (result : Cinfo) × (scan : List ℕ) × (encode j
          (initialize_globals g)
          (prepared g quality width height cinfo)
        ≡ some (result, length result.writer.jpeg_stream))
      × (read_header 6 result.writer.jpeg_stream
          ≡ some (
            header_segments
                (scaled_table std_luminance_qt quality)
                (scaled_table std_chrominance_qt quality)
                width
                height,
            scan,
          ))
      × IsScanOf j (prepared g quality width height cinfo) scan
encode-file j g quality width height cinfo h empty ly lcb narrow low ty tcb =
    let ready = initialize_globals-IsReady g h in
    let c = prepared g quality width height cinfo in
    let r =
      encode-IsScanOf j (initialize_globals g) c ready (unfold write_header_to initialize in narrow)
        (unfold write_header_to initialize in low) (unfold write_header_to initialize in ty)
        (unfold write_header_to initialize in tcb) in
    let stream = prepared-stream g quality width height cinfo ready empty in
    let size = sym (length-append c.writer.jpeg_stream r.1) ∙ ap length (sym r.3) in
    (
      r.0,
      r.1,
      r.2 ∙ ap (λ (n : ℕ). some (r.0, n)) size,
      ap (read_header 6) (r.3 ∙ ap (λ s. s ++ r.1) stream)
          ∙ read_header-encoder quality width height cinfo.dqt_info r.1 ly lcb,
      r.4,
    )
