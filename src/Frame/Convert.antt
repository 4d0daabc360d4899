-- ===== src/Frame/Convert.antt =====
-- `rgb2ycc` of libusbdisp/jpegenc.c, for any conversion of a row, which the code takes from an assembler
-- library.
use jpeg_study.Prelude.{ℕ, ◌+◌, ◌*◌, ◌/◌, List, get_or, map, range_from}
use jpeg_study.Bmp.Blocks.{filled}
use jpeg_study.Encoder.Cinfo.{Cinfo}

-- What `jsimd_extbgrx_ycc_convert` leaves in the rows `component[0]`, `component[1]` and `component[2]` for one
-- row of pixels of four bytes.
pub record YccRow : Type 0 where
  pub component0 : List ℕ
  pub component1 : List ℕ
  pub component2 : List ℕ

-- The conversion of a row of a number of pixels.
abbrev pub YccConvert : Type 0
YccConvert = ℕ → List ℕ → YccRow

-- The bytes of a row of `width` pixels; a read behind the end of the buffer gives 0.
unfoldable pub pixel_row : List ℕ → ℕ → ℕ → List ℕ
pixel_row raw p_src width = map (λ i. get_or raw i 0) (range_from (width * 4) p_src)

-- The loops for one component: `y` counts groups of 8 rows, and `p_src` grows by `stride * 4` for each row.
unfoldable pub convert_rows : YccConvert → (YccRow → List ℕ) → ℕ → ℕ → ℕ → List ℕ → ℕ → List ℕ
convert_rows convert component stride width8 height8 raw p_src = filled ((height8 + 7) / 8) 0 (λ y.
    filled 8 0
      (λ i. component (convert width8 (pixel_row raw (p_src + (y * 8 + i) * (stride * 4)) width8))))

-- `pVRow[i] = pYRow[i] + imagesize` and `pURow[i] = pVRow[i] + imagesize`: `component[2]` fills what `cinfo` calls
-- `Cb_buffer`, and `component[1]` its `Cr_buffer`.
unfoldable pub rgb2ycc : YccConvert → ℕ → ℕ → ℕ → List ℕ → ℕ → Cinfo → Cinfo
rgb2ycc convert stride width8 height8 raw p_src cinfo = record cinfo {
  y_buffer = convert_rows convert (λ r. r.component0) stride width8 height8 raw p_src;
  cb_buffer = convert_rows convert (λ r. r.component2) stride width8 height8 raw p_src;
  cr_buffer = convert_rows convert (λ r. r.component1) stride width8 height8 raw p_src;
}
