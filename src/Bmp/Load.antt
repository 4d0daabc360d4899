-- ===== src/Bmp/Load.antt =====
-- `load_bmp` of libusbdisp/jpegenc.c.
use jpeg_study.Prelude.{
  ℕ, ◌+◌, ◌-◌, ◌*◌, ◌/◌, ◌^◌, ltb, ◌==◌, if◌then◌else◌, ◌&&◌, not, Bool, true, false,
}
use jpeg_study.Prelude.{List, [], ◌∷◌, length, Option, none, some}
use jpeg_study.Prelude.Int.{ℤ, pos, negsuc, magnitude}
use jpeg_study.Bmp.Blocks.{filled}
use jpeg_study.Bmp.Headers.{byte, file_header, info_header, BitmapFileHeader, BitmapInfoHeader}

-- `*width`, `*height` and the buffer that is returned.
pub record Bitmap : Type 0 where
  pub width : ℕ
  pub height : ℕ
  pub pixels : List ℕ

-- `NULL`, a buffer, or nothing that C defines: an `int` overflows.
pub data Loading : Type 0 where
  refused : Loading
  undefined : Loading
  loaded : Bitmap → Loading

-- `mHeight < 0`.
unfoldable pub is_top_down : ℤ → Bool
is_top_down (pos n) = false
is_top_down (negsuc n) = true

-- `((_width * 3 + 3) / 4) * 4`.
unfoldable pub srcpitch24 : ℕ → ℕ
srcpitch24 width = (width * 3 + 3) / 4 * 4

-- The row of the file that becomes row `i`.
unfoldable pub source_row : Bool → ℕ → ℕ → ℕ
source_row top_down height i = if top_down then i else height - 1 - i

-- The four assignments for a pixel, with `at` the place of its first byte in the file.
unfoldable pub pixel24 : List ℕ → ℕ → List ℕ
pixel24 file at = byte file at ∷ byte file (at + 1) ∷ byte file (at + 2) ∷ 0 ∷ []

unfoldable pub pixel32 : List ℕ → ℕ → List ℕ
pixel32 file at = byte file at ∷ byte file (at + 1) ∷ byte file (at + 2) ∷ byte file (at + 3) ∷ []

-- The two loops over the rows, which fill `input_buffer` in order.
unfoldable pub copy24 : List ℕ → ℕ → Bool → ℕ → ℕ → List ℕ
copy24 file psrc top_down width height = filled height 0 (λ i.
    filled width 0
      (λ j. pixel24 file (psrc + source_row top_down height i * srcpitch24 width + j * 3)))

unfoldable pub copy32 : List ℕ → ℕ → Bool → ℕ → ℕ → List ℕ
copy32 file psrc top_down width height = filled height 0 (λ i.
    filled width 0 (λ j. pixel32 file (psrc + source_row top_down height i * (width * 4) + j * 4)))

-- The two loops, behind the allocation. `pitch` and `srcpitch` are computed here, from `_width * 4` and
-- `_width * 3 + 3`. With a pixel or more, the places in the file are products below those of the allocation.
unfoldable pub copy_rows : List ℕ → BitmapFileHeader → ℕ → Bool → ℕ → ℕ → Loading
copy_rows file fh depth top_down width height =
    let bitmap : List ℕ → Loading =
      λ pixels. loaded (record { width = width; height = height; pixels = pixels }) in
    if not (ltb (width * 4) (2 ^ 31))
    then undefined
    else if depth == 24
    then bitmap (copy24 file fh.bf_off_bits top_down width height)
    else bitmap (copy32 file fh.bf_off_bits top_down width height)

-- From `int mHeight = _height` on. `memory n` says whether `malloc(n)` succeeds. The negation of the least
-- `int`, and a product `_width * _height * 4` of 2^31 or more, overflow.
unfoldable pub copy_pixels : (ℕ → Bool) → List ℕ → BitmapFileHeader → BitmapInfoHeader → Loading
copy_pixels memory file fh ih =
    let width = magnitude ih.bi_width in
    let height = magnitude ih.bi_height in
    if not (ltb width (2 ^ 31) && ltb height (2 ^ 31) && ltb (width * height * 4) (2 ^ 31))
    then undefined
    else if memory (width * height * 4)
    then copy_rows file fh ih.bi_bit_count (is_top_down ih.bi_height) width height
    else refused

-- The checks of the two headers.
unfoldable pub check_headers : (ℕ → Bool) → List ℕ → Loading
check_headers memory file =
    let fh = file_header file in
    let ih = info_header file in
    if not (fh.bf_type == 0x4D42)
    then refused
    else if not (ih.bi_compression == 0)
    then refused
    else if not (ih.bi_bit_count == 24) && not (ih.bi_bit_count == 32)
    then refused
    else copy_pixels memory file fh ih

-- What `fopen`, `fseek`, `ftell` and `fread` give: the bytes of the file, if all of them succeed. The size is
-- compared before `fread`, which makes no difference to the result.
unfoldable pub load_bmp : (ℕ → Bool) → Option (List ℕ) → Loading
load_bmp memory none = refused
load_bmp memory (some file) =
    if ltb (length file) 54
    then refused
    else if memory (length file)
    then check_headers memory file
    else refused
