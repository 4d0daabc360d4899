-- ===== src/Bmp/RoundTrip.antt =====
-- `load_bmp` of libusbdisp/jpegenc.c reads what a bitmap file holds.
use mathlib.Core.List.{append-nil}
use jpeg_study.Prelude.{ℕ, ◌+◌, ◌*◌, ◌^◌, ◌≤◌, ◌<◌, ◌≡◌, refl, sym, ap, ◌∙◌, arith}
use jpeg_study.Prelude.{Bool, true, false, ltb, lt→ltb}
use jpeg_study.Prelude.{
  List, [], ◌∷◌, ◌++◌, length, length-append, length-replicate, get_or, get_or-append_left,
  get_or-append_right, replicate, some,
}
use jpeg_study.Bmp.Blocks.{filled, filled_ext, length-filled, get_or-filled}
use jpeg_study.Bmp.Headers.{byte}
use jpeg_study.Bmp.Load.{
  srcpitch24, source_row, pixel24, pixel32, copy24, copy32, copy_rows, copy_pixels, check_headers,
  loaded, load_bmp,
}
use jpeg_study.Bmp.Fields.{Fits, header_bytes-Reads, length-header_bytes}
use jpeg_study.Bmp.Print.{
  Image, Extras, header_bytes, stored_row, padding24, row32, bmp24, bmp32, pixels24, pixels32,
  Depth, bits24, bits32, bmp, pixels,
}

plus_zero : (n : ℕ) → n + 0 ≡ n
plus_zero n = omega arith

module _ (m : Image) (e : Extras) (fits : Fits m e) where
  -- A byte of the pixel data.
  byte-body :
      (bits : ℕ) (body : List ℕ) (k : ℕ)
      → byte (header_bytes bits m e ++ (e.gap ++ body)) (54 + length e.gap + k) ≡ get_or body k 0
  byte-body bits body k =
      let place : 54 + length e.gap + k ≡ length (header_bytes bits m e) + (length e.gap + k) =
        omega (arith, length-header_bytes m e fits bits) in
      ap (λ (i : ℕ). get_or (header_bytes bits m e ++ (e.gap ++ body)) i 0) place
      ∙ get_or-append_right (header_bytes bits m e) (e.gap ++ body) (length e.gap + k) 0
      ∙ get_or-append_right e.gap body k 0

  stored-source : (i : ℕ) → i < m.height → stored_row m (source_row m.top_down m.height i) ≡ i
  unfolding source_row
  stored-source i h = ground arith

  source_lt : (i : ℕ) → i < m.height → source_row m.top_down m.height i < m.height
  unfolding source_row
  source_lt i h = ground arith

  -- A row of `width` pixels of `q` bytes, with `pad` behind them, and `height` such rows of `pitch` bytes.
  module _ (q pitch : ℕ) (pixel : ℕ → ℕ → List ℕ) (pad : List ℕ)
      (sized : (r c : ℕ) → length (pixel r c) ≡ q)
      (filled_up : m.width * q + length pad ≡ pitch) where
    abbrev row : ℕ → List ℕ
    row r = filled m.width 0 (λ c. pixel r c) ++ pad

    abbrev body : List ℕ
    body = filled m.height 0 (λ i. row (stored_row m i))

    length-row : (r : ℕ) → length (row r) ≡ pitch
    length-row r =
        length-append (filled m.width 0 (λ c. pixel r c)) pad
        ∙ omega (arith, length-filled q (λ c. pixel r c) m.width 0 (λ k h l. sized r k), filled_up)

    pixel_inside : (c b : ℕ) → c < m.width → b < q → c * q + b < m.width * q
    pixel_inside c b hc hb = grind arith

    -- Byte `b` of pixel `c` in the row of the file that becomes row `i`.
    body-pixel :
        (i c b : ℕ)
        → i < m.height
        → c < m.width
        → b < q
        → get_or body (source_row m.top_down m.height i * pitch + (c * q + b)) 0
          ≡ get_or (pixel i c) b 0
    body-pixel i c b hi hc hb =
        let in_pixels = pixel_inside c b hc hb in
        let pixels = length-filled q (λ k. pixel i k) m.width 0 (λ k h l. sized i k) in
        get_or-filled pitch (λ k. row (stored_row m k)) m.height 0
          (source_row m.top_down m.height i) (c * q + b) 0 (λ k h l. length-row (stored_row m k))
          (source_lt i hi) (omega (arith, in_pixels, filled_up))
        ∙ ap (λ (k : ℕ). get_or (row (stored_row m k)) (c * q + b) 0) (omega arith)
        ∙ ap (λ (k : ℕ). get_or (row k) (c * q + b) 0) (stored-source i hi)
        ∙ get_or-append_left (filled m.width 0 (λ k. pixel i k)) pad (c * q + b) 0
            (omega (arith, in_pixels, pixels))
        ∙ get_or-filled q (λ k. pixel i k) m.width 0 c b 0 (λ k h l. sized i k) hc hb
        ∙ ap (λ (k : ℕ). get_or (pixel i k) b 0) (omega arith)

    -- The same byte, in the whole file.
    byte-pixel :
        (bits i c b : ℕ)
        → i < m.height
        → c < m.width
        → b < q
        → byte
            (header_bytes bits m e ++ (e.gap ++ body))
            (54 + length e.gap + source_row m.top_down m.height i * pitch + c * q + b)
          ≡ get_or (pixel i c) b 0
    byte-pixel bits i c b hi hc hb =
        ap (λ (k : ℕ). byte (header_bytes bits m e ++ (e.gap ++ body)) k) (omega arith)
        ∙ byte-body bits body (source_row m.top_down m.height i * pitch + (c * q + b))
        ∙ body-pixel i c b hi hc hb

  abbrev bgr : ℕ → ℕ → List ℕ
  bgr r c = m.sample r c 0 ∷ m.sample r c 1 ∷ m.sample r c 2 ∷ []

  abbrev bgrx : ℕ → ℕ → List ℕ
  bgrx r c = m.sample r c 0 ∷ m.sample r c 1 ∷ m.sample r c 2 ∷ m.sample r c 3 ∷ []

  abbrev pad24 : List ℕ
  pad24 = replicate (padding24 m.width) 0

  pitch24 : m.width * 3 + length pad24 ≡ srcpitch24 m.width
  unfolding srcpitch24
  pitch24 = omega (arith, length-replicate {A = ℕ} (padding24 m.width) 0)

  byte24 :
      (i c : ℕ)
      → i < m.height
      → c < m.width
      → (b : ℕ) → b < 3
      → byte
          (bmp24 m e)
          (54 + length e.gap + source_row m.top_down m.height i * srcpitch24 m.width + c * 3 + b)
        ≡ get_or (bgr i c) b 0
  unfolding bmp24
  byte24 i c hi hc b hb =
      byte-pixel 3 (srcpitch24 m.width) bgr pad24 (λ r k. refl) pitch24 24 i c b hi hc hb

  without_padding :
      bmp32 m e
      ≡ header_bytes 32 m e ++ (e.gap ++ body 4 (m.width * 4) bgrx [] (λ r k. refl) (omega arith))
  unfolding bmp32
  without_padding =
      ap (λ rows. header_bytes 32 m e ++ (e.gap ++ rows))
        (filled_ext m.height 0 _ _ (λ i p hi. sym (append-nil (row32 m (stored_row m i)))))

  byte32 :
      (i c : ℕ)
      → i < m.height
      → c < m.width
      → (b : ℕ) → b < 4
      → byte
          (bmp32 m e)
          (54 + length e.gap + source_row m.top_down m.height i * (m.width * 4) + c * 4 + b)
        ≡ get_or (bgrx i c) b 0
  byte32 i c hi hc b hb =
      ap
        (λ file.
          byte file
            (54 + length e.gap + source_row m.top_down m.height i * (m.width * 4) + c * 4 + b))
        without_padding
      ∙ byte-pixel 4 (m.width * 4) bgrx [] (λ r k. refl) (omega arith) 32 i c b hi hc hb

  copy24-bmp24 : copy24 (bmp24 m e) (54 + length e.gap) m.top_down m.width m.height ≡ pixels24 m
  unfolding copy24 bmp24 pixel24 srcpitch24
  copy24-bmp24 = filled_ext m.height 0 _ _ (λ i p hi. filled_ext m.width 0 _ _ (λ c p' hc. λ k.
      (ap (λ (a : ℕ). byte (bmp24 m e) a) (sym (plus_zero _))
          ∙ byte24 i c (omega arith) (omega arith) 0 (omega arith))
        k
      ∷ byte24 i c (omega arith) (omega arith) 1 (omega arith) k
      ∷ byte24 i c (omega arith) (omega arith) 2 (omega arith) k
      ∷ 0
      ∷ []))

  copy32-bmp32 : copy32 (bmp32 m e) (54 + length e.gap) m.top_down m.width m.height ≡ pixels32 m
  unfolding copy32 pixel32
  copy32-bmp32 = filled_ext m.height 0 _ _ (λ i p hi. filled_ext m.width 0 _ _ (λ c p' hc. λ k.
      (ap (λ (a : ℕ). byte (bmp32 m e) a) (sym (plus_zero _))
          ∙ byte32 i c (omega arith) (omega arith) 0 (omega arith))
        k
      ∷ byte32 i c (omega arith) (omega arith) 1 (omega arith) k
      ∷ byte32 i c (omega arith) (omega arith) 2 (omega arith) k
      ∷ byte32 i c (omega arith) (omega arith) 3 (omega arith) k
      ∷ []))

  not_short : (bits : ℕ) (rest : List ℕ) → ltb (length (header_bytes bits m e ++ rest)) 54 ≡ false
  not_short bits rest =
      ground (arith, length-append (header_bytes bits m e) rest, length-header_bytes m e fits bits)

  -- There is a row, so that no row is longer than all pixels.
  row_fits : m.width * m.height * 4 < 2 ^ 31 → ltb (m.width * 4) (2 ^ 31) ≡ true
  row_fits product =
      let short : m.width * 4 ≤ m.width * m.height * 4 = grind (arith, fits.some_row) in
      lt→ltb _ _ (omega (arith, short, product))

  -- What `load_bmp` does on a file of 24 bits whose headers are as above.
  load_bmp-Reads24 :
      (memory : ℕ → Bool) (rest : List ℕ)
      → let file = header_bytes 24 m e ++ rest in
        memory (length file) ≡ true
        → m.width * m.height * 4 < 2 ^ 31
        → memory (m.width * m.height * 4) ≡ true
        → load_bmp memory (some file)
          ≡ loaded (record {
            width = m.width;
            height = m.height;
            pixels = copy24 file (54 + length e.gap) m.top_down m.width m.height;
          })
  unfolding load_bmp check_headers copy_pixels copy_rows
  load_bmp-Reads24 memory rest enough_file product enough_pixels =
      let r = header_bytes-Reads m e fits 24 rest (omega arith) in
      rw
        (
          not_short 24 rest,
          enough_file,
          r.type_is,
          r.compression_is,
          r.bits_are,
          r.width_is,
          r.height_is,
          r.order_is,
          r.offset_is,
          lt→ltb _ _ fits.width_lt,
          lt→ltb _ _ fits.height_lt,
          lt→ltb _ _ product,
          enough_pixels,
          row_fits product,
        )
        refl

  -- What `load_bmp` does on a file of 32 bits whose headers are as above.
  load_bmp-Reads32 :
      (memory : ℕ → Bool) (rest : List ℕ)
      → let file = header_bytes 32 m e ++ rest in
        memory (length file) ≡ true
        → m.width * m.height * 4 < 2 ^ 31
        → memory (m.width * m.height * 4) ≡ true
        → load_bmp memory (some file)
          ≡ loaded (record {
            width = m.width;
            height = m.height;
            pixels = copy32 file (54 + length e.gap) m.top_down m.width m.height;
          })
  unfolding load_bmp check_headers copy_pixels copy_rows
  load_bmp-Reads32 memory rest enough_file product enough_pixels =
      let r = header_bytes-Reads m e fits 32 rest (omega arith) in
      rw
        (
          not_short 32 rest,
          enough_file,
          r.type_is,
          r.compression_is,
          r.bits_are,
          r.width_is,
          r.height_is,
          r.order_is,
          r.offset_is,
          lt→ltb _ _ fits.width_lt,
          lt→ltb _ _ fits.height_lt,
          lt→ltb _ _ product,
          enough_pixels,
          row_fits product,
        )
        refl

-- A bitmap file of 24 or 32 bits, of any image with rows in either order, with anything between the headers
-- and the pixels and any values in the fields that do not matter, is loaded as the image: `load_bmp` gives its
-- width and height and, from the top row down, the blue, green and red samples of each pixel and a 0, or its
-- fourth byte. This holds if there is a row, the width and the height, and four times their product, are below
-- 2^31, so that no `int` overflows, the offset of the pixels fits 32 bits and both calls of `malloc` succeed.
pub load_bmp-bmp :
    (memory : ℕ → Bool) (depth : Depth) (m : Image) (e : Extras)
    → Fits m e
    → m.width * m.height * 4 < 2 ^ 31
    → memory (length (bmp depth m e)) ≡ true
    → memory (m.width * m.height * 4) ≡ true
    → load_bmp memory (some (bmp depth m e))
      ≡ loaded (record { width = m.width; height = m.height; pixels = pixels depth m })
load_bmp-bmp memory bits24 m e fits product enough_file enough_pixels =
    unfold bmp24 in
    load_bmp-Reads24 m e fits memory _ enough_file product enough_pixels
    ∙ ap (λ p. loaded (record { width = m.width; height = m.height; pixels = p }))
        (copy24-bmp24 m e fits)
load_bmp-bmp memory bits32 m e fits product enough_file enough_pixels =
    unfold bmp32 in
    load_bmp-Reads32 m e fits memory _ enough_file product enough_pixels
    ∙ ap (λ p. loaded (record { width = m.width; height = m.height; pixels = p }))
        (copy32-bmp32 m e fits)
