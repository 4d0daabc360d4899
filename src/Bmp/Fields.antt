-- ===== src/Bmp/Fields.antt =====
-- The headers of a bitmap file as `load_bmp` of libusbdisp/jpegenc.c reads them.
use jpeg_study.Prelude.{ℕ, ◌+◌, ◌-◌, ◌*◌, ◌/◌, ◌%◌, ◌^◌, ◌<◌, ◌≡◌, refl, ap, ◌∙◌, arith}
use jpeg_study.Prelude.{Bool-cases, inl, inr}
use jpeg_study.Prelude.{List, ◌++◌, length}
use jpeg_study.Prelude.Int.{pos, negsuc, magnitude}
use jpeg_study.Bmp.Headers.{read16, read32, from_u32, file_header, info_header}
use jpeg_study.Bmp.Load.{is_top_down}
use jpeg_study.Bmp.Print.{Image, Extras, height_word, header_bytes}

le32_lem :
    (n : ℕ)
    → n < 2 ^ 32
    → n % 2 ^ 8
        + 2 ^ 8 * (n / 2 ^ 8 % 2 ^ 8)
        + 2 ^ 16 * (n / 2 ^ 16 % 2 ^ 8)
        + 2 ^ 24 * (n / 2 ^ 24 % 2 ^ 8)
      ≡ n
le32_lem n h = omega arith

le16_lem : (n : ℕ) → n < 2 ^ 16 → n % 2 ^ 8 + 2 ^ 8 * (n / 2 ^ 8 % 2 ^ 8) ≡ n
le16_lem n h = omega arith

-- The size of an image and of the gap fit the fields of the headers.
pub record Fits (m : Image) (e : Extras) : Type 0 where
  pub width_lt : m.width < 2 ^ 31
  pub height_lt : m.height < 2 ^ 31
  pub some_row : 0 < m.height
  pub gap_lt : 54 + length e.gap < 2 ^ 32

module _ (m : Image) (e : Extras) (fits : Fits m e) where
  pub length-header_bytes : (bits : ℕ) → length (header_bytes bits m e) ≡ 54
  unfolding header_bytes
  length-header_bytes bits = refl

  -- What `load_bmp` reads from the headers.
  pub record Reads (bits : ℕ) (file : List ℕ) : Type 0 where
    pub type_is : (file_header file).bf_type ≡ 0x4D42
    pub offset_is : (file_header file).bf_off_bits ≡ 54 + length e.gap
    pub width_is : magnitude ((info_header file).bi_width) ≡ m.width
    pub height_is : magnitude ((info_header file).bi_height) ≡ m.height
    pub order_is : is_top_down ((info_header file).bi_height) ≡ m.top_down
    pub bits_are : (info_header file).bi_bit_count ≡ bits
    pub compression_is : (info_header file).bi_compression ≡ 0

  width_read : magnitude (from_u32 m.width) ≡ m.width
  unfolding from_u32
  width_read = ground (arith, fits.width_lt)

  top_down_height : from_u32 (2 ^ 32 - m.height) ≡ negsuc (m.height - 1)
  unfolding from_u32
  top_down_height = ground (arith, fits.height_lt, fits.some_row)

  bottom_up_height : from_u32 m.height ≡ pos m.height
  unfolding from_u32
  bottom_up_height = ground (arith, fits.height_lt)

  height_word_lt : height_word m < 2 ^ 32
  height_word_lt = elim (Bool-cases m.top_down) [
    | inl down ↦ rw down (omega (arith, fits.some_row))
    | inr up ↦ rw up (omega (arith, fits.height_lt))
  ]

  height_read :
      (magnitude (from_u32 (height_word m)) ≡ m.height)
      × (is_top_down (from_u32 (height_word m)) ≡ m.top_down)
  unfolding is_top_down
  height_read = elim (Bool-cases m.top_down) [
    | inl down ↦ rw (down, top_down_height) (omega (arith, fits.some_row), refl)
    | inr up ↦ rw (up, bottom_up_height) (refl, refl)
  ]

  pub header_bytes-Reads :
      (bits : ℕ) (rest : List ℕ) → bits < 2 ^ 16 → Reads bits (header_bytes bits m e ++ rest)
  unfolding header_bytes file_header info_header read16 read32
  header_bytes-Reads bits rest small = record {
    type_is = refl;
    offset_is = le32_lem (54 + length e.gap) fits.gap_lt;
    width_is =
        ap (λ (n : ℕ). magnitude (from_u32 n)) (le32_lem m.width (omega (arith, fits.width_lt)))
        ∙ width_read;
    height_is =
        ap (λ (n : ℕ). magnitude (from_u32 n)) (le32_lem (height_word m) height_word_lt)
        ∙ height_read.0;
    order_is =
        ap (λ (n : ℕ). is_top_down (from_u32 n)) (le32_lem (height_word m) height_word_lt)
        ∙ height_read.1;
    bits_are = le16_lem bits small;
    compression_is = refl;
  }
