-- ===== src/Bmp/Print.antt =====
-- Windows bitmap files as the format describes them, for `load_bmp` of libusbdisp/jpegenc.c: a file of 24 or
-- 32 bits that holds given samples.
use jpeg_study.Prelude.{ℕ, ◌+◌, ◌-◌, ◌*◌, ◌/◌, ◌%◌, ◌^◌, Bool, if◌then◌else◌}
use jpeg_study.Prelude.{List, [], ◌∷◌, ◌++◌, length, replicate}
use jpeg_study.Bmp.Blocks.{filled}

abbrev pub le16 : ℕ → List ℕ
le16 n = n % 2 ^ 8 ∷ n / 2 ^ 8 % 2 ^ 8 ∷ []

abbrev pub le32 : ℕ → List ℕ
le32 n = n % 2 ^ 8 ∷ n / 2 ^ 8 % 2 ^ 8 ∷ n / 2 ^ 16 % 2 ^ 8 ∷ n / 2 ^ 24 % 2 ^ 8 ∷ []

-- An image: the sample of a row, a column and a channel (blue, green, red, unused), and how the file
-- keeps it.
pub record Image : Type 0 where
  pub width : ℕ
  pub height : ℕ
  pub sample : ℕ → ℕ → ℕ → ℕ
  pub top_down : Bool

-- The fields that a reader of the pixels does not need, with what stands before the pixels.
pub record Extras : Type 0 where
  pub file_size : ℕ
  pub planes : ℕ
  pub image_size : ℕ
  pub x_resolution : ℕ
  pub y_resolution : ℕ
  pub colors : ℕ
  pub important : ℕ
  pub gap : List ℕ

-- The height is negative for rows from the top down.
abbrev pub height_word : Image → ℕ
height_word m = if m.top_down then 2 ^ 32 - m.height else m.height

unfoldable pub header_bytes : ℕ → Image → Extras → List ℕ
header_bytes bits m e =
    le16 0x4D42
    ++ le32 e.file_size
    ++ le16 0
    ++ le16 0
    ++ le32 (54 + length e.gap)
    ++ le32 40
    ++ le32 m.width
    ++ le32 (height_word m)
    ++ le16 e.planes
    ++ le16 bits
    ++ le32 0
    ++ le32 e.image_size
    ++ le32 e.x_resolution
    ++ le32 e.y_resolution
    ++ le32 e.colors
    ++ le32 e.important

-- The row that stands in place `i` of the file.
abbrev pub stored_row : Image → ℕ → ℕ
stored_row m i = if m.top_down then i else m.height - 1 - i

-- A row of 24-bit pixels is filled up to a multiple of 4 bytes.
abbrev pub padding24 : ℕ → ℕ
padding24 width = (4 - width * 3 % 4) % 4

abbrev pub row24 : Image → ℕ → List ℕ
row24 m r =
    filled m.width 0 (λ c. m.sample r c 0 ∷ m.sample r c 1 ∷ m.sample r c 2 ∷ [])
    ++ replicate (padding24 m.width) 0

abbrev pub row32 : Image → ℕ → List ℕ
row32 m r =
    filled m.width 0 (λ c. m.sample r c 0 ∷ m.sample r c 1 ∷ m.sample r c 2 ∷ m.sample r c 3 ∷ [])

unfoldable pub bmp24 : Image → Extras → List ℕ
bmp24 m e = header_bytes 24 m e ++ (e.gap ++ filled m.height 0 (λ i. row24 m (stored_row m i)))

unfoldable pub bmp32 : Image → Extras → List ℕ
bmp32 m e = header_bytes 32 m e ++ (e.gap ++ filled m.height 0 (λ i. row32 m (stored_row m i)))

-- The pixels of an image, from the top down, four bytes each.
abbrev pub pixels24 : Image → List ℕ
pixels24 m =
    filled m.height 0
      (λ r. filled m.width 0 (λ c. m.sample r c 0 ∷ m.sample r c 1 ∷ m.sample r c 2 ∷ 0 ∷ []))

abbrev pub pixels32 : Image → List ℕ
pixels32 m = filled m.height 0 (λ r. row32 m r)

-- The two kinds of file.
pub data Depth : Type 0 where
  bits24 bits32 : Depth

abbrev pub bmp : Depth → Image → Extras → List ℕ
bmp bits24 m e = bmp24 m e
bmp bits32 m e = bmp32 m e

abbrev pub pixels : Depth → Image → List ℕ
pixels bits24 m = pixels24 m
pixels bits32 m = pixels32 m
