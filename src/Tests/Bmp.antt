-- ===== src/Tests/Bmp.antt =====
-- The theorems on bitmap files of libusbdisp/jpegenc.c, at files of 3 by 2 pixels.
use jpeg_study.Prelude.{
  ℕ, ◌+◌, ◌*◌, ◌≡◌, refl, arith, Bool, true, false, ltb, [], ◌∷◌, length, drop, some,
}
use jpeg_study.Bmp.Load.{Bitmap, loaded, load_bmp}
use jpeg_study.Bmp.Print.{Image, Extras, header_bytes, bmp24, bmp32, bits24, bits32, bmp, pixels}
use jpeg_study.Bmp.Fields.{Fits}
use jpeg_study.Bmp.RoundTrip.{load_bmp-bmp}
use jpeg_study.Bmp.Accepts.{IsSupported, Loaded, load_bmp-IsSupported}

-- Any size up to a million bytes can be allocated.
abbrev pub memory : ℕ → Bool
memory n = ltb n 1000000

abbrev pub small : Image
small = record { width = 3; height = 2; sample = λ r c b. 100 * r + 10 * c + b; top_down = false }

abbrev pub extras : Extras
extras = record {
  file_size = 82;
  planes = 1;
  image_size = 24;
  x_resolution = 2835;
  y_resolution = 2835;
  colors = 0;
  important = 0;
  gap = 7 ∷ 7 ∷ 7 ∷ 7 ∷ [];
}

pub small-Fits : Fits small extras
small-Fits = record {
  width_lt = omega arith;
  height_lt = omega arith;
  some_row = omega arith;
  gap_lt = omega arith;
}

pub room24 : memory (length (bmp24 small extras)) ≡ true
unfolding bmp24 header_bytes
room24 = refl

room32 : memory (length (bmp32 small extras)) ≡ true
unfolding bmp32 header_bytes
room32 = refl

load_bmp-bmp_example :
    load_bmp memory (some (bmp bits24 small extras))
    ≡ loaded (record { width = 3; height = 2; pixels = pixels bits24 small })
load_bmp-bmp_example = load_bmp-bmp memory bits24 small extras small-Fits (omega arith) room24 refl

-- The same image in 32 bits.
load_bmp-bmp32_test :
    load_bmp memory (some (bmp bits32 small extras))
    ≡ loaded (record { width = 3; height = 2; pixels = pixels bits32 small })
load_bmp-bmp32_test = load_bmp-bmp memory bits32 small extras small-Fits (omega arith) room32 refl

load_bmp-IsSupported_example :
    (IsSupported memory (bmp24 small extras) → Loaded memory (bmp24 small extras))
    × ((b : Bitmap)
        → load_bmp memory (some (bmp24 small extras)) ≡ loaded b
        → IsSupported memory (bmp24 small extras))
load_bmp-IsSupported_example = load_bmp-IsSupported memory (bmp24 small extras)

-- The file has the lower row first; each row is filled up to 12 bytes.
bmp24_test :
    drop 58 (bmp24 small extras)
    ≡ 100 ∷ 101 ∷ 102 ∷ 110 ∷ 111 ∷ 112 ∷ 120 ∷ 121 ∷ 122 ∷ 0 ∷ 0 ∷ 0 ∷ 0 ∷ 1 ∷ 2 ∷ 10 ∷ 11 ∷ 12
      ∷ 20 ∷ 21 ∷ 22 ∷ 0 ∷ 0 ∷ 0 ∷ []
unfolding bmp24 header_bytes
bmp24_test = refl
