-- ===== src/Tests/Tool.antt =====
-- The theorems on the command line tool libusbdisp/jpegenc.c, at a bitmap file of 3 by 2 pixels.
use jpeg_study.Prelude.{
  ℕ, ◌*◌, ◌/◌, leb, if◌then◌else◌, ◌≡◌, refl, arith, true, List, [], ◌∷◌, ◌++◌, length, some, u32,
}
use jpeg_study.Bmp.Load.{Bitmap}
use jpeg_study.Bmp.Print.{Image, bits24, bmp, bmp24, header_bytes, pixels}
use jpeg_study.Bmp.Fields.{Fits}
use jpeg_study.Tool.SaveJpg.{saved, not_defined, save_jpg}
use jpeg_study.Tool.Saved.{HasRoom, IsFileOf, save_jpg-IsFileOf}
use jpeg_study.Tool.Dump.{hex_digit, print_byte, dump}
use jpeg_study.Tool.Dumped.{read_array, le_word, read_array-dump}
use jpeg_study.Tests.Data.{
  fresh, fresh-IsStatic, small_cinfo, no_transform, no_transform-IsTransform,
}
use jpeg_study.Tests.Bmp.{memory, extras}
use jpeg_study.Tests.Dirty.{plain}

-- 16 by 16 pixels of one colour.
abbrev square : Image
square = record { width = 16; height = 16; sample = λ r c b. 128; top_down = true }

square-Fits : Fits square extras
square-Fits = record {
  width_lt = omega arith;
  height_lt = omega arith;
  some_row = omega arith;
  gap_lt = omega arith;
}

square-HasRoom : HasRoom memory square
square-HasRoom = record {
  width_whole = refl;
  height_whole = refl;
  width_le = omega arith;
  height_le = omega arith;
  size_lt = omega arith;
  plane_memory = refl;
  pixel_memory = refl;
}

square-memory : memory (length (bmp bits24 square extras)) ≡ true
unfolding bmp24 header_bytes
square-memory = refl

save_jpg-IsFileOf_example :
    let b : Bitmap = record { width = 16; height = 16; pixels = pixels bits24 square } in
    (file : List ℕ) × (save_jpg no_transform plain memory fresh small_cinfo
        (some (bmp bits24 square extras))
        true
      ≡ some (if leb (length file) (16 * 16 * 4) then saved file else not_defined))
    × IsFileOf no_transform plain b file
save_jpg-IsFileOf_example =
    save_jpg-IsFileOf no_transform plain memory fresh small_cinfo bits24 square extras
      fresh-IsStatic refl refl (no_transform-IsTransform _) (no_transform-IsTransform _) square-Fits
      square-memory square-HasRoom

abbrev five_bytes : List ℕ
five_bytes = 0xff ∷ 0xd9 ∷ 0 ∷ 0x1b ∷ 0x0a ∷ []

read_array-dump_example :
    read_array (dump five_bytes)
    ≡ some (
        le_word 4 0x53525053
        ++ (0
            ∷ 0
            ∷ 0
            ∷ 0x80
            ∷ (le_word 4 0 ++ (le_word 4 (u32 (length five_bytes / 4)) ++ five_bytes))))
read_array-dump_example = read_array-dump five_bytes (omega arith)

-- `0x1b, `
print_byte_test : print_byte 0x1b ≡ b'0' ∷ b'x' ∷ b'1' ∷ b'b' ∷ b',' ∷ b' ' ∷ []
unfolding print_byte hex_digit
print_byte_test = refl
