-- ===== src/Tool/Saved.antt =====
-- The file that the mode `-j` of libusbdisp/jpegenc.c writes for a bitmap file.
use jpeg_study.Prelude.{
  ℕ, ◌*◌, ◌%◌, ◌^◌, ◌<◌, ◌≤◌, ◌≡◌, refl, ap, ◌∙◌, arith, lt→ltb, leb, ◌==◌, Bool, true, false,
  if◌then◌else◌,
}
use mathlib.Core.Path.{ap₂}
use jpeg_study.Prelude.{List, [], ◌∷◌, suc, length, take, some}
use jpeg_study.Tables.Quantization.{std_luminance_qt, std_chrominance_qt}
use jpeg_study.Header.Segments.{read_header}
use jpeg_study.Header.Segments.WriteHeader.{scaled_table, header_segments}
use jpeg_study.Encoder.Cinfo.{Cinfo, Globals, IsStatic, initialize, initialize_globals}
use jpeg_study.Encoder.File.{prepared, write_header_to, encode-file}
use jpeg_study.Encoder.Main.{Jsimd}
use jpeg_study.Encoder.Scan.{IsTransform}
use jpeg_study.Encoder.Encode.{IsScanOf}
use jpeg_study.Bmp.Load.{Bitmap}
use jpeg_study.Bmp.Print.{Image, Extras, Depth, bits24, bits32, bmp, pixels}
use jpeg_study.Bmp.Blocks.{length-filled}
use jpeg_study.Bmp.Fields.{Fits}
use jpeg_study.Bmp.RoundTrip.{load_bmp-bmp}
use jpeg_study.Frame.Convert.{YccConvert, rgb2ycc, convert_rows}
use jpeg_study.Frame.Buffer.{round8}
use jpeg_study.Tool.SaveJpg.{
  saved, not_defined, imagesize, has_buffers, write_output, picture_cinfo, write_picture,
  save_picture, save_jpg,
}

-- `cinfo` with the planes of a picture, before `Initialize`.
abbrev with_planes : YccConvert → Bitmap → Cinfo → Cinfo
with_planes convert b cinfo =
    rgb2ycc convert (round8 b.width) (round8 b.width) (round8 b.height) b.pixels 0 (record cinfo {
      ximage = round8 b.width;
      yimage = round8 b.height;
      writer = record cinfo.writer { jpeg_stream = [] };
    })

-- The order of the assignments does not matter.
picture_cinfo-prepared :
    (convert : YccConvert) (globals : Globals) (b : Bitmap) (cinfo : Cinfo)
    → picture_cinfo convert (initialize_globals globals) b cinfo
      ≡ prepared globals 95 b.width b.height (with_planes convert b cinfo)
unfolding picture_cinfo initialize write_header_to rgb2ycc
picture_cinfo-prepared convert globals b cinfo = refl

-- What a reader finds in the file for a picture.
pub record IsFileOf (j : Jsimd) (convert : YccConvert) (b : Bitmap) (file : List ℕ) : Type 0 where
  pub source : Cinfo
  pub y_is :
      source.y_buffer
      ≡ convert_rows convert
          (λ r. r.component0)
          (round8 b.width)
          (round8 b.width)
          (round8 b.height)
          b.pixels
          0
  pub cb_is :
      source.cb_buffer
      ≡ convert_rows convert
          (λ r. r.component2)
          (round8 b.width)
          (round8 b.width)
          (round8 b.height)
          b.pixels
          0
  pub cr_is :
      source.cr_buffer
      ≡ convert_rows convert
          (λ r. r.component1)
          (round8 b.width)
          (round8 b.width)
          (round8 b.height)
          b.pixels
          0
  pub ximage_is : source.ximage ≡ round8 b.width
  pub yimage_is : source.yimage ≡ round8 b.height
  pub scan : List ℕ
  pub header_is :
      read_header 6 file
      ≡ some (
        header_segments
            (scaled_table std_luminance_qt 95)
            (scaled_table std_chrominance_qt 95)
            b.width
            b.height,
        scan,
      )
  pub scan_is : IsScanOf j source scan

take-length : (xs : List ℕ) → take (length xs) xs ≡ xs
take-length [] = refl
take-length (x ∷ xs) = ap (λ ys. x ∷ ys) (take-length xs)

take_all : (xs : List ℕ) → (if length xs == 0 then [] else take (length xs) xs) ≡ xs
take_all [] = refl
take_all (x ∷ xs) =
    let some_byte : (suc (length xs) == 0) ≡ false = ground arith in
    rw some_byte (take-length (x ∷ xs))

module _ (j : Jsimd) (convert : YccConvert) (globals : Globals) (cinfo : Cinfo)
    (ready : IsStatic globals) (y_sized : length cinfo.dqt_info.y_table ≡ 64)
    (cb_sized : length cinfo.dqt_info.cb_table ≡ 64)
    (ty : IsTransform j ((initialize 95 cinfo).divisors.divisor_y))
    (tcb : IsTransform j ((initialize 95 cinfo).divisors.divisor_cb)) where
  write_picture-IsFileOf :
      (memory : ℕ → Bool) (b : Bitmap)
      → has_buffers memory b ≡ true
      → round8 b.width ≤ 65528
      → round8 b.height ≤ 65528
      → (file : List ℕ) × (write_picture j convert memory globals cinfo b
          ≡ some (if leb (length file) (imagesize b * 4) then saved file else not_defined))
        × IsFileOf j convert b file
  unfolding write_picture rgb2ycc write_output
  write_picture-IsFileOf memory b buffers narrow low =
      let c = with_planes convert b cinfo in
      let r =
        encode-file j globals 95 b.width b.height c ready refl y_sized cb_sized narrow low
          (unfold initialize in ty) (unfold initialize in tcb) in
      (
        r.0.writer.jpeg_stream,
        rw (buffers, picture_cinfo-prepared convert globals b cinfo, r.2)
            (ap
              (λ bytes. some (
                if leb (length r.0.writer.jpeg_stream) (imagesize b * 4)
                then saved bytes
                else not_defined))
              (take_all r.0.writer.jpeg_stream)),
        record {
          source = prepared globals 95 b.width b.height c;
          y_is = unfold write_header_to initialize in refl;
          cb_is = unfold write_header_to initialize in refl;
          cr_is = unfold write_header_to initialize in refl;
          ximage_is = unfold write_header_to initialize in refl;
          yimage_is = unfold write_header_to initialize in refl;
          scan = r.1;
          header_is = r.3;
          scan_is = r.4;
        },
      )

round8_same : (n : ℕ) → n % 8 ≡ 0 → round8 n ≡ n
unfolding round8
round8_same n h = omega arith

length-pixels : (depth : Depth) (m : Image) → length (pixels depth m) ≡ m.width * m.height * 4
length-pixels bits24 m =
    length-filled (m.width * 4) _ m.height 0 (λ i h l. length-filled 4 _ m.width 0 (λ j p q. refl))
    ∙ grind arith
length-pixels bits32 m =
    length-filled (m.width * 4) _ m.height 0 (λ i h l. length-filled 4 _ m.width 0 (λ j p q. refl))
    ∙ grind arith

-- The sizes of an image for which the mode `-j` stays inside its buffers up to the coding, and the memory for
-- them.
pub record HasRoom (memory : ℕ → Bool) (m : Image) : Type 0 where
  pub width_whole : m.width % 8 ≡ 0
  pub height_whole : m.height % 8 ≡ 0
  pub width_le : m.width ≤ 65528
  pub height_le : m.height ≤ 65528
  pub size_lt : m.width * m.height * 4 < 2 ^ 31
  pub plane_memory : memory (m.width * m.height * 3) ≡ true
  pub pixel_memory : memory (m.width * m.height * 4) ≡ true

HasRoom-buffers :
    (memory : ℕ → Bool) (depth : Depth) (m : Image)
    → HasRoom memory m
    → has_buffers memory (record { width = m.width; height = m.height; pixels = pixels depth m })
      ≡ true
unfolding has_buffers imagesize
HasRoom-buffers memory depth m room =
    let all : leb (m.width * m.height * 4) (length (pixels depth m)) ≡ true =
      ground (arith, length-pixels depth m) in
    rw
      (
        round8_same m.width room.width_whole,
        round8_same m.height room.height_whole,
        lt→ltb _ _ room.size_lt,
        room.plane_memory,
        room.pixel_memory,
        all,
      )
      refl

-- The mode `-j` on a bitmap file of 24 or 32 bits, whose size and gap fit the headers, of a width and a height
-- that are multiples of 8 and at most 65528, with four times their product below 2^31, if every call of `malloc`
-- succeeds and the output can be opened: there is a JPEG file of quality 95, in which a reader of marker
-- segments finds the header with the tables of that quality and the size of the image, and behind it the scan
-- data of the planes into which `rgb2ycc` converts the pixels of the image. The encoder ends, and the output is
-- that file if it has at most four bytes for each pixel; a longer one is written behind the end of the stream's
-- buffer. This needs static variables that hold the standard tables or, before the first `Initialize`, zeros, quantization
-- tables of 64 entries, and a transform that gives baseline coefficients.
pub save_jpg-IsFileOf :
    (j : Jsimd) (convert : YccConvert) (memory : ℕ → Bool) (globals : Globals) (cinfo : Cinfo)
    (depth : Depth) (m : Image) (e : Extras)
    → IsStatic globals
    → length cinfo.dqt_info.y_table ≡ 64
    → length cinfo.dqt_info.cb_table ≡ 64
    → IsTransform j ((initialize 95 cinfo).divisors.divisor_y)
    → IsTransform j ((initialize 95 cinfo).divisors.divisor_cb)
    → Fits m e
    → memory (length (bmp depth m e)) ≡ true
    → HasRoom memory m
    → let b : Bitmap = record { width = m.width; height = m.height; pixels = pixels depth m } in
      (file : List ℕ) × (save_jpg j convert memory globals cinfo (some (bmp depth m e)) true
        ≡ some (if leb (length file) (m.width * m.height * 4) then saved file else not_defined))
      × IsFileOf j convert b file
unfolding save_jpg save_picture imagesize
save_jpg-IsFileOf j convert memory globals cinfo depth m e ready ys cbs ty tcb fits fm room =
    let b : Bitmap = record { width = m.width; height = m.height; pixels = pixels depth m } in
    let w8 = round8_same m.width room.width_whole in
    let h8 = round8_same m.height room.height_whole in
    let r =
      write_picture-IsFileOf j convert globals cinfo ready ys cbs ty tcb memory b
        (HasRoom-buffers memory depth m room) (omega (arith, w8, room.width_le))
        (omega (arith, h8, room.height_le)) in
    (
      r.0,
      rw (load_bmp-bmp memory depth m e fits room.size_lt fm room.pixel_memory) (
          r.1
          ∙ ap₂
              (λ (w h : ℕ). some (if leb (length r.0) (w * h * 4) then saved r.0 else not_defined))
              w8 h8),
      r.2,
    )
