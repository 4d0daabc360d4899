-- ===== src/Tool/SaveJpg.antt =====
-- The mode `-j` of `main` in libusbdisp/jpegenc.c: a bitmap file becomes a JPEG file.
use jpeg_study.Prelude.{ℕ, ◌*◌, ◌^◌, ltb, leb, ◌==◌, ◌&&◌, Bool, if◌then◌else◌}
use jpeg_study.Prelude.{List, [], length, take, Option, some, ◌>>=◌}
use jpeg_study.Encoder.Cinfo.{Cinfo, Globals, initialize, initialize_globals}
use jpeg_study.Encoder.File.{write_header_to}
use jpeg_study.Encoder.Main.{Jsimd, encode}
use jpeg_study.Bmp.Load.{Bitmap, Loading, refused, undefined, loaded, load_bmp}
use jpeg_study.Frame.Convert.{YccConvert, rgb2ycc}
use jpeg_study.Frame.Buffer.{round8}

-- What the call leaves: nothing, if there is no picture or the output cannot be opened, or the bytes of the
-- output; or nothing that C defines, where an `int` overflows or memory is used that was not allocated.
pub data Outcome : Type 0 where
  no_picture : Outcome
  no_output : Outcome
  not_defined : Outcome
  saved : List ℕ → Outcome

-- `Initialize`, the assignments to `cinfo`, `WriteHeader` and `rgb2ycc`.
unfoldable pub picture_cinfo : YccConvert → Globals → Bitmap → Cinfo → Cinfo
picture_cinfo convert g b cinfo =
    let cinfo = initialize 95 cinfo in
    let cinfo = record cinfo {
      ximage = round8 b.width;
      yimage = round8 b.height;
      writer = record cinfo.writer { jpeg_stream = [] };
    } in
    rgb2ycc convert (round8 b.width) (round8 b.width) (round8 b.height) b.pixels 0
      (write_header_to g b.width b.height cinfo)

-- `imagesize`.
unfoldable pub imagesize : Bitmap → ℕ
imagesize b = round8 b.width * round8 b.height

-- The products of `imagesize` are `int`s; `y_buffer` and the stream are used whether or not `malloc` succeeds;
-- and `rgb2ycc` reads `width8 * height8` pixels of `raw_buffer`.
unfoldable pub has_buffers : (ℕ → Bool) → Bitmap → Bool
has_buffers memory b =
    ltb (imagesize b * 4) (2 ^ 31)
    && memory (imagesize b * 3)
    && memory (imagesize b * 4)
    && leb (imagesize b * 4) (length b.pixels)

-- `len = encode(&cinfo); if (len) fwrite(cinfo.jpeg_stream.pbitstream, 1, len, fo)`. The stream was given `room`
-- bytes, and nothing compares its position with them.
unfoldable pub write_output : ℕ → ℕ → List ℕ → Outcome
write_output room len bytes =
    if leb (length bytes) room then saved (if len == 0 then [] else take len bytes) else not_defined

unfoldable pub write_picture :
    Jsimd → YccConvert → (ℕ → Bool) → Globals → Cinfo → Bitmap → Option Outcome
write_picture j convert memory globals cinfo b =
    let g = initialize_globals globals in
    let writing = (do
      (cinfo, len) ← encode j g (picture_cinfo convert g b cinfo)
      some (write_output (imagesize b * 4) len cinfo.writer.jpeg_stream)) in
    if has_buffers memory b then writing else some not_defined

-- From `if (raw_buffer == NULL) return 0` on; `opened` says whether the output can be opened.
unfoldable pub save_picture :
    Jsimd → YccConvert → (ℕ → Bool) → Globals → Cinfo → Bool → Loading → Option Outcome
save_picture j convert memory globals cinfo opened refused = some no_picture
save_picture j convert memory globals cinfo opened undefined = some not_defined
save_picture j convert memory globals cinfo opened (loaded b) =
    if opened then write_picture j convert memory globals cinfo b else some no_output

-- `source` is what reading the bitmap file gives. `none` if the encoder does not end.
unfoldable pub save_jpg :
    Jsimd → YccConvert → (ℕ → Bool) → Globals → Cinfo → Option (List ℕ) → Bool → Option Outcome
save_jpg j convert memory globals cinfo source opened =
    save_picture j convert memory globals cinfo opened (load_bmp memory source)
