-- ===== src/Frame/Dirty.antt =====
-- What `getBufFormBmp` of libusbdisp/jpegenc.c sends of a frame behind another one: it compares BLOCK_SIZE bytes
-- that follow each other, 192 pixels of the block's first row and of what lies behind it.
use jpeg_study.Prelude.{ℕ, ◌+◌, ◌-◌, ◌*◌, ◌/◌, ◌%◌, ◌<◌, ◌≤◌, ◌≡◌, refl, arith}
use jpeg_study.Prelude.{false, dec_lt, List, get_or, some}
use jpeg_study.Bmp.Load.{Bitmap}
use jpeg_study.Encoder.Cinfo.{initialize_globals}
use jpeg_study.Encoder.Main.{Jsimd}
use jpeg_study.Frame.Convert.{YccConvert}
use jpeg_study.Frame.Padding.{Padded, pad_stream, pad_lem}
use jpeg_study.Frame.Blocks.{block_size, Setting, frame_blocks}
use jpeg_study.Frame.Buffer.{
  round8, Screen, FrameBuffer, begin_frame, end_frame, mark_last, stream_bytes, get_buf_form_bmp,
}
use jpeg_study.Frame.Skips.{Agree, y_blocks-skip}

-- Two frames, cut into rows of `pitch` bytes, agree in rows 0 and 1 of every 8 rows.
abbrev pub SameTopRows : ℕ → List ℕ → List ℕ → Type 0
SameTopRows pitch old raw =
    (row c : ℕ)
    → row % 8 < 2
    → c < pitch
    → get_or old (row * pitch + c) 0 ≡ get_or raw (row * pitch + c) 0

-- The bytes that are compared for a block lie in the first two of its rows.
SameTopRows-Agree :
    (width8 y x : ℕ) (old raw : List ℕ)
    → 160 ≤ width8
    → x < width8 / 32
    → SameTopRows (width8 * 4) old raw
    → Agree block_size (0 + y * (width8 * 4 * 8) + x * 32 * 4) old raw
SameTopRows-Agree width8 y x old raw wide hx same k low high =
    elim (dec_lt k (y * 8 * (width8 * 4) + width8 * 4)) [
      | yes first ↦
          let c = k - y * 8 * (width8 * 4) in
          let place : k ≡ y * 8 * (width8 * 4) + c = omega arith in
          rw place (same (y * 8) c (omega arith) (omega arith))
      | no second ↦
          let second_row : (y * 8 + 1) * (width8 * 4) ≡ y * 8 * (width8 * 4) + width8 * 4 =
            grind arith in
          let c = k - (y * 8 + 1) * (width8 * 4) in
          let place : k ≡ (y * 8 + 1) * (width8 * 4) + c = omega (arith, second_row) in
          rw place (same (y * 8 + 1) c (omega arith) (omega (arith, second_row)))
    ]

-- The result is the padding alone, and the frame that was kept stays.
pub record OnlyPadding (old : List ℕ) (r : FrameBuffer) : Type 0 where
  pub plen_is : r.plen ≡ 128
  pub bytes_are : (p : Padded) × (pad_stream 0 ≡ some p) × (r.bytes ≡ p.written)
  pub kept_is : r.screen.old_buffer ≡ some old

-- A frame whose blocks are all passed over.
module _ (j : Jsimd) (convert : YccConvert) (area tail : List ℕ) (screen : Screen) (b : Bitmap)
    (old : List ℕ) (kept : screen.old_buffer ≡ some old) where
  abbrev setting : Setting
  setting = record {
    jsimd = j;
    globals = initialize_globals screen.globals;
    convert = convert;
    raw = b.pixels;
    width8 = round8 b.width;
    height8 = round8 b.height;
    first = false;
  }

  all_skipped :
      ((y x : ℕ)
        → x < round8 b.width / 32
        → Agree block_size (0 + y * (round8 b.width * 4 * 8) + x * 32 * 4) old b.pixels)
      → (r : FrameBuffer) × (get_buf_form_bmp j convert area tail screen b ≡ some r)
        × OnlyPadding old r
  unfolding get_buf_form_bmp frame_blocks begin_frame end_frame mark_last stream_bytes
  all_skipped same =
      let start = begin_frame screen.cinfo area old in
      let skipped =
        y_blocks-skip setting refl (round8 b.height / 8) 0 0 start (λ y x l m. same y x m) in
      let p = pad_lem 0 (omega arith) in
      (
        record {
          plen = p.0.streamlen;
          bytes = p.0.written;
          screen = record {
            globals = initialize_globals screen.globals;
            cinfo = start.cinfo;
            old_buffer = some old;
          };
        },
        rw (kept, skipped, p.1) refl,
        record {
          plen_is = omega (arith, p.2, p.3, p.4);
          bytes_are = (p.0, p.1, refl);
          kept_is = refl;
        },
      )

-- Let a frame have at least 153 columns, which the code rounds up to 160 or more, and let it agree with the frame that
-- was kept in rows 0 and 1 of every 8 rows, where both are cut into rows of the rounded number of pixels. Then it is
-- sent as padding alone, 128 bytes, and is not kept, whatever the other rows hold. For a width that is no multiple
-- of 8 these rows are not the rows of the picture, since the pixels are stored without the columns added.
pub get_buf_form_bmp-unseen :
    (j : Jsimd) (convert : YccConvert) (area tail : List ℕ) (screen : Screen) (b : Bitmap)
    (old : List ℕ)
    → screen.old_buffer ≡ some old
    → 153 ≤ b.width
    → SameTopRows (round8 b.width * 4) old b.pixels
    → (r : FrameBuffer) × (get_buf_form_bmp j convert area tail screen b ≡ some r)
      × OnlyPadding old r
unfolding round8
get_buf_form_bmp-unseen j convert area tail screen b old kept wide same =
    all_skipped j convert area tail screen b old kept
      (λ y x hx. SameTopRows-Agree (round8 b.width) y x old b.pixels (omega arith) hx same)
