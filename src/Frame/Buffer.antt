-- ===== src/Frame/Buffer.antt =====
-- `getBufFormBmp` of libusbdisp/jpegenc.c as a whole, and the file that the mode `-b` of its `main` writes.
use jpeg_study.Prelude.{ℕ, ◌+◌, ◌*◌, ◌/◌, Bool, true, false}
use jpeg_study.Prelude.{List, [], ◌∷◌, ◌++◌, take, length, Option, some, none, ◌>>=◌}
use jpeg_study.Bmp.Load.{Bitmap}
use jpeg_study.Bmp.Print.{le32}
use jpeg_study.Encoder.Cinfo.{Cinfo, Globals, initialize, initialize_globals}
use jpeg_study.Encoder.Main.{Jsimd}
use jpeg_study.Frame.BlockHeader.{header_word}
use jpeg_study.Frame.Padding.{pad_stream}
use jpeg_study.Frame.Convert.{YccConvert}
use jpeg_study.Frame.Blocks.{CodedBlock, Frame, Setting, frame_blocks}

-- `((n + 7) >> 3) << 3`.
unfoldable pub round8 : ℕ → ℕ
round8 n = (n + 7) / 8 * 8

-- `last_header->end = 1`. With no block, `last_header` is the start of the stream, which the padding covers.
unfoldable pub mark_last : List CodedBlock → List CodedBlock
mark_last [] = []
mark_last (b ∷ []) = record b { header = record b.header { end = 1 } } ∷ []
mark_last (b ∷ c ∷ bs) = b ∷ mark_last (c ∷ bs)

-- The bytes of the blocks in `bitstream`.
unfoldable pub stream_bytes : List CodedBlock → List ℕ
stream_bytes [] = []
stream_bytes (b ∷ bs) = le32 (header_word b.header) ++ (b.payload ++ stream_bytes bs)

-- The static variables that the function keeps from call to call.
pub record Screen : Type 0 where
  pub globals : Globals
  pub cinfo : Cinfo
  pub old_buffer : Option (List ℕ)

-- `*plen` and the bytes that the returned pointer leads to.
pub record FrameBuffer : Type 0 where
  pub plen : ℕ
  pub bytes : List ℕ
  pub screen : Screen

-- `Initialize(&cinfo, JPEG_QUALITY)` and the assignments for blocks of 32 by 8.
unfoldable pub block_cinfo : Cinfo → Cinfo
block_cinfo cinfo = record (initialize 95 cinfo) { ximage = 32; yimage = 8 }

unfoldable pub begin_frame : Cinfo → List ℕ → List ℕ → Frame
begin_frame cinfo area old = record {
  cinfo = block_cinfo cinfo;
  area = area;
  mark = 0;
  bitstream = [];
  old_buffer = old;
  blk_cnt = 0;
}

-- The stream of the blocks with its padding.
unfoldable pub end_frame : Globals → Frame → List CodedBlock → Option FrameBuffer
end_frame g f blocks = do
  let stream = stream_bytes blocks
  p ← pad_stream (length stream)
  let screen : Screen = record { globals = g; cinfo = f.cinfo; old_buffer = some f.old_buffer }
  some (record { plen = p.streamlen; bytes = stream ++ p.written; screen = screen })

-- `area` and `tail` are what `malloc` leaves in `blk_buffer` and in the last BLOCK_WIDTH * 4 bytes of
-- `oldBuffer`. `none` if a loop does not end.
unfoldable pub get_buf_form_bmp :
    Jsimd → YccConvert → List ℕ → List ℕ → Screen → Bitmap → Option FrameBuffer
get_buf_form_bmp j convert area tail screen b = do
  let g = initialize_globals screen.globals
  let copied = take (b.width * b.height * 4) b.pixels ++ tail
  let old : List ℕ = elim screen.old_buffer [ none ↦ copied | some kept ↦ kept ]
  let first : Bool = elim screen.old_buffer [ none ↦ true | some kept ↦ false ]
  let s : Setting = record {
    jsimd = j;
    globals = g;
    convert = convert;
    raw = b.pixels;
    width8 = round8 b.width;
    height8 = round8 b.height;
    first = first;
  }
  f ← frame_blocks s (begin_frame screen.cinfo area old)
  end_frame g f (mark_last f.bitstream)

-- The mode `-b`: all blocks are coded, and the last one in place has the mark.
unfoldable pub bmp_to_bin : Jsimd → YccConvert → List ℕ → Screen → Bitmap → Option (List ℕ)
bmp_to_bin j convert area screen b = do
  let g = initialize_globals screen.globals
  let s : Setting = record {
    jsimd = j;
    globals = g;
    convert = convert;
    raw = b.pixels;
    width8 = round8 b.width;
    height8 = round8 b.height;
    first = true;
  }
  f ← frame_blocks s (begin_frame screen.cinfo area [])
  r ← end_frame g f f.bitstream
  some (take r.plen r.bytes)
