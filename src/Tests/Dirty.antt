-- ===== src/Tests/Dirty.antt =====
-- The theorems on the frames that `getBufFormBmp` of libusbdisp/jpegenc.c sends, at a frame of 160 by 8 whose
-- third row has changed, and at frames of two blocks.
use jpeg_study.Prelude.{ℕ, ◌+◌, ◌*◌, ◌<◌, ◌≤◌, ◌≡◌, refl, sym, ◌∙◌, arith, true, false, dec_lt}
use jpeg_study.Prelude.{List, [], ◌∷◌, ◌++◌, get_or, replicate, take, some}
use jpeg_study.Prelude.{length-append, length-replicate, get_or-append_left, get_or_beyond}
use jpeg_study.Bmp.Load.{Bitmap}
use jpeg_study.Encoder.Cinfo.{Cinfo}
use jpeg_study.Frame.Convert.{YccConvert}
use jpeg_study.Frame.Blocks.{Frame, Setting, same_bytes, block_size, frame_blocks}
use jpeg_study.Frame.Buffer.{Screen, FrameBuffer, get_buf_form_bmp, round8}
use jpeg_study.Frame.Dirty.{SameTopRows, OnlyPadding, get_buf_form_bmp-unseen}
use jpeg_study.Frame.Sent.{CanCode}
use jpeg_study.Frame.Whole.{HoldAll, block_places, frame_blocks-HoldAll}
use jpeg_study.Frame.Missed.{OnlyFirst, frame_blocks-OnlyFirst}
use jpeg_study.Tests.Data.{
  fresh, filled, blank_divisors, small_cinfo, no_transform, no_transform-IsTransform,
}

-- Blue for luma, the others constant.
abbrev pub plain : YccConvert
plain w bytes = record {
  component0 = take w bytes;
  component1 = replicate w 128;
  component2 = replicate w 128;
}

-- The first two rows of a frame, and a third one that changes.
abbrev top : List ℕ
top = replicate 1280 7

abbrev before : List ℕ
before = top ++ replicate 5 1

abbrev after : Bitmap
after = record { width = 160; height = 8; pixels = top ++ replicate 5 2 }

abbrev screen : Screen
screen = record { globals = fresh; cinfo = small_cinfo; old_buffer = some before }

in_top : (rest : List ℕ) (k : ℕ) → k < 1280 → get_or (top ++ rest) k 0 ≡ get_or top k 0
in_top rest k h = get_or-append_left top rest k 0 (omega (arith, length-replicate {A = ℕ} 1280 7))

below : (v k : ℕ) → 1285 ≤ k → get_or (top ++ replicate 5 v) k 0 ≡ 0
below v k h =
    get_or_beyond (top ++ replicate 5 v) k 0
      (omega (arith, length-append top (replicate 5 v), length-replicate {A = ℕ} 1280 7))

same_top : SameTopRows (round8 160 * 4) before after.pixels
unfolding round8
same_top row c top_row inside = elim (dec_lt row 2) [
  | yes h ↦
      in_top (replicate 5 1) (row * 640 + c) (omega arith)
      ∙ sym (in_top (replicate 5 2) (row * 640 + c) (omega arith))
  | no h ↦ below 1 (row * 640 + c) (omega arith) ∙ sym (below 2 (row * 640 + c) (omega arith))
]

get_buf_form_bmp-unseen_example :
    (r : FrameBuffer) × (get_buf_form_bmp no_transform plain [] [] screen after ≡ some r)
    × OnlyPadding before r
get_buf_form_bmp-unseen_example =
    get_buf_form_bmp-unseen no_transform plain [] [] screen after before refl (omega arith) same_top

-- Two blocks side by side.
abbrev two_cinfo : Cinfo
two_cinfo = record small_cinfo { ximage = 32 }

abbrev two_blocks : List ℕ → Frame
two_blocks old = record {
  cinfo = two_cinfo;
  area = replicate 764 0;
  mark = 0;
  bitstream = [];
  old_buffer = old;
  blk_cnt = 0;
}

abbrev changed : List ℕ
changed = 1 ∷ replicate 255 0

abbrev first_setting : Setting
first_setting = record {
  jsimd = no_transform;
  globals = filled;
  convert = plain;
  raw = changed;
  width8 = 64;
  height8 = 8;
  first = true;
}

abbrev later_setting : Setting
later_setting = record first_setting { first = false }

first_setting-CanCode : CanCode first_setting blank_divisors two_cinfo
first_setting-CanCode = record {
  ready = (refl, refl, refl, refl);
  ximage_is = refl;
  yimage_is = refl;
  divisors_are = refl;
  transform_y = no_transform-IsTransform _;
  transform_cb = no_transform-IsTransform _;
}

later_setting-CanCode : CanCode later_setting blank_divisors two_cinfo
later_setting-CanCode = record {
  ready = (refl, refl, refl, refl);
  ximage_is = refl;
  yimage_is = refl;
  divisors_are = refl;
  transform_y = no_transform-IsTransform _;
  transform_cb = no_transform-IsTransform _;
}

frame_blocks-HoldAll_example :
    (f' : Frame) × (frame_blocks first_setting (two_blocks []) ≡ some f')
    × HoldAll first_setting blank_divisors (block_places 2 1 0) f'.bitstream
frame_blocks-HoldAll_example =
    frame_blocks-HoldAll first_setting blank_divisors (two_blocks []) refl refl refl refl
      first_setting-CanCode

abbrev old_bytes : List ℕ
old_bytes = replicate 768 0

behind : (k : ℕ) → block_size ≤ k → get_or old_bytes k 0 ≡ get_or changed k 0
behind k h =
    get_or_beyond old_bytes k 0 (omega (arith, length-replicate {A = ℕ} 768 0))
    ∙ sym (get_or_beyond changed k 0 (omega (arith, length-replicate {A = ℕ} 255 0)))

differs : same_bytes block_size 0 old_bytes changed ≡ false
unfolding same_bytes
differs = refl

frame_blocks-OnlyFirst_example :
    (f' : Frame) × (frame_blocks later_setting (two_blocks old_bytes) ≡ some f')
    × OnlyFirst later_setting blank_divisors (two_blocks old_bytes) f'
frame_blocks-OnlyFirst_example =
    frame_blocks-OnlyFirst later_setting blank_divisors (two_blocks old_bytes) refl (omega arith)
      (omega arith) (omega (arith, length-replicate {A = ℕ} 768 0)) differs behind
      later_setting-CanCode
