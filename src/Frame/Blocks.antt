-- ===== src/Frame/Blocks.antt =====
-- The loops over the blocks of a frame in `getBufFormBmp` of libusbdisp/jpegenc.c, with the comparison of the
-- frame with the one before.
use jpeg_study.Prelude.{ℕ, zero, suc, ◌+◌, ◌*◌, ◌/◌, ◌==◌, ◌&&◌, not, Bool, true, if◌then◌else◌}
use jpeg_study.Prelude.{List, [], ◌∷◌, ◌++◌, get_or, set, take, drop, Option, some, ◌>>=◌}
use jpeg_study.Encoder.Cinfo.{Cinfo, Globals}
use jpeg_study.Encoder.Main.{Jsimd, encode}
use jpeg_study.Frame.BlockHeader.{BlockHeader, block_header, compress_len}
use jpeg_study.Frame.Convert.{YccConvert, rgb2ycc}

-- `memcmp(a + p, b + p, n) == 0`.
unfoldable pub same_bytes : ℕ → ℕ → List ℕ → List ℕ → Bool
same_bytes zero p a b = true
same_bytes (suc n) p a b = get_or a p 0 == get_or b p 0 && same_bytes n (suc p) a b

-- `memcpy(to + p, from + p, n)`.
unfoldable pub copy_bytes : ℕ → ℕ → List ℕ → List ℕ → List ℕ
copy_bytes zero p to from = to
copy_bytes (suc n) p to from = copy_bytes n (suc p) (set to p (get_or from p 0)) from

-- `BLOCK_SIZE`.
abbrev pub block_size : ℕ
block_size = 32 * 8 * 3

-- A block in `bitstream`: its header and the words behind it.
pub record CodedBlock : Type 0 where
  pub header : BlockHeader
  pub payload : List ℕ

-- `area` is what `blk_buffer` holds behind its first 4 bytes, `mark` is `pheader->end`, and `old_buffer` has the
-- frame before.
pub record Frame : Type 0 where
  pub cinfo : Cinfo
  pub area : List ℕ
  pub mark : ℕ
  pub bitstream : List CodedBlock
  pub old_buffer : List ℕ
  pub blk_cnt : ℕ

-- What does not change in the loops.
pub record Setting : Type 0 where
  pub jsimd : Jsimd
  pub globals : Globals
  pub convert : YccConvert
  pub raw : List ℕ
  pub width8 : ℕ
  pub height8 : ℕ
  pub first : Bool

-- From `rgb2ycc` on: the block whose first byte is `at` is coded into `blk_buffer`, over what is there, and
-- copied from it behind its header.
unfoldable pub send_block : Setting → ℕ → Bool → Frame → Option Frame
send_block s at last f = do
  let converted = rgb2ycc s.convert s.width8 32 8 s.raw at f.cinfo
  let writer = record converted.writer { jpeg_stream = [] }
  (cinfo, bytes) ← encode s.jsimd s.globals (record converted { writer = writer })
  let area = cinfo.writer.jpeg_stream ++ drop bytes f.area
  let mark : ℕ = if last then 1 else f.mark
  let block : CodedBlock = record {
    header = block_header bytes f.blk_cnt mark;
    payload = take (compress_len bytes) area;
  }
  some (record f {
    cinfo = cinfo;
    area = area;
    mark = mark;
    bitstream = f.bitstream ++ (block ∷ []);
    blk_cnt = f.blk_cnt + 1;
  })

-- The body of the inner loop; `row` is where `raw_buffer` and `poldBuffer` stand.
unfoldable pub frame_block : Setting → ℕ → ℕ → ℕ → Frame → Option Frame
frame_block s row blk_y blk_x f =
    let at = row + blk_x * 32 * 4 in
    let last = blk_x + 1 == s.width8 / 32 && blk_y + 1 == s.height8 / 8 in
    let old = if s.first then f.old_buffer else copy_bytes block_size at f.old_buffer s.raw in
    if not s.first && same_bytes block_size at f.old_buffer s.raw
    then some (record f { blk_cnt = f.blk_cnt + 1 })
    else send_block s at last (record f { old_buffer = old })

-- `for (int blk_x = 0; blk_x < width8 / BLOCK_WIDTH; blk_x++, blk_cnt++)`.
unfoldable pub x_blocks : Setting → ℕ → ℕ → ℕ → ℕ → Frame → Option Frame
x_blocks s zero row blk_y blk_x f = some f
x_blocks s (suc left) row blk_y blk_x f = do
  f' ← frame_block s row blk_y blk_x f
  x_blocks s left row blk_y (suc blk_x) f'

-- `for (...; blk_y < height8 / BLOCK_HEIGHT; blk_y++)`.
unfoldable pub y_blocks : Setting → ℕ → ℕ → ℕ → Frame → Option Frame
y_blocks s zero row blk_y f = some f
y_blocks s (suc left) row blk_y f = do
  f' ← x_blocks s (s.width8 / 32) row blk_y 0 f
  y_blocks s left (row + s.width8 * 4 * 8) (suc blk_y) f'

unfoldable pub frame_blocks : Setting → Frame → Option Frame
frame_blocks s f = y_blocks s (s.height8 / 8) 0 0 f
