-- ===== src/Frame/Sent.antt =====
-- The coding of one block in `getBufFormBmp` of libusbdisp/jpegenc.c.
use mathlib.Core.Path.{subst}
use jpeg_study.Prelude.{ℕ, ◌+◌, ◌≡◌, refl, ap, ◌∙◌, sym, arith}
use jpeg_study.Prelude.{Bool, if◌then◌else◌, List, [], ◌∷◌, ◌++◌, take, drop, length, some}
use jpeg_study.Quant.Tables.{Divisors}
use jpeg_study.Encoder.Cinfo.{Cinfo, IsReady}
use jpeg_study.Encoder.Main.{encode}
use jpeg_study.Encoder.Scan.{IsTransform}
use jpeg_study.Encoder.Encode.{IsScanOf, encode-IsScanOf, encode-Kept}
use jpeg_study.Frame.BlockHeader.{block_header, compress_len}
use jpeg_study.Frame.Convert.{convert_rows, rgb2ycc}
use jpeg_study.Frame.Blocks.{CodedBlock, Frame, Setting, send_block}

-- What the blocks of a frame are coded with.
pub record CanCode (s : Setting) (d : Divisors) (cinfo : Cinfo) : Type 0 where
  pub ready : IsReady s.globals
  pub ximage_is : cinfo.ximage ≡ 32
  pub yimage_is : cinfo.yimage ≡ 8
  pub divisors_are : cinfo.divisors ≡ d
  pub transform_y : IsTransform s.jsimd d.divisor_y
  pub transform_cb : IsTransform s.jsimd d.divisor_cb

-- A block that holds the scan data of the 32 by 8 pixels from byte `at` of the frame on.
pub record Holds (s : Setting) (d : Divisors) (at k mark : ℕ) (b : CodedBlock) : Type 0 where
  pub source : Cinfo
  pub y_is : source.y_buffer ≡ convert_rows s.convert (λ r. r.component0) s.width8 32 8 s.raw at
  pub cb_is : source.cb_buffer ≡ convert_rows s.convert (λ r. r.component2) s.width8 32 8 s.raw at
  pub cr_is : source.cr_buffer ≡ convert_rows s.convert (λ r. r.component1) s.width8 32 8 s.raw at
  pub ximage_is : source.ximage ≡ 32
  pub yimage_is : source.yimage ≡ 8
  pub divisors_are : source.divisors ≡ d
  pub scan : List ℕ
  pub rest : List ℕ
  pub scan_is : IsScanOf s.jsimd source scan
  pub header_is : b.header ≡ block_header (length scan) k mark
  pub payload_is : b.payload ≡ take (compress_len (length scan)) (scan ++ rest)

-- What `send_block` does to a frame.
pub record Sent (s : Setting) (d : Divisors) (at mark : ℕ) (f f' : Frame) : Type 0 where
  pub block : CodedBlock
  pub holds : Holds s d at f.blk_cnt mark block
  pub appended : f'.bitstream ≡ f.bitstream ++ (block ∷ [])
  pub counted : f'.blk_cnt ≡ f.blk_cnt + 1
  pub marked : f'.mark ≡ mark
  pub old_kept : f'.old_buffer ≡ f.old_buffer
  pub still : CanCode s d f'.cinfo

pub send_block-Sent :
    (s : Setting) (d : Divisors) (at : ℕ) (last : Bool) (f : Frame)
    → CanCode s d f.cinfo
    → (f' : Frame) × (send_block s at last f ≡ some f')
      × Sent s d at (if last then 1 else f.mark) f f'
unfolding send_block rgb2ycc
send_block-Sent s d at last f can =
    let converted = rgb2ycc s.convert s.width8 32 8 s.raw at f.cinfo in
    let source = record converted { writer = record converted.writer { jpeg_stream = [] } } in
    let ty = subst (λ t. IsTransform s.jsimd t.divisor_y) (sym can.divisors_are) can.transform_y in
    let tcb =
      subst (λ t. IsTransform s.jsimd t.divisor_cb) (sym can.divisors_are) can.transform_cb in
    let r =
      encode-IsScanOf s.jsimd s.globals source can.ready (omega (arith, can.ximage_is))
        (omega (arith, can.yimage_is)) ty tcb in
    let coded : encode s.jsimd s.globals source ≡ some (r.0, length r.1) =
      r.2 ∙ ap (λ (n : ℕ). some (r.0, n)) (omega arith) in
    let bytes = length r.1 in
    let stale = drop bytes f.area in
    let area = r.0.writer.jpeg_stream ++ stale in
    let mark : ℕ = if last then 1 else f.mark in
    let block : CodedBlock = record {
      header = block_header bytes f.blk_cnt mark;
      payload = take (compress_len bytes) area;
    } in
    let kept =
      encode-Kept s.jsimd s.globals source r.0 bytes (omega (arith, can.ximage_is))
        (omega (arith, can.yimage_is)) coded in
    (
      record f {
        cinfo = r.0;
        area = area;
        mark = mark;
        bitstream = f.bitstream ++ (block ∷ []);
        blk_cnt = f.blk_cnt + 1;
      },
      rw coded refl,
      record {
        block = block;
        holds = record {
          source = source;
          y_is = refl;
          cb_is = refl;
          cr_is = refl;
          ximage_is = can.ximage_is;
          yimage_is = can.yimage_is;
          divisors_are = can.divisors_are;
          scan = r.1;
          rest = stale;
          scan_is = r.4;
          header_is = refl;
          payload_is = ap (λ stream. take (compress_len bytes) (stream ++ stale)) r.3;
        };
        appended = refl;
        counted = refl;
        marked = refl;
        old_kept = refl;
        still = record {
          ready = can.ready;
          ximage_is = kept.ximage_is ∙ can.ximage_is;
          yimage_is = kept.yimage_is ∙ can.yimage_is;
          divisors_are = kept.divisors_are ∙ can.divisors_are;
          transform_y = can.transform_y;
          transform_cb = can.transform_cb;
        };
      },
    )
