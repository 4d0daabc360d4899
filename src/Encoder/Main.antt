-- ===== src/Encoder/Main.antt =====
-- `fdct_and_quantization`, `main_encoder` and `encode` of libusbdisp/libenc/jpeg_enc.c, for any forward
-- DCT and quantization, which the code takes from an assembler library.
use jpeg_study.Prelude.{ℕ, zero, suc, ◌+◌, ltb, if◌then◌else◌, u16, List}
use jpeg_study.Prelude.{Option, none, some, length, ◌>>=◌}
use jpeg_study.Prelude.Int.{ℤ, pos}
use jpeg_study.Stream.{writeword}
use jpeg_study.Bits.Writer.{flashbits}
use jpeg_study.Entropy.Block.{process_du}
use jpeg_study.Encoder.Cinfo.{Cinfo, Globals}
use jpeg_study.Encoder.Load.{load_data_units_from_buffer}

-- `jsimd_fdct_ifast` and `jsimd_quantize`, which work in place: what they leave in the block.
pub record Jsimd : Type 0 where
  pub fdct_ifast : List ℤ → List ℤ
  pub quantize : List ℕ → List ℤ → List ℤ

unfoldable pub fdct_and_quantization : Jsimd → List ℕ → List ℤ → List ℤ
fdct_and_quantization j divisors outdata = j.quantize divisors (j.fdct_ifast outdata)

-- `cinfo`, `DCY`, `DCCb` and `DCCr` in the loops of `main_encoder`.
pub record MainState : Type 0 where
  pub cinfo : Cinfo
  pub dcy : ℤ
  pub dccb : ℤ
  pub dccr : ℤ

-- The body of the inner loop: the blocks are loaded, transformed and then coded.
unfoldable pub transform_units : Jsimd → ℕ → ℕ → Cinfo → Cinfo
transform_units j xpos ypos cinfo =
    let cinfo = load_data_units_from_buffer xpos ypos cinfo in
    record cinfo {
      du_dct_y = fdct_and_quantization j cinfo.divisors.divisor_y cinfo.du_dct_y;
      du_dct_cb = fdct_and_quantization j cinfo.divisors.divisor_cb cinfo.du_dct_cb;
      du_dct_cr = fdct_and_quantization j cinfo.divisors.divisor_cb cinfo.du_dct_cr;
    }

unfoldable pub process_units : Globals → MainState → MainState
process_units g m =
    let cinfo = m.cinfo in
    let y = process_du cinfo.du_dct_y m.dcy g.luminance_ht cinfo.writer in
    let cb = process_du cinfo.du_dct_cb m.dccb g.chrominance_ht y.writer in
    let cr = process_du cinfo.du_dct_cr m.dccr g.chrominance_ht cb.writer in
    record { cinfo = record cinfo { writer = cr.writer }; dcy = y.dc; dccb = cb.dc; dccr = cr.dc }

unfoldable pub encode_units : Jsimd → Globals → ℕ → ℕ → MainState → MainState
encode_units j g ypos xpos m =
    process_units g (record m { cinfo = transform_units j xpos ypos m.cinfo })

-- `for (xpos=0;xpos<cinfo->Ximage;xpos+=8)` on a `WORD`; `none` if it is still running after `fuel` tests.
unfoldable pub x_loop : Jsimd → Globals → ℕ → ℕ → ℕ → MainState → Option MainState
x_loop j g zero ypos xpos m = none
x_loop j g (suc fuel) ypos xpos m =
    let further = x_loop j g fuel ypos (u16 (xpos + 8)) (encode_units j g ypos xpos m) in
    if ltb xpos m.cinfo.ximage then further else some m

-- A `WORD` that grows by 8 has 2^13 values: a loop that makes more tests never ends.
abbrev pub word_rounds : ℕ
word_rounds = 8193

unfoldable pub y_loop : Jsimd → Globals → ℕ → ℕ → MainState → Option MainState
y_loop j g zero ypos m = none
y_loop j g (suc fuel) ypos m =
    let further = (do m' ← x_loop j g word_rounds ypos 0 m; y_loop j g fuel (u16 (ypos + 8)) m') in
    if ltb ypos m.cinfo.yimage then further else some m

unfoldable pub main_encoder : Jsimd → Globals → Cinfo → Option Cinfo
main_encoder j g cinfo = do
  m ← y_loop j g word_rounds 0 (record { cinfo = cinfo; dcy = pos 0; dccb = pos 0; dccr = pos 0 })
  some (m.cinfo)

-- `encode`: the result has `cinfo` and `cinfo->jpeg_stream.pos`, the number of bytes in the stream.
unfoldable pub encode : Jsimd → Globals → Cinfo → Option (Cinfo × ℕ)
encode j g cinfo = do
  let start = record cinfo.writer { wordnew = 0; wordpos = 0 }
  cinfo ← main_encoder j g (record cinfo { writer = start })
  let flushed = flashbits cinfo.writer
  let stream = writeword flushed.jpeg_stream 0xffd9
  some (record cinfo { writer = record flushed { jpeg_stream = stream } }, length stream)
