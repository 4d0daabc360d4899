-- ===== src/Encoder/Encode.antt =====
-- `encode` of libusbdisp/libenc/jpeg_enc.c: the scan data that follows the header.
use mathlib.Core.Path.{subst}
use mathlib.Core.List.{append_assoc, append-nil, map}
use jpeg_study.Prelude.{ℕ, ◌+◌, ◌≤◌, ◌<◌, ◌≡◌, refl, sym, ap, ◌∙◌, arith}
use jpeg_study.Prelude.{
  false, List, [], ◌∷◌, ◌++◌, length, length-append, foldl, replicate, Option, none, some,
}
use jpeg_study.Prelude.Int.{pos}
use jpeg_study.Stream.{ByteStream, writeword, writeword-append}
use jpeg_study.Bits.Writer.{flashbits}
use jpeg_study.Bits.Digits.{bits_of}
use jpeg_study.Bits.Stuffing.{stuff, read_scan, read_scan-stuff, bits_of_bytes}
use jpeg_study.Bits.Queue.{Carries}
use jpeg_study.Bits.Flush.{Ends, flashbits-Ends}
use jpeg_study.Encoder.Cinfo.{Cinfo, Globals, IsReady}
use jpeg_study.Encoder.Main.{Jsimd, MainState, encode}
use jpeg_study.Encoder.Raster.{
  blocks, raster, encode_at, main_encoder-raster, size_kept, divisors_kept,
}
use jpeg_study.Encoder.Scan.{IsTransform, unit_blocks, decode_scan}
use jpeg_study.Encoder.Scan.Written.{ScanWritten, encode_at-ScanWritten}

-- The places of the blocks of an image.
abbrev pub places : Cinfo → List (ℕ × ℕ)
places cinfo = raster cinfo.ximage (blocks cinfo.yimage) 0

-- What a reader of scan data finds in the bytes `scan`: stuffed data up to an EOI marker, whose bits are
-- those of the units, in order, and fewer than 8 zeros that fill the last byte.
pub record IsScanOf (j : Jsimd) (cinfo : Cinfo) (scan : List ℕ) : Type 0 where
  pub payload : List ℕ
  pub pad : ℕ
  pub unstuffed : read_scan false scan ≡ some (payload, 0xd9 ∷ [])
  pub pad_lt : pad < 8
  pub decoded :
      decode_scan (length (places cinfo)) (pos 0) (pos 0) (pos 0) (bits_of_bytes payload)
      ≡ some (map (unit_blocks j cinfo) (places cinfo), replicate pad false)

-- The writer that `encode` starts with.
abbrev started : Cinfo → Cinfo
started cinfo = record cinfo { writer = record cinfo.writer { wordnew = 0; wordpos = 0 } }

started-Carries : (cinfo : Cinfo) → Carries cinfo.writer.jpeg_stream [] ((started cinfo).writer)
unfolding stuff bits_of_bytes bits_of
started-Carries cinfo = record {
  payload = [];
  stream_is = rw append-nil refl;
  bytes = tt;
  bits_are = refl;
  pos_lt = omega arith;
  word_lt = omega arith;
}

module _ (j : Jsimd) (g : Globals) (cinfo : Cinfo) (ready : IsReady g)
    (ty : IsTransform j cinfo.divisors.divisor_y)
    (tcb : IsTransform j cinfo.divisors.divisor_cb) where
  abbrev base : ByteStream
  base = cinfo.writer.jpeg_stream

  abbrev start : MainState
  start = record { cinfo = started cinfo; dcy = pos 0; dccb = pos 0; dccr = pos 0 }

  -- `cinfo` behind the loops.
  abbrev coded_cinfo : Cinfo
  coded_cinfo = (foldl (encode_at j g) start (places cinfo)).cinfo

  units : ScanWritten j g ready base [] start (places cinfo)
  units =
      encode_at-ScanWritten j g ready base (places cinfo) [] start ty tcb
        (omega arith, omega arith, omega arith) (started-Carries cinfo)

  ended : Ends base units.coded (flashbits coded_cinfo.writer)
  ended = flashbits-Ends base units.coded coded_cinfo.writer units.carries

  scan : List ℕ
  scan = stuff ended.payload ++ (0xff ∷ 0xd9 ∷ [])

  final_stream : ByteStream
  final_stream = writeword ((flashbits coded_cinfo.writer).jpeg_stream) 0xffd9

  final_stream-append : final_stream ≡ base ++ scan
  unfolding final_stream scan
  final_stream-append =
      writeword-append ((flashbits coded_cinfo.writer).jpeg_stream) 0xffd9 (omega arith)
      ∙ ap (λ s. s ++ (0xff ∷ 0xd9 ∷ [])) ended.stream_is
      ∙ append_assoc base (stuff ended.payload) _

  scan-IsScanOf : IsScanOf j cinfo scan
  unfolding scan
  scan-IsScanOf = record {
    payload = ended.payload;
    pad = ended.pad;
    unstuffed = read_scan-stuff ended.payload 0xd9 [] (omega arith);
    pad_lt = ended.pad_lt;
    decoded =
        subst
          (λ b.
            decode_scan (length (places cinfo)) (pos 0) (pos 0) (pos 0) b
            ≡ some (map (unit_blocks j cinfo) (places cinfo), replicate ended.pad false))
          (sym ended.bits_are) (unfold unit_blocks in units.reads (replicate ended.pad false));
  }

-- For an image of at most 65528 columns and rows, with the standard tables in the static variables and a
-- transform that gives baseline coefficients, `encode` ends. It has appended scan data to the stream, up
-- to an EOI marker, from which a decoder that knows the DHT segments alone reads the transformed blocks
-- of the whole image back; and it returns the number of bytes in the stream.
pub encode-IsScanOf :
    (j : Jsimd) (g : Globals) (cinfo : Cinfo)
    → IsReady g
    → cinfo.ximage ≤ 65528
    → cinfo.yimage ≤ 65528
    → IsTransform j cinfo.divisors.divisor_y
    → IsTransform j cinfo.divisors.divisor_cb
    → (result : Cinfo) × (scan : List ℕ) × (encode j g cinfo
        ≡ some (result, length cinfo.writer.jpeg_stream + length scan))
      × (result.writer.jpeg_stream ≡ cinfo.writer.jpeg_stream ++ scan)
      × IsScanOf j cinfo scan
unfolding encode final_stream
encode-IsScanOf j g cinfo ready narrow low ty tcb =
    let c = coded_cinfo j g cinfo ready ty tcb in
    let bytes = scan j g cinfo ready ty tcb in
    let stream_is = final_stream-append j g cinfo ready ty tcb in
    let result = record c {
      writer = record (flashbits c.writer) { jpeg_stream = final_stream j g cinfo ready ty tcb };
    } in
    (
      result,
      bytes,
      rw (main_encoder-raster j g (started cinfo) narrow low) (
          ap (λ n. some (result, n))
            (ap length stream_is ∙ length-append cinfo.writer.jpeg_stream bytes)),
      stream_is,
      scan-IsScanOf j g cinfo ready ty tcb,
    )

-- `encode` leaves the size of the image and the divisors alone.
pub record Kept (before after : Cinfo) : Type 0 where
  pub ximage_is : after.ximage ≡ before.ximage
  pub yimage_is : after.yimage ≡ before.yimage
  pub divisors_are : after.divisors ≡ before.divisors

pub encode-Kept :
    (j : Jsimd) (g : Globals) (cinfo result : Cinfo) (n : ℕ)
    → cinfo.ximage ≤ 65528
    → cinfo.yimage ≤ 65528
    → encode j g cinfo ≡ some (result, n)
    → Kept cinfo result
unfolding encode
encode-Kept j g cinfo result n narrow low h =
    let m : MainState = record { cinfo = started cinfo; dcy = pos 0; dccb = pos 0; dccr = pos 0 } in
    let c = (foldl (encode_at j g) m (places cinfo)).cinfo in
    let r = rw (main_encoder-raster j g (started cinfo) narrow low) at h in
    let size = size_kept j g (places cinfo) m in
    record {
      ximage_is =
          sym (ap (λ (o : Option (Cinfo × ℕ)). elim o [ none ↦ 0 | some (a, k) ↦ a.ximage ]) r)
          ∙ size.0;
      yimage_is =
          sym (ap (λ (o : Option (Cinfo × ℕ)). elim o [ none ↦ 0 | some (a, k) ↦ a.yimage ]) r)
          ∙ size.1;
      divisors_are =
          sym (
            ap
              (λ (o : Option (Cinfo × ℕ)). elim o [
                | none ↦ cinfo.divisors
                | some (a, k) ↦ a.divisors
              ])
              r)
          ∙ divisors_kept j g (places cinfo) m;
    }
