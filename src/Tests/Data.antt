-- ===== src/Tests/Data.antt =====
-- Test data for libusbdisp/libenc/jpeg_enc.c: an image of 8 by 8, a transform and a writer.
use mathlib.Core.List.{map}
use jpeg_study.Prelude.{ℕ, ◌*◌, ◌%◌, ◌≤◌, refl, arith, true, false}
use jpeg_study.Prelude.{List, [], ◌∷◌, replicate, range_from, get_or, All-get_or}
use jpeg_study.Prelude.Int.{ℤ, pos, negsuc, magnitude}
use jpeg_study.Header.Infos.{DqtInfo}
use jpeg_study.Header.Writers.{set_dht_info}
use jpeg_study.Quant.Tables.{Divisors}
use jpeg_study.Huffman.Codes.{y_ht, cb_ht, zero_ht}
use jpeg_study.Bits.Writer.{BitWriter}
use jpeg_study.Bits.Digits.{bits_of}
use jpeg_study.Bits.Stuffing.{stuff, bits_of_bytes}
use jpeg_study.Bits.Queue.{Carries}
use jpeg_study.Encoder.Cinfo.{Cinfo, Globals, IsStatic}
use jpeg_study.Encoder.Main.{Jsimd, fdct_and_quantization}
use jpeg_study.Encoder.Scan.{IsDc, IsTransform}

abbrev pub blank_dqt : DqtInfo
blank_dqt = record {
  marker = 0;
  len = 0;
  qt_y_info = 0;
  y_table = replicate 64 0;
  qt_cb_info = 0;
  cb_table = replicate 64 0;
}

abbrev pub blank_divisors : Divisors
blank_divisors = record { divisor_y = replicate 256 0; divisor_cb = replicate 256 0 }

abbrev pub blank_writer : BitWriter
blank_writer = record { jpeg_stream = []; wordnew = 0; wordpos = 0 }

-- 5 bits are in the word.
abbrev pub begun_writer : BitWriter
begun_writer = record { jpeg_stream = 0x12 ∷ []; wordnew = 0x15; wordpos = 5 }

-- Samples that differ from place to place.
abbrev pub samples : List ℕ
samples = map (λ i. i * 37 % 256) (range_from 64 0)

abbrev pub small_cinfo : Cinfo
small_cinfo = record {
  divisors = blank_divisors;
  du_dct_y = [];
  du_dct_cb = [];
  du_dct_cr = [];
  writer = blank_writer;
  ximage = 8;
  yimage = 8;
  y_buffer = samples;
  cb_buffer = replicate 64 128;
  cr_buffer = replicate 64 130;
  quality_factor = 0;
  dqt_info = blank_dqt;
}

-- The static variables before the first call of `Initialize`.
abbrev pub fresh : Globals
fresh = record {
  initialized = false;
  dht_info = set_dht_info;
  luminance_ht = zero_ht;
  chrominance_ht = zero_ht;
}

pub fresh-IsStatic : IsStatic fresh
fresh-IsStatic = record {
  ready = λ h. cc;
  luminance_zero = λ h. refl;
  chrominance_zero = λ h. refl;
}

abbrev pub filled : Globals
filled = record {
  initialized = true;
  dht_info = set_dht_info;
  luminance_ht = y_ht;
  chrominance_ht = cb_ht;
}

-- A transform that leaves the samples as they are.
abbrev pub no_transform : Jsimd
no_transform = record { fdct_ifast = λ samples. samples; quantize = λ divisors samples. samples }

small-IsDc : (z : ℤ) → magnitude z ≤ 128 → IsDc z
small-IsDc (pos n) h = omega arith
small-IsDc (negsuc n) h = omega arith

pub no_transform-IsTransform : (divisors : List ℕ) → IsTransform no_transform divisors
unfolding fdct_and_quantization
no_transform-IsTransform divisors s l h =
    let small : (k : ℕ) → magnitude (get_or s k (pos 0)) ≤ 128 =
      λ k. All-get_or (λ z. magnitude z ≤ 128) s k (pos 0) h (omega arith) in
    record {
      dc_range = small-IsDc (get_or s 0 (pos 0)) (small 0);
      ac_small = λ k p q. omega (arith, small k);
    }

pub begun-Carries : Carries (0x12 ∷ []) (true ∷ false ∷ true ∷ false ∷ true ∷ []) begun_writer
unfolding stuff bits_of_bytes bits_of
begun-Carries = record {
  payload = [];
  stream_is = refl;
  bytes = tt;
  bits_are = refl;
  pos_lt = omega arith;
  word_lt = omega arith;
}
