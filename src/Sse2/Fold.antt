-- ===== src/Sse2/Fold.antt =====
-- What `process_DU` of libusbdisp/libenc/jpeg_enc.c and that of libusbdisp/libenc/Optimize_SSE2.h both do
-- behind the DC coefficient: a fold over the coefficients, with the run of zeros as its state.
use jpeg_study.Prelude.{ℕ, suc, ◌≡◌, refl, true, false}
use jpeg_study.Prelude.{if◌then◌else◌, ◌==◌, List, foldl}
use jpeg_study.Prelude.Int.{ℤ, is_zero}
use jpeg_study.Huffman.Codes.{HuffmanTable}
use jpeg_study.Bits.Writer.{BitWriter, writebits}
use jpeg_study.Entropy.Block.{encode_ac, htac}

pub record Run : Type 0 where
  pub zeros : ℕ
  pub writer : BitWriter

unfoldable pub step : HuffmanTable → Run → ℤ → Run
step ht r z =
    if is_zero z
    then record r { zeros = suc r.zeros }
    else record { zeros = 0; writer = encode_ac ht r.zeros z r.writer }

abbrev pub at : ℕ → BitWriter → Run
at run w = record { zeros = run; writer = w }

abbrev pub steps : HuffmanTable → Run → List ℤ → Run
steps ht r zs = foldl (step ht) r zs

-- The end of block, unless the last coefficient is not 0.
unfoldable pub finish : HuffmanTable → Run → BitWriter
finish ht r = if r.zeros == 0 then r.writer else writebits (htac ht 0x00) r.writer

pub step-zero :
    (ht : HuffmanTable) (r : Run) (z : ℤ)
    → is_zero z ≡ true
    → step ht r z ≡ at (suc r.zeros) r.writer
unfolding step
step-zero ht r z h = rw h refl

pub step-nonzero :
    (ht : HuffmanTable) (r : Run) (z : ℤ)
    → is_zero z ≡ false
    → step ht r z ≡ at 0 (encode_ac ht r.zeros z r.writer)
unfolding step
step-nonzero ht r z h = rw h refl
