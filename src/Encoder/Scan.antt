-- ===== src/Encoder/Scan.antt =====
-- What a decoder reads from the scan that `main_encoder` of libusbdisp/libenc/jpeg_enc.c writes, and what
-- it should find there.
pub mod Block
pub mod Written
use mathlib.Core.Path.{subst}
use mathlib.Core.List.{append_assoc, append-nil, map}
use jpeg_study.Prelude.{ℕ, zero, suc, ◌+◌, ◌≤◌, ◌<◌, ◌^◌, ◌≡◌, refl, sym, ap, ◌∙◌, arith}
use jpeg_study.Prelude.{Bool, List, [], ◌∷◌, ◌++◌, get_or, length, foldl, All, All-map}
use jpeg_study.Prelude.{Option, none, some, ◌>>=◌}
use jpeg_study.Prelude.Int.{ℤ, pos, negsuc, magnitude, ◌-ℤ◌}
use jpeg_study.Stream.{ByteStream}
use jpeg_study.Quant.Zigzag.{scan_order}
use jpeg_study.Huffman.Codes.{HuffmanTable, y_ht, cb_ht}
use jpeg_study.Huffman.Tables.{
  CodeTable, IsComplete, y_code, cb_code, y_code-IsComplete, cb_code-IsComplete,
}
use jpeg_study.Bits.Writer.{BitWriter}
use jpeg_study.Quant.Tables.{Divisors}
use jpeg_study.Bits.Queue.{Carries}
use jpeg_study.Entropy.Block.{process_du}
use jpeg_study.Entropy.Code.{in_scan_order}
use jpeg_study.Entropy.Process.{IsCodable}
use jpeg_study.Entropy.Decode.{decode_block}
use jpeg_study.Entropy.Decode.Block.{process_du-Decodes}
use jpeg_study.Encoder.Cinfo.{Cinfo, Globals, IsReady}
use jpeg_study.Encoder.Load.{
  load_component, level_shift, level_shift_bounds, length-load_component,
  load_data_units_from_buffer, move_rows,
}
use jpeg_study.Encoder.Main.{
  Jsimd, MainState, fdct_and_quantization, transform_units, process_units, encode_units,
}
use jpeg_study.Encoder.Raster.{encode_at}

-- The three blocks at one place of the image, each in the order of the scan.
pub record UnitBlocks : Type 0 where
  pub y : List ℤ
  pub cb : List ℤ
  pub cr : List ℤ

-- The decoder's side of one place; `py`, `pcb` and `pcr` are the predictions.
unfoldable pub decode_unit : ℤ → ℤ → ℤ → List Bool → Option (UnitBlocks × List Bool)
decode_unit py pcb pcr bits = do
  (y, bits) ← decode_block y_code py bits
  (cb, bits) ← decode_block cb_code pcb bits
  (cr, bits) ← decode_block cb_code pcr bits
  some (record { y = y; cb = cb; cr = cr }, bits)

-- A scan of `n` places.
unfoldable pub decode_scan : ℕ → ℤ → ℤ → ℤ → List Bool → Option (List UnitBlocks × List Bool)
decode_scan zero py pcb pcr bits = some ([], bits)
decode_scan (suc n) py pcb pcr bits = do
  (unit, bits) ← decode_unit py pcb pcr bits
  (more, bits) ←
      decode_scan n (get_or unit.y 0 (pos 0)) (get_or unit.cb 0 (pos 0)) (get_or unit.cr 0 (pos 0))
        bits
  some (unit ∷ more, bits)

-- From -1024 to 1023.
abbrev pub IsDc : ℤ → Type 0
IsDc (pos n) = n < 2 ^ 10
IsDc (negsuc n) = n < 2 ^ 10

-- A block of 64 quantized coefficients that the 8-bit baseline process can have: from -1024 to 1023 for
-- the first, and below 1024 in absolute value for the others.
pub record IsBaseline (du : List ℤ) : Type 0 where
  pub dc_range : IsDc (get_or du 0 (pos 0))
  pub ac_small : (k : ℕ) → 1 ≤ k → k < 64 → magnitude (get_or du k (pos 0)) < 2 ^ 10

-- What the transform and the quantization with these divisors promise: baseline coefficients for a
-- block of 64 samples between -128 and 128.
abbrev pub IsTransform : Jsimd → List ℕ → Type 0
IsTransform j divisors =
    (samples : List ℤ)
    → length samples ≡ 64
    → All (λ z. magnitude z ≤ 128) samples
    → IsBaseline (fdct_and_quantization j divisors samples)

-- The coefficients of a component at a block.
unfoldable pub transformed : Jsimd → List ℕ → List ℕ → ℕ → ℕ × ℕ → List ℤ
transformed j divisors buffer ximage (ypos, xpos) =
    fdct_and_quantization j divisors (load_component buffer ximage xpos ypos)

unfoldable pub unit_blocks : Jsimd → Cinfo → ℕ × ℕ → UnitBlocks
unit_blocks j cinfo p = record {
  y = in_scan_order (transformed j cinfo.divisors.divisor_y cinfo.y_buffer cinfo.ximage p);
  cb = in_scan_order (transformed j cinfo.divisors.divisor_cb cinfo.cb_buffer cinfo.ximage p);
  cr = in_scan_order (transformed j cinfo.divisors.divisor_cb cinfo.cr_buffer cinfo.ximage p);
}
