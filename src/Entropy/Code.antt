-- ===== src/Entropy/Code.antt =====
-- The bits of a block as section F.1.2 of the standard describes them, by recursion on the list of its
-- coefficients, for `process_DU` of libusbdisp/libenc/jpeg_enc.c.
use jpeg_study.Prelude.{ℕ, zero, suc, ◌+◌, ◌*◌, ◌/◌, ◌%◌, ◌^◌, ◌==◌, if◌then◌else◌, Bool}
use mathlib.Core.List.{map}
use jpeg_study.Quant.Zigzag.{scan_order}
use jpeg_study.Prelude.{List, [], ◌∷◌, ◌++◌, get_or, drop}
use jpeg_study.Prelude.Int.{ℤ, pos, ◌-ℤ◌, is_zero}
use jpeg_study.Huffman.Codes.{HuffmanTable}
use jpeg_study.Bits.Digits.{bits_of}
use jpeg_study.Entropy.Magnitude.{size, magnitude_code}

-- The bits of an entry of a Huffman table.
abbrev pub code_bits : ℕ → List Bool
code_bits e = bits_of (e % 2 ^ 16) (e / 2 ^ 16)

abbrev pub coefficient_bits : ℤ → List Bool
coefficient_bits z = bits_of (size z) (magnitude_code z)

-- A difference of DC coefficients: its category, then its magnitude.
unfoldable pub dc_bits : HuffmanTable → ℤ → List Bool
dc_bits ht diff =
    if is_zero diff
    then code_bits (get_or ht.dc 0 0)
    else code_bits (get_or ht.dc (size diff) 0) ++ coefficient_bits diff

unfoldable pub zeros_bits : HuffmanTable → ℕ → List Bool
zeros_bits ht zero = []
zeros_bits ht (suc n) = code_bits (get_or ht.ac 0xf0 0) ++ zeros_bits ht n

-- A coefficient behind `run` zeros.
unfoldable pub run_bits : HuffmanTable → ℕ → ℤ → List Bool
run_bits ht run z =
    zeros_bits ht (run / 16)
    ++ (code_bits (get_or ht.ac (run % 16 * 16 + size z) 0) ++ coefficient_bits z)

-- The coefficients of a block from some place on, behind `run` zeros. An end of block stands for the
-- zeros at the end.
unfoldable pub ac_bits : HuffmanTable → ℕ → List ℤ → List Bool
ac_bits ht run [] = if run == 0 then [] else code_bits (get_or ht.ac 0 0)
ac_bits ht run (z ∷ rest) =
    let coded = run_bits ht run z ++ ac_bits ht 0 rest in
    let skipped = ac_bits ht (suc run) rest in if is_zero z then skipped else coded

-- The coefficients in the order of the scan.
unfoldable pub in_scan_order : List ℤ → List ℤ
in_scan_order du = map (λ k. get_or du k (pos 0)) scan_order

-- A block: the difference of its first coefficient to `previous`, and its other coefficients.
unfoldable pub block_bits : HuffmanTable → ℤ → List ℤ → List Bool
block_bits ht previous du =
    dc_bits ht (get_or du 0 (pos 0) -ℤ previous) ++ ac_bits ht 0 (drop 1 (in_scan_order du))
