-- ===== src/Huffman/Codes.antt =====
-- `compute_Huffman_table` and `init_Huffman_tables` of libusbdisp/libenc/jpeg_enc.c. An entry of a
-- table is a `bitstring`: the code from bit 16 on, and its length in the low byte.
use jpeg_study.Prelude.{ℕ, zero, suc, ◌+◌, ◌*◌, ◌^◌, ◌≡◌, refl, bit_or, u8, u16, u32}
use jpeg_study.Prelude.{List, get_or, set, replicate}
use jpeg_study.Tables.Codes.{
  std_dc_luminance_nrcodes, std_dc_luminance_values, std_dc_chrominance_nrcodes,
  std_dc_chrominance_values, std_ac_luminance_nrcodes, std_ac_luminance_values,
  std_ac_chrominance_nrcodes, std_ac_chrominance_values,
}

-- The locals of the loops; `pos_in_table` is a `BYTE` and `codevalue` a `WORD`.
pub record CodeState : Type 0 where
  pub ht : List ℕ
  pub pos_in_table : ℕ
  pub codevalue : ℕ

-- The inner loop: `left` codes of length `k` are to come.
unfoldable pub codes_of_length : List ℕ → ℕ → ℕ → CodeState → CodeState
codes_of_length std_table k zero s = s
codes_of_length std_table k (suc left) s = codes_of_length std_table k left (record {
  ht = set s.ht (get_or std_table s.pos_in_table 0) (bit_or (u32 (s.codevalue * 2 ^ 16)) k);
  pos_in_table = u8 (s.pos_in_table + 1);
  codevalue = u16 (s.codevalue + 1);
})

-- The outer loop at length `k` with `left` lengths to go.
unfoldable pub code_lengths : List ℕ → List ℕ → ℕ → ℕ → CodeState → CodeState
unfolding codes_of_length
code_lengths nrcodes std_table zero k s = s
code_lengths nrcodes std_table (suc left) k s =
    let t = codes_of_length std_table k (get_or nrcodes k 0) s in
    code_lengths nrcodes std_table left (suc k) (record t { codevalue = u16 (t.codevalue * 2) })

unfoldable pub compute_huffman_table : List ℕ → List ℕ → List ℕ → List ℕ
unfolding code_lengths
compute_huffman_table nrcodes std_table ht =
    let start : CodeState = record { ht = ht; pos_in_table = 0; codevalue = 0 } in
    let end = code_lengths nrcodes std_table 16 1 start in end.ht

pub record HuffmanTable : Type 0 where
  pub dc : List ℕ
  pub ac : List ℕ

-- `init_Huffman_tables` on each of the two static tables: the entries that have a code are written in place.
unfoldable pub init_y_ht : HuffmanTable → HuffmanTable
init_y_ht ht = record {
  dc = compute_huffman_table std_dc_luminance_nrcodes std_dc_luminance_values ht.dc;
  ac = compute_huffman_table std_ac_luminance_nrcodes std_ac_luminance_values ht.ac;
}

unfoldable pub init_cb_ht : HuffmanTable → HuffmanTable
init_cb_ht ht = record {
  dc = compute_huffman_table std_dc_chrominance_nrcodes std_dc_chrominance_values ht.dc;
  ac = compute_huffman_table std_ac_chrominance_nrcodes std_ac_chrominance_values ht.ac;
}

-- What C puts into a static table at the start.
abbrev pub zero_ht : HuffmanTable
zero_ht = record { dc = replicate 12 0; ac = replicate 256 0 }

-- The two static tables behind `init_Huffman_tables`.
unfoldable pub y_ht : HuffmanTable
unfolding compute_huffman_table std_dc_luminance_nrcodes std_dc_luminance_values
    std_ac_luminance_nrcodes std_ac_luminance_values
y_ht = record {
  dc = compute_huffman_table std_dc_luminance_nrcodes std_dc_luminance_values (replicate 12 0);
  ac = compute_huffman_table std_ac_luminance_nrcodes std_ac_luminance_values (replicate 256 0);
}

unfoldable pub cb_ht : HuffmanTable
unfolding compute_huffman_table std_dc_chrominance_nrcodes std_dc_chrominance_values
    std_ac_chrominance_nrcodes std_ac_chrominance_values
cb_ht = record {
  dc = compute_huffman_table std_dc_chrominance_nrcodes std_dc_chrominance_values (replicate 12 0);
  ac = compute_huffman_table std_ac_chrominance_nrcodes std_ac_chrominance_values (replicate 256 0);
}

pub init_y_ht-zero : init_y_ht zero_ht ≡ y_ht
unfolding init_y_ht y_ht
init_y_ht-zero = refl

pub init_cb_ht-zero : init_cb_ht zero_ht ≡ cb_ht
unfolding init_cb_ht cb_ht
init_cb_ht-zero = refl
