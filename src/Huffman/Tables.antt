-- ===== src/Huffman/Tables.antt =====
-- The codes that libusbdisp/libenc/jpeg_enc.c computes for the four standard tables, and what a decoder
-- makes of them. The facts about all entries are checked by evaluation.
use mathlib.Core.Path.{subst}
use jpeg_study.Prelude.{ℕ, ◌+◌, ◌*◌, ◌%◌, ◌<◌, ◌≤◌, ◌≡◌, ◌≢◌, refl, arith, Bool, true, not}
use jpeg_study.Prelude.{List, get_or, drop, ltb, ◌==◌, ◌||◌}
use jpeg_study.Prelude.Below.{all_below, all_below_sound}
use jpeg_study.Huffman.Codes.{HuffmanTable, y_ht, cb_ht}
use jpeg_study.Huffman.Decode.{Decodes, entry_ok, entries_ok, entries_ok-Decodes, decode_symbol}
use jpeg_study.Bits.Digits.{bits_of}
use jpeg_study.Tables.Codes.{
  std_dc_luminance_nrcodes, std_dc_luminance_values, std_dc_chrominance_nrcodes,
  std_dc_chrominance_values, std_ac_luminance_nrcodes, std_ac_luminance_values,
  std_ac_chrominance_nrcodes, std_ac_chrominance_values,
}

y_dc_ok : entries_ok (drop 1 std_dc_luminance_nrcodes) std_dc_luminance_values 0 y_ht.dc ≡ true
unfolding entries_ok entry_ok decode_symbol bits_of y_ht
y_dc_ok = refl

y_ac_ok : entries_ok (drop 1 std_ac_luminance_nrcodes) std_ac_luminance_values 0 y_ht.ac ≡ true
unfolding entries_ok entry_ok decode_symbol bits_of y_ht
y_ac_ok = refl

cb_dc_ok :
    entries_ok (drop 1 std_dc_chrominance_nrcodes) std_dc_chrominance_values 0 cb_ht.dc ≡ true
unfolding entries_ok entry_ok decode_symbol bits_of cb_ht
cb_dc_ok = refl

cb_ac_ok :
    entries_ok (drop 1 std_ac_chrominance_nrcodes) std_ac_chrominance_values 0 cb_ht.ac ≡ true
unfolding entries_ok entry_ok decode_symbol bits_of cb_ht
cb_ac_ok = refl

-- A table with the counts and values of its two DHT parts.
pub record CodeTable : Type 0 where
  pub ht : HuffmanTable
  pub dc_counts : List ℕ
  pub dc_values : List ℕ
  pub ac_counts : List ℕ
  pub ac_values : List ℕ

-- A decoder with the counts and values of the DHT segment reads each symbol that the encoder needs:
-- the twelve DC categories, and the AC symbols: end of block, sixteen zeros, and each pair of a run
-- below 16 and a category from 1 to 10.
pub record IsComplete (t : CodeTable) : Type 0 where
  pub dc_symbol : (cat : ℕ) → cat < 12 → Decodes t.dc_counts t.dc_values cat (get_or t.ht.dc cat 0)
  pub end_of_block : Decodes t.ac_counts t.ac_values 0 (get_or t.ht.ac 0 0)
  pub sixteen_zeros : Decodes t.ac_counts t.ac_values 0xf0 (get_or t.ht.ac 0xf0 0)
  pub run_symbol :
      (run cat : ℕ)
      → run < 16
      → 1 ≤ cat
      → cat ≤ 10
      → Decodes t.ac_counts t.ac_values (run * 16 + cat) (get_or t.ht.ac (run * 16 + cat) 0)

abbrev pub y_code : CodeTable
y_code = record {
  ht = y_ht;
  dc_counts = drop 1 std_dc_luminance_nrcodes;
  dc_values = std_dc_luminance_values;
  ac_counts = drop 1 std_ac_luminance_nrcodes;
  ac_values = std_ac_luminance_values;
}

abbrev pub cb_code : CodeTable
cb_code = record {
  ht = cb_ht;
  dc_counts = drop 1 std_dc_chrominance_nrcodes;
  dc_values = std_dc_chrominance_values;
  ac_counts = drop 1 std_ac_chrominance_nrcodes;
  ac_values = std_ac_chrominance_values;
}

-- The symbols of an AC table that are in use.
abbrev in_use : List ℕ → ℕ → Bool
in_use ht v = not (get_or ht v 0 == 0)

abbrev runs_in_use : List ℕ → ℕ → Bool
runs_in_use ht v = (v % 16 == 0) || ltb 10 (v % 16) || in_use ht v

in_use→ne : (ht : List ℕ) (v : ℕ) → in_use ht v ≡ true → get_or ht v 0 ≢ 0
in_use→ne ht v h = ground arith

run_in_use :
    (ht : List ℕ) (run cat : ℕ)
    → 1 ≤ cat
    → cat ≤ 10
    → runs_in_use ht (run * 16 + cat) ≡ true
    → get_or ht (run * 16 + cat) 0 ≢ 0
run_in_use ht run cat low high h =
    let size : (run * 16 + cat) % 16 ≡ cat = omega arith in ground arith

symbol-Decodes :
    (counts values ht : List ℕ) (v : ℕ)
    → entries_ok counts values 0 ht ≡ true
    → get_or ht v 0 ≢ 0
    → Decodes counts values v (get_or ht v 0)
symbol-Decodes counts values ht v h used =
    let e : 0 + v ≡ v = omega arith in
    subst (λ s. Decodes counts values s (get_or ht v 0)) e
      (entries_ok-Decodes counts values 0 ht v h used)

module _ (t : CodeTable) (dc_ok : entries_ok t.dc_counts t.dc_values 0 t.ht.dc ≡ true)
    (ac_ok : entries_ok t.ac_counts t.ac_values 0 t.ht.ac ≡ true)
    (dc_used : all_below 12 (in_use t.ht.dc) ≡ true) (eob_used : in_use t.ht.ac 0 ≡ true)
    (zrl_used : in_use t.ht.ac 0xf0 ≡ true)
    (runs_used : all_below 256 (runs_in_use t.ht.ac) ≡ true) where
  complete : IsComplete t
  complete = record {
    dc_symbol = λ cat h.
        symbol-Decodes _ _ t.ht.dc cat dc_ok
          (in_use→ne t.ht.dc cat (all_below_sound 12 (in_use t.ht.dc) cat dc_used h));
    end_of_block = symbol-Decodes _ _ t.ht.ac 0 ac_ok (in_use→ne t.ht.ac 0 eob_used);
    sixteen_zeros = symbol-Decodes _ _ t.ht.ac 0xf0 ac_ok (in_use→ne t.ht.ac 0xf0 zrl_used);
    run_symbol = λ run cat h low high. symbol-Decodes _ _ t.ht.ac (run * 16 + cat) ac_ok (
        run_in_use t.ht.ac run cat low high
          (all_below_sound 256 (runs_in_use t.ht.ac) (run * 16 + cat) runs_used (omega arith)));
  }

-- The codes that the encoder computes for luminance are those that a decoder derives from the DHT
-- segment, for every symbol that a block can need.
pub y_code-IsComplete : IsComplete y_code
unfolding y_ht all_below
y_code-IsComplete = complete y_code y_dc_ok y_ac_ok refl refl refl refl

-- The codes that the encoder computes for chrominance are those that a decoder derives from the DHT
-- segment, for every symbol that a block can need.
pub cb_code-IsComplete : IsComplete cb_code
unfolding cb_ht all_below
cb_code-IsComplete = complete cb_code cb_dc_ok cb_ac_ok refl refl refl refl
