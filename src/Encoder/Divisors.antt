-- ===== src/Encoder/Divisors.antt =====
-- The divisor tables that `Initialize` of libusbdisp/libenc/jpeg_enc.c leaves, against the basic tables: the entries that
-- `set_quant_table` puts in the order of the scan are taken out of it again.
use jpeg_study.Prelude.{ℕ, ◌+◌, ◌-◌, ◌*◌, ◌/◌, ◌≤◌, ◌<◌, ◌≡◌, refl, ap, ◌∙◌, arith}
use jpeg_study.Prelude.{List, get_or, length}
use jpeg_study.Prelude.Below.{all_below, all_below_sound}
use jpeg_study.Prelude.{true, leb}
use jpeg_study.Tables.Quantization.{std_luminance_qt, std_chrominance_qt, aanscales}
use jpeg_study.Quant.Tables.{
  quant_entry, scale_of_quality, set_quant_table, set_dqt_info, descaled, divisor_of,
  compute_reciprocal,
}
use jpeg_study.Quant.Scaling.{
  IsScaled, quant_entry_bounds, quant_entry-IsScaled, set_quant_table_lem,
}
use jpeg_study.Quant.Prepared.{IsSized, column, prepare_quant_tables-HasColumn}
use jpeg_study.Encoder.Cinfo.{Cinfo, initialize}

aanscales-lt_table : all_below 64 (λ i. leb (get_or aanscales i 0) 31521) ≡ true
unfolding all_below aanscales
aanscales-lt_table = refl

aanscales-lt : (i : ℕ) → i < 64 → get_or aanscales i 0 ≤ 31521
aanscales-lt i h =
    let test = all_below_sound 64 (λ i. leb (get_or aanscales i 0) 31521) i aanscales-lt_table h in
    ground arith

-- A table entry of a byte does not leave 16 bits.
descaled_lem : (e a : ℕ) → e ≤ 255 → a ≤ 31521 → descaled e a ≡ (e * a + 1024) / 2048
unfolding descaled
descaled_lem e a he ha =
    let product : e * a ≤ 255 * 31521 = grind (arith, he, ha) in omega (arith, product)

-- The four numbers of a column are those of the divisor for the basic entry `basic` at a quality.
pub record HasDivisor (basic quality j : ℕ) (dtbl : List ℕ) : Type 0 where
  pub entry : ℕ
  pub scaled : IsScaled basic ((100 - quality) * 2) entry
  pub column_is : column dtbl j ≡ compute_reciprocal ((entry * get_or aanscales j 0 + 1024) / 2048)

divisor_of-set_quant_table :
    (basic t : List ℕ) (scale j : ℕ)
    → length t ≡ 64
    → j < 64
    → divisor_of (set_quant_table basic scale t) j
      ≡ (quant_entry (get_or basic j 0) scale * get_or aanscales j 0 + 1024) / 2048
unfolding divisor_of
divisor_of-set_quant_table basic t scale j sized h =
    ap (λ (e : ℕ). descaled e (get_or aanscales j 0)) (set_quant_table_lem basic scale t j sized h)
    ∙ descaled_lem (quant_entry (get_or basic j 0) scale) (get_or aanscales j 0)
        ((quant_entry_bounds (get_or basic j 0) scale).1) (aanscales-lt j h)

HasDivisor-column :
    (basic t dtbl : List ℕ) (quality j : ℕ)
    → quality ≤ 100
    → length t ≡ 64
    → j < 64
    → column dtbl j
      ≡ compute_reciprocal (divisor_of (set_quant_table basic (scale_of_quality quality) t) j)
    → HasDivisor (get_or basic j 0) quality j dtbl
unfolding scale_of_quality
HasDivisor-column basic t dtbl quality j low sized h c =
    let scale : scale_of_quality quality ≡ (100 - quality) * 2 = omega arith in
    record {
      entry = quant_entry (get_or basic j 0) ((100 - quality) * 2);
      scaled = quant_entry-IsScaled (get_or basic j 0) ((100 - quality) * 2);
      column_is =
          c
          ∙ ap (λ (s : ℕ). compute_reciprocal (divisor_of (set_quant_table basic s t) j)) scale
          ∙ ap compute_reciprocal
              (divisor_of-set_quant_table basic t ((100 - quality) * 2) j sized h);
    }

-- After `Initialize` at a quality up to 100, on quantization tables of 64 entries and divisor tables of 256, whatever
-- these held, the four numbers of coefficient `j` in each divisor table are those that `compute_reciprocal` gives
-- for a divisor: the basic entry of coefficient `j` at twice the missing quality in percent, rounded and limited
-- to 1 to 255, times the scale factor of coefficient `j`, over 2048 and rounded.
pub initialize-HasDivisor :
    (quality j : ℕ) (cinfo : Cinfo)
    → quality ≤ 100
    → length cinfo.dqt_info.y_table ≡ 64
    → length cinfo.dqt_info.cb_table ≡ 64
    → IsSized cinfo.divisors
    → j < 64
    → HasDivisor
        (get_or std_luminance_qt j 0)
        quality
        j
        ((initialize quality cinfo).divisors.divisor_y)
      × HasDivisor
          (get_or std_chrominance_qt j 0)
          quality
          j
          ((initialize quality cinfo).divisors.divisor_cb)
unfolding initialize set_dqt_info
initialize-HasDivisor quality j cinfo low y_sized cb_sized sized h =
    let columns =
      prepare_quant_tables-HasColumn (set_dqt_info quality cinfo.dqt_info) cinfo.divisors j sized
        h in
    (
      HasDivisor-column std_luminance_qt cinfo.dqt_info.y_table _ quality j low y_sized h columns.0,
      HasDivisor-column std_chrominance_qt cinfo.dqt_info.cb_table _ quality j low cb_sized h
          columns.1,
    )
