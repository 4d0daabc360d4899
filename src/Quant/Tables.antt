-- ===== src/Quant/Tables.antt =====
-- The quantization functions of libusbdisp/libenc/jpeg_enc.c.
use jpeg_study.Prelude.{ℕ, zero, suc, ◌+◌, ◌-◌, ◌*◌, ◌/◌, ◌%◌, ◌^◌, ◌==◌, leb, ltb}
use jpeg_study.Prelude.{if◌then◌else◌, u8, u16, u32, List, set, get_or}
use jpeg_study.Prelude.Bitwise.{bit_length}
use jpeg_study.Tables.Quantization.{zigzag, std_luminance_qt, std_chrominance_qt, aanscales}
use jpeg_study.Header.Infos.{DqtInfo}

-- One round of the loop: `temp`, limited to the valid range. The arguments are bytes, so `temp` is
-- never negative.
unfoldable pub quant_entry : ℕ → ℕ → ℕ
quant_entry basic scale_factor =
    let temp = (basic * scale_factor + 50) / 100 in
    let temp = if leb temp 0 then 1 else temp in
    let temp = if ltb 255 temp then 255 else temp in u8 temp

-- The loop of `set_quant_table` at index `i` with `left` rounds to go.
unfoldable pub set_quant_loop : List ℕ → ℕ → ℕ → ℕ → List ℕ → List ℕ
unfolding quant_entry
set_quant_loop basic_table scale_factor zero i newtable = newtable
set_quant_loop basic_table scale_factor (suc left) i newtable =
    set_quant_loop basic_table scale_factor left (suc i)
      (set newtable (get_or zigzag i 0) (quant_entry (get_or basic_table i 0) scale_factor))

unfoldable pub set_quant_table : List ℕ → ℕ → List ℕ → List ℕ
unfolding set_quant_loop
set_quant_table basic_table scale_factor newtable =
    set_quant_loop basic_table scale_factor 64 0 newtable

-- `BYTE scalefactor=(100-quality)*2`; 256 is added since `-` stops at 0.
unfoldable pub scale_of_quality : ℕ → ℕ
scale_of_quality quality = u8 ((100 + 256 - quality) * 2)

unfoldable pub set_dqt_info : ℕ → DqtInfo → DqtInfo
unfolding scale_of_quality set_quant_table
set_dqt_info quality dqt =
    let scalefactor = scale_of_quality quality in
    record {
      marker = 0xffdb;
      len = 132;
      qt_y_info = 0;
      y_table = set_quant_table std_luminance_qt scalefactor dqt.y_table;
      qt_cb_info = 1;
      cb_table = set_quant_table std_chrominance_qt scalefactor dqt.cb_table;
    }

-- `32 - clz(val)`, and 0 for 0.
unfoldable pub flss : ℕ → ℕ
unfolding bit_length
flss val = bit_length 16 val

-- What `compute_reciprocal` stores at the four offsets of its table, as 16-bit patterns.
pub record Reciprocal : Type 0 where
  pub reciprocal : ℕ
  pub correction : ℕ
  pub scale : ℕ
  pub shift : ℕ

-- `fq`, `c` and `r` after the branches on the remainder. The divisor is not 0, so `b` is
-- `flss(divisor) - 1` and no division by 0 occurs.
pub record Rounding : Type 0 where
  pub fq : ℕ
  pub c : ℕ
  pub r : ℕ

unfoldable pub choose_rounding : ℕ → ℕ → ℕ → Rounding
choose_rounding divisor b r =
    let fq = 2 ^ r / divisor in
    let fr = 2 ^ r % divisor in
    let c = divisor / 2 in
    if fr == 0
    then record { fq = fq / 2; c = c; r = r - 1 }
    else if leb fr (divisor / 2)
    then record { fq = fq; c = u16 (c + 1); r = r }
    else record { fq = u32 (fq + 1); c = c; r = r }

unfoldable pub compute_reciprocal : ℕ → Reciprocal
unfolding flss choose_rounding
compute_reciprocal divisor =
    let b = flss divisor - 1 in
    let s : Rounding = choose_rounding divisor b (16 + b) in
    record {
      reciprocal = u16 s.fq;
      correction = s.c;
      scale = u16 (2 ^ (32 - s.r));
      shift = u16 (s.r + 2 ^ 16 - 16);
    }

-- `DESCALE(table * aanscales[i], CONST_BITS-3)`, cast to `UINT16` by the call.
unfoldable pub descaled : ℕ → ℕ → ℕ
descaled entry aanscale = u16 ((entry * aanscale + 2 ^ 10) / 2 ^ 11)

-- A divisor table has 256 entries: the reciprocal of coefficient `i` stands at `i`, its correction at
-- `64 + i`, its scale at `128 + i` and its shift at `192 + i`.
unfoldable pub store_reciprocal : ℕ → Reciprocal → List ℕ → List ℕ
store_reciprocal i p dtbl =
    let dtbl = set dtbl i p.reciprocal in
    let dtbl = set dtbl (i + 64) p.correction in
    let dtbl = set dtbl (i + 128) p.scale in set dtbl (i + 192) p.shift

unfoldable pub divisor_of : List ℕ → ℕ → ℕ
unfolding descaled
divisor_of table i = descaled (get_or table (get_or zigzag i 0) 0) (get_or aanscales i 0)

pub record Divisors : Type 0 where
  pub divisor_y : List ℕ
  pub divisor_cb : List ℕ

-- The loop of `prepare_quant_tables` at index `i` with `left` rounds to go.
unfoldable pub prepare_loop : DqtInfo → ℕ → ℕ → Divisors → Divisors
unfolding compute_reciprocal store_reciprocal divisor_of
prepare_loop dqt zero i divs = divs
prepare_loop dqt (suc left) i divs = prepare_loop dqt left (suc i) (record {
  divisor_y = store_reciprocal i (compute_reciprocal (divisor_of dqt.y_table i)) divs.divisor_y;
  divisor_cb = store_reciprocal i (compute_reciprocal (divisor_of dqt.cb_table i)) divs.divisor_cb;
})

unfoldable pub prepare_quant_tables : DqtInfo → Divisors → Divisors
unfolding prepare_loop
prepare_quant_tables dqt divs = prepare_loop dqt 64 0 divs
