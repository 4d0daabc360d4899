-- ===== src/Encoder/Scan/Written.antt =====
-- The bits that `main_encoder` of libusbdisp/libenc/jpeg_enc.c writes: a decoder reads the coefficients of
-- all blocks back.
use mathlib.Core.Path.{subst}
use mathlib.Core.List.{append_assoc, append-nil, map}
use jpeg_study.Prelude.{ℕ, ◌≡◌, refl, sym, ◌∙◌}
use jpeg_study.Prelude.{Bool, List, [], ◌∷◌, ◌++◌, get_or, length, foldl}
use jpeg_study.Prelude.{some}
use jpeg_study.Prelude.Int.{ℤ, pos}
use jpeg_study.Stream.{ByteStream}
use jpeg_study.Quant.Zigzag.{scan_order}
use jpeg_study.Huffman.Tables.{y_code, cb_code, y_code-IsComplete, cb_code-IsComplete}
use jpeg_study.Bits.Writer.{BitWriter}
use jpeg_study.Quant.Tables.{Divisors}
use jpeg_study.Bits.Queue.{Carries}
use jpeg_study.Entropy.Block.{process_du}
use jpeg_study.Entropy.Code.{in_scan_order}
use jpeg_study.Encoder.Cinfo.{Globals, IsReady}
use jpeg_study.Encoder.Load.{load_data_units_from_buffer}
use jpeg_study.Encoder.Main.{Jsimd, MainState, transform_units, process_units, encode_units}
use jpeg_study.Encoder.Raster.{encode_at}
use jpeg_study.Encoder.Scan.{decode_unit, decode_scan, IsDc, IsTransform, transformed, unit_blocks}
use jpeg_study.Encoder.Scan.Block.{transformed-IsBaseline, Appended, process_du_with}

-- The four tables that the blocks of a unit need stay as they are from place to place.
module _ (j : Jsimd) (g : Globals) (ready : IsReady g) (base : ByteStream) where
  -- What is known of the writer behind one place: it carries a code that a decoder reads back.
  record UnitWritten (bits : List Bool) (m : MainState) (p : ℕ × ℕ) : Type 0 where
    coded : List Bool
    carries : Carries base (bits ++ coded) ((encode_at j g m p).cinfo.writer)
    reads :
        (more : List Bool)
        → decode_unit m.dcy m.dccb m.dccr (coded ++ more) ≡ some (unit_blocks j m.cinfo p, more)

  -- The predictions are in range before and after a place.
  abbrev pub HasDcs : MainState → Type 0
  HasDcs m = IsDc m.dcy × IsDc m.dccb × IsDc m.dccr

  encode_at-Written :
      (bits : List Bool) (m : MainState) (p : ℕ × ℕ)
      → IsTransform j m.cinfo.divisors.divisor_y
      → IsTransform j m.cinfo.divisors.divisor_cb
      → HasDcs m
      → Carries base bits m.cinfo.writer
      → UnitWritten bits m p
  unfolding decode_unit unit_blocks encode_units process_units transform_units transformed
      load_data_units_from_buffer
  encode_at-Written bits m (ypos, xpos) ty tcb dcs c = record {
    coded = y.0 ++ (cb.0 ++ cr.0);
    carries =
        subst (λ b. Carries base b ((process_du du_cr m.dccr g.chrominance_ht wcb).writer))
          (append_assoc (bits ++ y.0) cb.0 cr.0 ∙ append_assoc bits y.0 (cb.0 ++ cr.0)) cr.1;
    reads = λ more.
        rw
          (
            append_assoc y.0 (cb.0 ++ cr.0) more,
            append_assoc cb.0 cr.0 more,
            y.2 (cb.0 ++ (cr.0 ++ more)),
            cb.2 (cr.0 ++ more),
            cr.2 more,
          )
          refl;
  }
    where
      p : ℕ × ℕ
      p = (ypos, xpos)

      du_y : List ℤ
      du_y = transformed j m.cinfo.divisors.divisor_y m.cinfo.y_buffer m.cinfo.ximage p

      du_cb : List ℤ
      du_cb = transformed j m.cinfo.divisors.divisor_cb m.cinfo.cb_buffer m.cinfo.ximage p

      du_cr : List ℤ
      du_cr = transformed j m.cinfo.divisors.divisor_cb m.cinfo.cr_buffer m.cinfo.ximage p

      wy : BitWriter
      wy = (process_du du_y m.dcy g.luminance_ht m.cinfo.writer).writer

      wcb : BitWriter
      wcb = (process_du du_cb m.dccb g.chrominance_ht wy).writer

      y :
          Appended base bits y_code m.dcy du_y
            ((process_du du_y m.dcy g.luminance_ht m.cinfo.writer).writer)
      y =
          process_du_with y_code g.luminance_ht base bits m.cinfo.writer du_y m.dcy
            y_code-IsComplete ready.2
            (transformed-IsBaseline j _ m.cinfo.y_buffer m.cinfo.ximage p ty) dcs.0 c

      cb : Appended base (bits ++ y.0) cb_code m.dccb du_cb wcb
      cb =
          process_du_with cb_code g.chrominance_ht base (bits ++ y.0) wy du_cb m.dccb
            cb_code-IsComplete ready.3
            (transformed-IsBaseline j _ m.cinfo.cb_buffer m.cinfo.ximage p tcb) dcs.1 y.1

      cr :
          Appended base
            (bits ++ y.0 ++ cb.0)
            cb_code
            m.dccr
            du_cr
            ((process_du du_cr m.dccr g.chrominance_ht wcb).writer)
      cr =
          process_du_with cb_code g.chrominance_ht base (bits ++ y.0 ++ cb.0) wcb du_cr m.dccr
            cb_code-IsComplete ready.3
            (transformed-IsBaseline j _ m.cinfo.cr_buffer m.cinfo.ximage p tcb) dcs.2 cb.1

  -- The next predictions are the first coefficients of the blocks.
  next_dcs :
      (m : MainState) (p : ℕ × ℕ)
      → let m' = encode_at j g m p in
        let unit = unit_blocks j m.cinfo p in
        (get_or unit.y 0 (pos 0) ≡ m'.dcy)
        × (get_or unit.cb 0 (pos 0) ≡ m'.dccb)
        × (get_or unit.cr 0 (pos 0) ≡ m'.dccr)
  unfolding unit_blocks encode_units process_units process_du transform_units transformed
      load_data_units_from_buffer in_scan_order scan_order
  next_dcs m (ypos, xpos) = (refl, refl, refl)

  next-HasDcs :
      (m : MainState) (p : ℕ × ℕ)
      → IsTransform j m.cinfo.divisors.divisor_y
      → IsTransform j m.cinfo.divisors.divisor_cb
      → HasDcs (encode_at j g m p)
  unfolding encode_units process_units process_du transform_units load_data_units_from_buffer
  next-HasDcs m (ypos, xpos) ty tcb =
      unfold transformed in
      (
        (transformed-IsBaseline j _ m.cinfo.y_buffer m.cinfo.ximage (ypos, xpos) ty).dc_range,
        (transformed-IsBaseline j _ m.cinfo.cb_buffer m.cinfo.ximage (ypos, xpos) tcb).dc_range,
        (transformed-IsBaseline j _ m.cinfo.cr_buffer m.cinfo.ximage (ypos, xpos) tcb).dc_range,
      )

  -- A place changes neither the image nor the divisors.
  image_kept :
      (m : MainState) (p : ℕ × ℕ)
      → let m' = encode_at j g m p in
        (unit_blocks j m'.cinfo ≡ unit_blocks j m.cinfo) × (m'.cinfo.divisors ≡ m.cinfo.divisors)
  unfolding unit_blocks encode_units process_units transform_units load_data_units_from_buffer
  image_kept m (ypos, xpos) = (refl, refl)

  -- The writer behind some places.
  pub record ScanWritten (bits : List Bool) (m : MainState) (ps : List (ℕ × ℕ)) : Type 0 where
    pub coded : List Bool
    pub carries : Carries base (bits ++ coded) ((foldl (encode_at j g) m ps).cinfo.writer)
    pub reads :
        (more : List Bool)
        → decode_scan (length ps) m.dcy m.dccb m.dccr (coded ++ more)
          ≡ some (map (unit_blocks j m.cinfo) ps, more)

  -- Coding the units of any places, in any order, appends a code that a decoder reads back unit by unit.
  pub encode_at-ScanWritten :
      (ps : List (ℕ × ℕ)) (bits : List Bool) (m : MainState)
      → IsTransform j m.cinfo.divisors.divisor_y
      → IsTransform j m.cinfo.divisors.divisor_cb
      → HasDcs m
      → Carries base bits m.cinfo.writer
      → ScanWritten bits m ps
  unfolding decode_scan
  encode_at-ScanWritten [] bits m ty tcb dcs c = record {
    coded = [];
    carries = rw append-nil c;
    reads = λ more. refl;
  }
  encode_at-ScanWritten (p ∷ ps) bits m ty tcb dcs c =
      let u = encode_at-Written bits m p ty tcb dcs c in
      let m' = encode_at j g m p in
      let next = next_dcs m p in
      let kept = image_kept m p in
      let ty' = subst (λ (d : Divisors). IsTransform j d.divisor_y) (sym kept.1) ty in
      let tcb' = subst (λ (d : Divisors). IsTransform j d.divisor_cb) (sym kept.1) tcb in
      let r =
        encode_at-ScanWritten ps (bits ++ u.coded) m' ty' tcb' (next-HasDcs m p ty tcb) u.carries in
      record {
        coded = u.coded ++ r.coded;
        carries =
            subst (λ b. Carries base b ((foldl (encode_at j g) m' ps).cinfo.writer))
              (append_assoc bits u.coded r.coded) r.carries;
        reads = λ more.
            rw
              (
                append_assoc u.coded r.coded more,
                u.reads (r.coded ++ more),
                next.0,
                next.1,
                next.2,
                r.reads more,
                kept.0,
              )
              refl;
      }
