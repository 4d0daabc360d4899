-- ===== src/Encoder/Raster.antt =====
-- The loops of `main_encoder` in libusbdisp/libenc/jpeg_enc.c end, and take the blocks of the image row
-- by row.
use jpeg_study.Prelude.{
  ℕ, zero, suc, ◌+◌, ◌*◌, ◌/◌, ◌%◌, ◌^◌, ◌≤◌, ◌<◌, ◌≡◌, refl, sym, ap, ◌∙◌, arith, u16,
}
use jpeg_study.Prelude.{true, false, ltb}
use jpeg_study.Prelude.{none, some, List, [], ◌∷◌, ◌++◌, foldl, foldl-append}
use jpeg_study.Prelude.Int.{pos}
use jpeg_study.Encoder.Cinfo.{Cinfo, Globals}
use jpeg_study.Encoder.Main.{
  Jsimd, MainState, transform_units, process_units, encode_units, x_loop, y_loop, word_rounds,
  main_encoder,
}
use jpeg_study.Encoder.Load.{load_data_units_from_buffer}

-- The number of blocks that cover `n` samples.
abbrev pub blocks : ℕ → ℕ
blocks n = (n + 7) / 8

-- `n` blocks of the row at `ypos`, from `xpos` on: pairs of `ypos` and `xpos`.
abbrev pub row : ℕ → ℕ → ℕ → List (ℕ × ℕ)
row ypos zero xpos = []
row ypos (suc n) xpos = (ypos, xpos) ∷ row ypos n (xpos + 8)

-- `n` rows from `ypos` on, each from left to right.
abbrev pub raster : ℕ → ℕ → ℕ → List (ℕ × ℕ)
raster ximage zero ypos = []
raster ximage (suc n) ypos = row ypos (blocks ximage) 0 ++ raster ximage n (ypos + 8)

abbrev pub encode_at : Jsimd → Globals → MainState → ℕ × ℕ → MainState
encode_at j g m (ypos, xpos) = encode_units j g ypos xpos m

module _ (j : Jsimd) (g : Globals) where
  -- No block changes the size of the image.
  pub size_kept :
      (blocks : List (ℕ × ℕ)) (m : MainState)
      → ((foldl (encode_at j g) m blocks).cinfo.ximage ≡ m.cinfo.ximage)
        × ((foldl (encode_at j g) m blocks).cinfo.yimage ≡ m.cinfo.yimage)
  unfolding encode_units process_units transform_units load_data_units_from_buffer
  size_kept [] m = (refl, refl)
  size_kept ((ypos, xpos) ∷ blocks) m = size_kept blocks (encode_units j g ypos xpos m)

  -- Nor the divisors.
  pub divisors_kept :
      (blocks : List (ℕ × ℕ)) (m : MainState)
      → (foldl (encode_at j g) m blocks).cinfo.divisors ≡ m.cinfo.divisors
  unfolding encode_units process_units transform_units load_data_units_from_buffer
  divisors_kept [] m = refl
  divisors_kept ((ypos, xpos) ∷ blocks) m = divisors_kept blocks (encode_units j g ypos xpos m)

  x_loop-row :
      (n fuel ypos xpos : ℕ) (m : MainState)
      → n < fuel
      → m.cinfo.ximage ≤ xpos + 8 * n
      → xpos + 8 * n < m.cinfo.ximage + 8
      → m.cinfo.ximage ≤ 65528
      → x_loop j g fuel ypos xpos m ≡ some (foldl (encode_at j g) m (row ypos n xpos))
  unfolding x_loop
  x_loop-row n zero ypos xpos m enough high low small = absurd (omega arith)
  x_loop-row zero (suc fuel) ypos xpos m enough high low small =
      let over : ltb xpos m.cinfo.ximage ≡ false = ground arith in rw over refl
  x_loop-row (suc n) (suc fuel) ypos xpos m enough high low small =
      let more : ltb xpos m.cinfo.ximage ≡ true = ground arith in
      let next : u16 (xpos + 8) ≡ xpos + 8 = omega arith in
      let m' = encode_units j g ypos xpos m in
      let kept = (size_kept ((ypos, xpos) ∷ []) m).0 in
      rw (more, next)
        (x_loop-row n fuel ypos (xpos + 8) m' (omega arith) (omega (arith, kept))
          (omega (arith, kept)) (omega (arith, kept)))

  y_loop-raster :
      (n fuel ypos : ℕ) (m : MainState)
      → n < fuel
      → m.cinfo.yimage ≤ ypos + 8 * n
      → ypos + 8 * n < m.cinfo.yimage + 8
      → m.cinfo.yimage ≤ 65528
      → m.cinfo.ximage ≤ 65528
      → y_loop j g fuel ypos m ≡ some (foldl (encode_at j g) m (raster m.cinfo.ximage n ypos))
  unfolding y_loop
  y_loop-raster n zero ypos m enough high low small narrow = absurd (omega arith)
  y_loop-raster zero (suc fuel) ypos m enough high low small narrow =
      let over : ltb ypos m.cinfo.yimage ≡ false = ground arith in rw over refl
  y_loop-raster (suc n) (suc fuel) ypos m enough high low small narrow =
      let more : ltb ypos m.cinfo.yimage ≡ true = ground arith in
      let next : u16 (ypos + 8) ≡ ypos + 8 = omega arith in
      let w = m.cinfo.ximage in
      let here = row ypos (blocks w) 0 in
      let m' = foldl (encode_at j g) m here in
      let kept = size_kept here m in
      let first =
        x_loop-row (blocks w) word_rounds ypos 0 m (omega arith) (omega arith) (omega arith)
          narrow in
      let r =
        y_loop-raster n fuel (ypos + 8) m' (omega arith) (omega (arith, kept)) (omega (arith, kept))
          (omega (arith, kept)) (omega (arith, kept)) in
      rw (more, next, first)
        (r
          ∙ ap (λ (k : ℕ). some (foldl (encode_at j g) m' (raster k n (ypos + 8)))) kept.0
          ∙ ap some (sym (foldl-append (encode_at j g) m here (raster w n (ypos + 8)))))

  -- For an image of at most 65528 columns and rows, `main_encoder` ends, and has coded the blocks row by
  -- row, each from left to right, with all three predictions at 0 before the first.
  pub main_encoder-raster :
      (cinfo : Cinfo)
      → cinfo.ximage ≤ 65528
      → cinfo.yimage ≤ 65528
      → main_encoder j g cinfo
        ≡ some (
            (foldl
              (encode_at j g)
              (record { cinfo = cinfo; dcy = pos 0; dccb = pos 0; dccr = pos 0 })
              (raster cinfo.ximage (blocks cinfo.yimage) 0)).cinfo)
  unfolding main_encoder
  main_encoder-raster cinfo narrow low =
      let start : MainState = record { cinfo = cinfo; dcy = pos 0; dccb = pos 0; dccr = pos 0 } in
      rw
        (y_loop-raster (blocks cinfo.yimage) word_rounds 0 start (omega arith) (omega arith)
          (omega arith) low narrow)
        refl

  -- For an image of more than 65528 columns the inner loop never ends: the counter, a `WORD`, wraps to 0
  -- before it passes the width. No number of tests from a multiple of 8 on is enough.
  pub x_loop-wraps :
      (fuel ypos xpos : ℕ) (m : MainState)
      → xpos < 2 ^ 16
      → xpos % 8 ≡ 0
      → 65528 < m.cinfo.ximage
      → x_loop j g fuel ypos xpos m ≡ none
  unfolding x_loop
  x_loop-wraps zero ypos xpos m word step wide = refl
  x_loop-wraps (suc fuel) ypos xpos m word step wide =
      let more : ltb xpos m.cinfo.ximage ≡ true = ground arith in
      let kept = (size_kept ((ypos, xpos) ∷ []) m).0 in
      rw more (
        x_loop-wraps fuel ypos (u16 (xpos + 8)) (encode_units j g ypos xpos m) (omega arith)
          (omega arith) (omega (arith, kept)))
