-- ===== src/Sse2/Plain.antt =====
-- `process_DU` of libusbdisp/libenc/jpeg_enc.c behind the DC coefficient, as the fold over the coefficients.
use mathlib.Core.Path.{fun_ext}
use jpeg_study.Prelude.{ℕ, zero, suc, ◌+◌, ◌-◌, ◌≤◌, ◌<◌, ◌≡◌, refl, sym, ap, ◌∙◌, arith}
use jpeg_study.Prelude.{true, false, leb, ◌==◌, Bool-cases, inl, inr}
use jpeg_study.Prelude.{List, ◌∷◌, drop, length, drop-get_or}
use jpeg_study.Prelude.Int.{ℤ, pos, is_zero}
use jpeg_study.Huffman.Codes.{HuffmanTable}
use jpeg_study.Bits.Writer.{BitWriter}
use jpeg_study.Entropy.Block.{find_end, skip_zeros, encode_ac, ac_loop, encode_acs}
use jpeg_study.Entropy.Scan.{coef, IsEnd, find_end-IsEnd, skip_zeros-Skips, code-zeros}
use jpeg_study.Sse2.Fold.{Run, at, steps, finish, step-zero, step-nonzero}

module _ (ht : HuffmanTable) where
  -- The state behind the coefficients, as a function of the writer.
  abbrev reading : ℕ → List ℤ → BitWriter → Run
  reading run zs = λ w. steps ht (at run w) zs

  reading-zero :
      (run : ℕ) (z : ℤ) (zs : List ℤ)
      → is_zero z ≡ true
      → reading run (z ∷ zs) ≡ reading (suc run) zs
  reading-zero run z zs h = fun_ext (λ w. ap (λ s. steps ht s zs) (step-zero ht (at run w) z h))

  module _ (zdu : List ℤ) (sized : length zdu ≡ 64) where
    run_step :
        (run i : ℕ) (w : BitWriter)
        → i < 64
        → is_zero (coef zdu i) ≡ false
        → steps ht (at run w) (drop i zdu)
          ≡ steps ht (at 0 (encode_ac ht run (coef zdu i) w)) (drop (suc i) zdu)
    run_step run i w h z =
        ap (λ zs. steps ht (at run w) zs) (drop-get_or zdu i (pos 0) (omega arith))
        ∙ ap (λ s. steps ht s (drop (suc i) zdu)) (step-nonzero ht (at run w) (coef zdu i) z)

    ac_loop-steps :
        (e : ℕ)
        → e < 64
        → is_zero (coef zdu e) ≡ false
        → (fuel i : ℕ) (w : BitWriter) → 1 ≤ i
        → i ≤ suc e
        → e < i + fuel
        → steps ht (at 0 w) (drop i zdu)
          ≡ steps ht (at 0 (ac_loop fuel ht zdu e i w)) (drop (suc e) zdu)
    unfolding ac_loop
    ac_loop-steps e inside last zero i w low high enough =
        let at_end : i ≡ suc e = omega arith in rw at_end refl
    ac_loop-steps e inside last (suc fuel) i w low high enough = elim (Bool-cases (leb i e)) [
      | inl more ↦
          let low_enough : i ≤ e = ground arith in
          let skip =
            skip_zeros-Skips reading reading-zero zdu 64 e i 0 low_enough (omega arith)
              (omega arith) last in
          let j = skip_zeros 64 zdu e i in
          let at_start : 0 + (j - i) ≡ j - i = omega arith in
          rw more (
            ap (λ f. f w) skip.same_code
            ∙ ap (λ (n : ℕ). steps ht (at n w) (drop j zdu)) at_start
            ∙ run_step (j - i) j w (omega (arith, skip.upto)) skip.found
            ∙ ac_loop-steps e inside last fuel (suc j) (encode_ac ht (j - i) (coef zdu j) w)
                (omega arith) (omega (arith, skip.upto)) (omega (arith, skip.from)))
      | inr over ↦ let at_end : i ≡ suc e = ground arith in rw (over, at_end) refl
    ]

    -- Only zeros are left behind place `e`.
    zeros_behind :
        (e left : ℕ) (w : BitWriter)
        → IsEnd zdu 63 e
        → suc e + left ≡ 64
        → steps ht (at 0 w) (drop (suc e) zdu) ≡ at left w
    zeros_behind e left w found sum =
        ap (λ f. f w)
          (code-zeros reading reading-zero zdu left 0 (suc e) (omega arith)
            (λ k h l. found.zeros_behind k (omega arith) (omega arith)))
        ∙ ap (λ (k : ℕ). at k w) (omega arith)

    -- Behind the DC coefficient, the function does what the fold does.
    pub encode_acs-finish :
        (w : BitWriter) → encode_acs ht zdu w ≡ finish ht (steps ht (at 0 w) (drop 1 zdu))
    unfolding encode_acs finish
    encode_acs-finish w =
        let found = find_end-IsEnd zdu 63 in
        let e = find_end zdu 63 in
        elim (Bool-cases (e == 0)) [
          | inl none ↦
              let start : suc e ≡ 1 = ground arith in
              let only = zeros_behind e 63 w found (omega arith) in
              rw none (ap (finish ht) (sym (rw start at only)))
          | inr nonzero ↦
              let coded = ac_loop 64 ht zdu e 1 w in
              let loop =
                ac_loop-steps e (omega (arith, found.within)) (found.last (ground arith)) 64 1 w
                  (omega arith) (omega arith) (omega (arith, found.within)) in
              elim (Bool-cases (e == 63)) [
                | inl full ↦
                    let nothing = zeros_behind e 0 coded found (ground arith) in
                    rw (nonzero, full) (ap (finish ht) (sym (loop ∙ nothing)))
                | inr left_over ↦
                    let zeros = zeros_behind e (63 - e) coded found (omega (arith, found.within)) in
                    let some_left : (63 - e == 0) ≡ false = ground (arith, found.within) in
                    rw (nonzero, left_over)
                      (sym (ap (finish ht) (loop ∙ zeros) ∙ rw some_left refl))
              ]
        ]
