-- ===== src/Sse2/Chunks.antt =====
-- The loops of `process_DU` of libusbdisp/libenc/Optimize_SSE2.h over the mask, as the fold over the
-- coefficients, and the whole function.
use jpeg_study.Prelude.{
  ℕ, zero, suc, ◌+◌, ◌-◌, ◌*◌, ◌/◌, ◌%◌, ◌^◌, ◌≤◌, ◌<◌, ◌≡◌, refl, sym, ap, ◌∙◌, arith,
}
use mathlib.Core.Path.{subst}
use jpeg_study.Prelude.{false, ltb, lt→ltb, leb, ◌==◌, Bool-cases, inl, inr}
use jpeg_study.Prelude.{List, [], ◌∷◌, get_or, drop, length, length-drop, get_or-drop}
use jpeg_study.Prelude.Int.{ℤ, pos}
use jpeg_study.Huffman.Codes.{HuffmanTable}
use jpeg_study.Bits.Writer.{BitWriter, writebits}
use jpeg_study.Entropy.Magnitude.{category, value_data}
use jpeg_study.Entropy.Block.{encode_ac, write_m16zeroes, htac}
use jpeg_study.Sse2.Intrinsics.{ctz, shr32}
use jpeg_study.Sse2.Block.{write_value, Loop, first_loop, switch_m16zeroes, write_run, chunk_loop}
use jpeg_study.Sse2.Fold.{Run, at, steps}
use jpeg_study.Sse2.Mask.{mask, IsFirst, ctz-IsFirst, mask_none}

-- `zs` are the coefficients from place `p` on.
abbrev pub IsWindow : List ℤ → ℕ → List ℤ → Type 0
IsWindow zdu p zs = (k : ℕ) → k < length zs → get_or zs k (pos 0) ≡ get_or zdu (p + k) (pos 0)

IsWindow-drop :
    (zdu : List ℤ) (p n : ℕ) (zs : List ℤ)
    → n < length zs
    → IsWindow zdu p zs
    → IsWindow zdu (p + n + 1) (drop (suc n) zs)
IsWindow-drop zdu p n zs inside window k h =
    get_or-drop (suc n) zs k (pos 0)
    ∙ window (suc n + k) (omega (arith, length-drop (suc n) zs))
    ∙ ap (λ (i : ℕ). get_or zdu i (pos 0)) (omega arith)

-- A count below 32 is not reduced.
pub shifted :
    (bits n : ℕ) (zs : List ℤ)
    → bits ≡ mask zs
    → n < 15
    → mask zs / 2 ^ ((n + 1) * 2) ≡ mask (drop (suc n) zs)
    → shr32 bits ((n + 1) * 2) ≡ mask (drop (suc n) zs)
shifted bits n zs same small rest =
    let count : (n + 1) * 2 % 32 ≡ (n + 1) * 2 = omega arith in rw (count, same) rest

module _ (ht : HuffmanTable) where
  write_value-encode_ac :
      (n : ℕ) (z : ℤ) (w : BitWriter) → n < 16 → write_value ht n z w ≡ encode_ac ht n z w
  unfolding write_value encode_ac
  write_value-encode_ac n z w h = let short : leb 16 n ≡ false = ground arith in rw short refl

  -- The cases of the switch fall through to as many codes as its value.
  switch_m16zeroes_lem :
      (k : ℕ) (w : BitWriter) → 1 ≤ k → k < 4 → switch_m16zeroes ht k w ≡ write_m16zeroes ht k w
  unfolding switch_m16zeroes write_m16zeroes
  switch_m16zeroes_lem zero w p q = absurd (omega arith)
  switch_m16zeroes_lem (suc zero) w p q = refl
  switch_m16zeroes_lem (suc (suc zero)) w p q = refl
  switch_m16zeroes_lem (suc (suc (suc zero))) w p q = refl
  switch_m16zeroes_lem (suc (suc (suc (suc k)))) w p q = absurd (omega arith)

  write_run-encode_ac :
      (n : ℕ) (z : ℤ) (w : BitWriter) → n < 64 → write_run ht n z w ≡ encode_ac ht n z w
  unfolding write_run write_value encode_ac
  write_run-encode_ac n z w h = elim (Bool-cases (leb 16 n)) [
    | inl long ↦ rw long (
        ap (λ v. writebits (value_data z) (writebits (htac ht (n % 16 * 16 + category z)) v))
          (switch_m16zeroes_lem (n / 16) w (ground arith) (omega arith)))
    | inr short ↦ rw short refl
  ]

  module _ (zdu : List ℤ) where
    -- The state behind a loop over a chunk.
    abbrev pub run_of : Loop → Run
    run_of l = at (l.nrzeroes + (16 - l.i)) l.writer

    pub chunk_loop-steps :
        (fuel : ℕ) (zs : List ℤ) (p bits : ℕ) (l : Loop)
        → length zs + l.i ≡ 16
        → length zs ≤ fuel
        → l.nrzeroes + length zs < 64
        → (l.i < 16 → bits ≡ mask zs)
        → IsWindow zdu p zs
        → run_of (chunk_loop fuel ht zdu p bits l) ≡ steps ht (at l.nrzeroes l.writer) zs
    unfolding chunk_loop
    chunk_loop-steps zero [] p bits l sum enough few same window =
        ap (λ (k : ℕ). at k l.writer) (omega arith)
    chunk_loop-steps zero (z ∷ zs) p bits l sum enough few same window = absurd (omega arith)
    chunk_loop-steps (suc fuel) [] p bits l sum enough few same window =
        let over : ltb l.i 16 ≡ false = ground arith in
        let done = ap (λ (k : ℕ). at k l.writer) (omega arith) in
        elim (Bool-cases (bits == 0)) [
          | inl none ↦ rw none done
          | inr some_bit ↦ rw (some_bit, over) done
        ]
    chunk_loop-steps (suc fuel) (z ∷ zs) p bits l sum enough few same window =
        let all = z ∷ zs in
        let inside : l.i < 16 = omega arith in
        let bits_mask : bits ≡ mask all = same inside in
        elim (Bool-cases (bits == 0)) [
          | inl none ↦
              let nothing : mask all ≡ 0 = ground arith in
              rw none (
                sym (
                  mask_none all nothing ht (at l.nrzeroes l.writer)
                  ∙ ap (λ (k : ℕ). at k l.writer) (omega arith)))
          | inr some_bit ↦
              let n = ctz 32 bits / 2 in
              let first =
                subst (λ b. IsFirst all (ctz 32 b / 2)) (sym bits_mask)
                  (ctz-IsFirst 32 all (omega arith) (ground arith)) in
              let rest = drop (suc n) all in
              let left : length rest + (l.i + (n + 1)) ≡ 16 =
                omega (arith, length-drop (suc n) all, first.inside) in
              let bits' = λ (more : l.i + (n + 1) < 16).
                shifted bits n all bits_mask (omega arith) first.rest in
              rw (some_bit, lt→ltb l.i 16 inside)
                (chunk_loop-steps fuel rest (p + n + 1) (shr32 bits ((n + 1) * 2))
                    (record {
                      i = l.i + (n + 1);
                      nrzeroes = 0;
                      writer = write_run ht (l.nrzeroes + n) (get_or zdu (p + n) (pos 0)) l.writer;
                    })
                    left (omega arith) (omega (arith, length-drop (suc n) all)) bits'
                    (IsWindow-drop zdu p n all first.inside window)
                  ∙ ap (λ v. steps ht (at 0 (write_run ht (l.nrzeroes + n) v l.writer)) rest)
                      (sym (window n first.inside))
                  ∙ ap (λ v. steps ht (at 0 v) rest)
                      (write_run-encode_ac (l.nrzeroes + n) (get_or all n (pos 0)) l.writer
                        (omega (arith, first.inside)))
                  ∙ sym (first.folded ht (at l.nrzeroes l.writer)))
        ]

    pub first_loop-steps :
        (fuel : ℕ) (zs : List ℤ) (bits : ℕ) (l : Loop)
        → length zs + l.i ≡ 16
        → 1 ≤ l.i
        → length zs ≤ fuel
        → bits ≡ mask zs
        → IsWindow zdu l.i zs
        → at (16 - (first_loop fuel ht zdu bits l).i) (first_loop fuel ht zdu bits l).writer
          ≡ steps ht (at 0 l.writer) zs
    unfolding first_loop
    first_loop-steps zero [] bits l sum low enough same window =
        ap (λ (k : ℕ). at k l.writer) (omega arith)
    first_loop-steps zero (z ∷ zs) bits l sum low enough same window = absurd (omega arith)
    first_loop-steps (suc fuel) zs bits l sum low enough same window =
        elim (Bool-cases (bits == 0)) [
          | inl none ↦
              let nothing : mask zs ≡ 0 = ground arith in
              rw none (
                sym (
                  mask_none zs nothing ht (at 0 l.writer)
                  ∙ ap (λ (k : ℕ). at k l.writer) (omega arith)))
          | inr some_bit ↦
              let n = ctz 32 bits / 2 in
              let first =
                subst (λ b. IsFirst zs (ctz 32 b / 2)) (sym same)
                  (ctz-IsFirst 32 zs (omega arith) (ground arith)) in
              let rest = drop (suc n) zs in
              let left : length rest + (l.i + (n + 1)) ≡ 16 =
                omega (arith, length-drop (suc n) zs, first.inside) in
              let moved : l.i + (n + 1) ≡ l.i + n + 1 = omega arith in
              rw some_bit (
                first_loop-steps fuel rest (shr32 bits ((n + 1) * 2))
                  (record l {
                    i = l.i + (n + 1);
                    writer = write_value ht n (get_or zdu (l.i + n) (pos 0)) l.writer;
                  })
                  left (omega arith) (omega (arith, length-drop (suc n) zs))
                  (shifted bits n zs same (omega (arith, first.inside)) first.rest)
                  (subst (λ (k : ℕ). IsWindow zdu k rest) (sym moved)
                    (IsWindow-drop zdu l.i n zs first.inside window))
                ∙ ap (λ v. steps ht (at 0 (write_value ht n v l.writer)) rest)
                    (sym (window n first.inside))
                ∙ ap (λ v. steps ht (at 0 v) rest)
                    (write_value-encode_ac n (get_or zs n (pos 0)) l.writer
                      (omega (arith, first.inside)))
                ∙ ap
                    (λ (k : ℕ).
                      steps ht (at 0 (encode_ac ht k (get_or zs n (pos 0)) l.writer)) rest)
                    (omega arith)
                ∙ sym (first.folded ht (at 0 l.writer)))
        ]
