-- ===== src/Sse2/Process.antt =====
-- `process_DU` of libusbdisp/libenc/Optimize_SSE2.h against that of libusbdisp/libenc/jpeg_enc.c.
use jpeg_study.Prelude.{ℕ, suc, ◌+◌, ◌*◌, ◌≤◌, ◌<◌, ◌≡◌, refl, sym, ap, ◌∙◌, arith}
use jpeg_study.Prelude.{◌==◌, not, Bool-cases, inl, inr, u16}
use jpeg_study.Prelude.{
  List, [], ◌∷◌, get_or, set, drop, take, length, length-take, length-drop, length-set, get_or-drop,
  get_or-take, take-drop, drop-drop, drop-length, drop-get_or, foldl-append, get_or-set_self,
}
use jpeg_study.Prelude.Int.{ℤ, pos, negsuc, ◌-ℤ◌, is_zero, IsI16, from_u16, to_u32}
use jpeg_study.Huffman.Codes.{HuffmanTable}
use jpeg_study.Bits.Writer.{BitWriter, writebits}
use jpeg_study.Entropy.Block.{zigzag_order, encode_dc, encode_acs, process_du, htac}
use jpeg_study.Entropy.Order.{length-zigzag_order}
use jpeg_study.Sse2.Intrinsics.{shr32}
use jpeg_study.Sse2.Block.{
  nonzero_bits, Loop, chunk, first_chunk, encode_acs_sse2, dc_difference, process_du_sse2,
}
use jpeg_study.Sse2.Fold.{Run, at, step, steps, finish, step-zero, step-nonzero}
use jpeg_study.Sse2.Mask.{mask, nonzero_bits-mask, mask-rest}
use jpeg_study.Sse2.Plain.{encode_acs-finish}
use jpeg_study.Sse2.Chunks.{IsWindow, chunk_loop-steps, first_loop-steps}

module _ (ht : HuffmanTable) where
  steps-split :
      (n : ℕ) (r : Run) (zs : List ℤ)
      → steps ht r zs ≡ steps ht (steps ht r (take n zs)) (drop n zs)
  steps-split n r zs =
      ap (λ ys. steps ht r ys) (sym (take-drop n zs))
      ∙ foldl-append (step ht) r (take n zs) (drop n zs)

  step-zeros_le : (r : Run) (z : ℤ) → (step ht r z).zeros ≤ suc r.zeros
  step-zeros_le r z = elim (Bool-cases (is_zero z)) [
    | inl h ↦ rw (step-zero ht r z h) (omega arith)
    | inr h ↦ rw (step-nonzero ht r z h) (omega arith)
  ]

  steps-zeros_le : (r : Run) (zs : List ℤ) → (steps ht r zs).zeros ≤ r.zeros + length zs
  steps-zeros_le r [] = omega arith
  steps-zeros_le r (z ∷ zs) = omega (arith, step-zeros_le r z, steps-zeros_le (step ht r z) zs)

  -- The run at the end is empty exactly if the last coefficient is not 0.
  steps-last :
      (r : Run) (z : ℤ) (zs : List ℤ)
      → ((steps ht r (z ∷ zs)).zeros == 0) ≡ not (is_zero (get_or (z ∷ zs) (length zs) (pos 0)))
  steps-last r z [] = elim (Bool-cases (is_zero z)) [
    | inl h ↦ rw (step-zero ht r z h, h) (ground arith)
    | inr h ↦ rw (step-nonzero ht r z h, h) refl
  ]
  steps-last r z (y ∷ zs) = steps-last (step ht r z) y zs

  module _ (zdu : List ℤ) (sized : length zdu ≡ 64) where
    length-chunk : (i n : ℕ) → i + n ≤ 64 → length (take n (drop i zdu)) ≡ n
    length-chunk i n room = length-take n (drop i zdu) (omega (arith, length-drop i zdu))

    -- The mask of coefficients 1 to 15.
    pub first_bits : shr32 (nonzero_bits zdu 0) 2 ≡ mask (take 15 (drop 1 zdu))
    first_bits =
        let first = get_or zdu 0 (pos 0) in
        ap (λ (m : ℕ). shr32 m 2)
          (nonzero_bits-mask zdu 0 (omega arith)
            ∙ ap (λ zs. mask (take 16 zs)) (drop-get_or zdu 0 (pos 0) (omega arith)))
        ∙ mask-rest first (take 15 (drop 1 zdu))

    -- The coefficients of a chunk.
    IsWindow-chunk : (i n : ℕ) → i + n ≤ 64 → IsWindow zdu i (take n (drop i zdu))
    IsWindow-chunk i n room k h =
        let sized_chunk : length (take n (drop i zdu)) ≡ n = length-chunk i n room in
        get_or-take n (drop i zdu) k (pos 0) (omega arith) ∙ get_or-drop i zdu k (pos 0)

    state : Loop → Run
    state l = at l.nrzeroes l.writer

    first_chunk-steps :
        (w : BitWriter) → state (first_chunk ht zdu w) ≡ steps ht (at 0 w) (take 15 (drop 1 zdu))
    unfolding first_chunk state
    first_chunk-steps w =
        first_loop-steps ht zdu 16 (take 15 (drop 1 zdu)) (shr32 (nonzero_bits zdu 0) 2)
          (record { i = 1; nrzeroes = 0; writer = w })
          (omega (arith, length-chunk 1 15 (omega arith))) (omega arith)
          (omega (arith, length-chunk 1 15 (omega arith))) first_bits
          (IsWindow-chunk 1 15 (omega arith))

    chunk-steps :
        (k : ℕ) (l : Loop)
        → k < 4
        → l.nrzeroes < 48
        → state (chunk ht zdu k l) ≡ steps ht (state l) (take 16 (drop (16 * k) zdu))
    unfolding chunk state
    chunk-steps k l inside few =
        let sized_chunk = length-chunk (16 * k) 16 (omega arith) in
        chunk_loop-steps ht zdu 16 (take 16 (drop (16 * k) zdu)) (16 * k)
          (nonzero_bits zdu (16 * k)) (record l { i = 0 }) (omega arith) (omega arith) (omega arith)
          (λ h. nonzero_bits-mask zdu (16 * k) (omega arith))
          (IsWindow-chunk (16 * k) 16 (omega arith))

    -- The state behind chunk `k` stands for all coefficients before the next chunk.
    Covers : ℕ → BitWriter → Loop → Type 0
    Covers n w l =
        (steps ht (at 0 w) (drop 1 zdu) ≡ steps ht (state l) (drop n zdu)) × (l.nrzeroes < n)

    Covers-first_chunk : (w : BitWriter) → Covers 16 w (first_chunk ht zdu w)
    unfolding Covers state
    Covers-first_chunk w =
        let after = first_chunk-steps w in
        let few = steps-zeros_le (at 0 w) (take 15 (drop 1 zdu)) in
        let count = ap (λ (r : Run). r.zeros) after in
        (
          steps-split 15 (at 0 w) (drop 1 zdu)
              ∙ ap (λ r. steps ht r (drop 15 (drop 1 zdu))) (sym after)
              ∙ ap (λ zs. steps ht (state (first_chunk ht zdu w)) zs) (drop-drop 1 15 zdu),
          omega (arith, count, few, length-chunk 1 15 (omega arith)),
        )

    Covers-chunk :
        (k : ℕ) (w : BitWriter) (l : Loop)
        → k < 4
        → Covers (16 * k) w l
        → Covers (16 * k + 16) w (chunk ht zdu k l)
    unfolding Covers state
    Covers-chunk k w l inside covered =
        let after = chunk-steps k l inside (omega (arith, covered.1)) in
        let here = drop (16 * k) zdu in
        let few = steps-zeros_le (state l) (take 16 here) in
        let count = ap (λ (r : Run). r.zeros) after in
        (
          covered.0
              ∙ steps-split 16 (state l) here
              ∙ ap (λ r. steps ht r (drop 16 here)) (sym after)
              ∙ ap (λ zs. steps ht (state (chunk ht zdu k l)) zs) (drop-drop (16 * k) 16 zdu),
          omega (arith, count, few, covered.1, length-chunk (16 * k) 16 (omega arith)),
        )

    last_test :
        (w : BitWriter)
        → ((steps ht (at 0 w) (drop 1 zdu)).zeros == 0) ≡ not (is_zero (get_or zdu 63 (pos 0)))
    last_test w =
        let split = drop-get_or zdu 1 (pos 0) (omega arith) in
        let rest = drop 2 zdu in
        let count : length rest ≡ 62 = omega (arith, length-drop 2 zdu) in
        ap (λ zs. (steps ht (at 0 w) zs).zeros == 0) split
        ∙ steps-last (at 0 w) (get_or zdu 1 (pos 0)) rest
        ∙ ap (λ (k : ℕ). not (is_zero (get_or (get_or zdu 1 (pos 0) ∷ rest) k (pos 0)))) count
        ∙ ap (λ zs. not (is_zero (get_or zs 62 (pos 0)))) (sym split)
        ∙ ap (λ z. not (is_zero z)) (get_or-drop 1 zdu 62 (pos 0))

    -- The state behind coefficient 63.
    abbrev pub all_chunks : BitWriter → Loop
    all_chunks w = chunk ht zdu 3 (chunk ht zdu 2 (chunk ht zdu 1 (first_chunk ht zdu w)))

    all_chunks-steps : (w : BitWriter) → steps ht (at 0 w) (drop 1 zdu) ≡ state (all_chunks w)
    unfolding Covers
    all_chunks-steps w =
        let l0 = first_chunk ht zdu w in
        let l1 = chunk ht zdu 1 l0 in
        let l2 = chunk ht zdu 2 l1 in
        let c0 = Covers-first_chunk w in
        let c1 = Covers-chunk 1 w l0 (omega arith) c0 in
        let c2 = Covers-chunk 2 w l1 (omega arith) c1 in
        let c3 = Covers-chunk 3 w l2 (omega arith) c2 in
        c3.0 ∙ ap (λ zs. steps ht (state (all_chunks w)) zs) (drop-length zdu 64 (omega arith))

    -- The run at the end is empty exactly if the last coefficient is not 0.
    pub all_chunks-last :
        (w : BitWriter) → ((all_chunks w).nrzeroes == 0) ≡ not (is_zero (get_or zdu 63 (pos 0)))
    unfolding state
    all_chunks-last w = ap (λ (r : Run). r.zeros == 0) (sym (all_chunks-steps w)) ∙ last_test w

    pub encode_acs_sse2-finish :
        (w : BitWriter) → encode_acs_sse2 ht zdu w ≡ finish ht (steps ht (at 0 w) (drop 1 zdu))
    unfolding encode_acs_sse2 finish state
    encode_acs_sse2-finish w =
        let written = ap (λ (s : Run). s.writer) (all_chunks-steps w) in
        elim (Bool-cases (is_zero (get_or zdu 63 (pos 0)))) [
          | inl z ↦ rw (last_test w, z) (ap (λ v. writebits (htac ht 0x00) v) (sym written))
          | inr z ↦ rw (last_test w, z) (sym written)
        ]

from_u16-to_u32 : (z : ℤ) → IsI16 z → from_u16 (u16 (to_u32 z)) ≡ z
from_u16-to_u32 (pos n) h = ground arith
from_u16-to_u32 (negsuc n) h = ground arith

drop-set_first : (zdu : List ℤ) (z : ℤ) → drop 1 (set zdu 0 z) ≡ drop 1 zdu
drop-set_first [] z = refl
drop-set_first (y ∷ zs) z = refl

-- The difference fits an `INT16` unless it wraps.
dc_difference_lem : (first dc : ℤ) → IsI16 (first -ℤ dc) → dc_difference first dc ≡ first -ℤ dc
unfolding dc_difference
dc_difference_lem first dc h = from_u16-to_u32 (first -ℤ dc) h

-- If the difference of the DC coefficients fits an `INT16`, then the SSE2 version of `process_DU`, which
-- reads the runs of zeros off masks of 16 coefficients, leaves the writer and the DC coefficient that
-- the plain version leaves, for any block, code tables and writer.
pub process_du_sse2-process_du :
    (du : List ℤ) (dc : ℤ) (ht : HuffmanTable) (w : BitWriter)
    → IsI16 (get_or du 0 (pos 0) -ℤ dc)
    → process_du_sse2 du dc ht w ≡ process_du du dc ht w
unfolding process_du_sse2 process_du
process_du_sse2-process_du du dc ht w h =
    let zdu = zigzag_order du in
    let first = get_or du 0 (pos 0) in
    let d = dc_difference first dc in
    let zdu' = set zdu 0 d in
    let sized : length zdu ≡ 64 = length-zigzag_order du in
    let at_first : get_or zdu' 0 (pos 0) ≡ d = get_or-set_self zdu 0 d (pos 0) (omega arith) in
    let w' = encode_dc ht d w in
    let dc_same : encode_dc ht (get_or zdu' 0 (pos 0)) w ≡ encode_dc ht (first -ℤ dc) w =
      ap (λ z. encode_dc ht z w) (at_first ∙ dc_difference_lem first dc h) in
    λ i. record {
      writer =
          (encode_acs_sse2-finish ht zdu' (length-set zdu 0 d ∙ sized)
                (encode_dc ht (get_or zdu' 0 (pos 0)) w)
              ∙ ap (λ zs. finish ht (steps ht (at 0 (encode_dc ht (get_or zdu' 0 (pos 0)) w)) zs))
                  (drop-set_first zdu d)
              ∙ sym (encode_acs-finish ht zdu sized (encode_dc ht (get_or zdu' 0 (pos 0)) w))
              ∙ ap (λ v. encode_acs ht zdu v) dc_same)
            i;
      dc = first;
    }
