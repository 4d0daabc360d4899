-- ===== src/Sse2/RleRoom.antt =====
-- The room that `process_DU` of libusbdisp/libenc/Optimize_SSE2.h takes in `cinfo->RLE`, an array of 128 elements.
use mathlib.Core.Path.{subst}
use jpeg_study.Prelude.{ℕ, zero, suc, ◌+◌, ◌*◌, ◌/◌, ◌≤◌, ◌<◌, ◌≡◌, sym, ap, ◌∙◌, arith}
use jpeg_study.Prelude.{true, ltb, leb, ◌==◌, not, Bool-cases, inl, inr}
use jpeg_study.Prelude.{
  List, [], ◌∷◌, get_or, set, drop, take, length, length-append, length-drop, length-take,
  length-set,
}
use jpeg_study.Prelude.Int.{ℤ, pos, is_zero}
use jpeg_study.Huffman.Codes.{HuffmanTable}
use jpeg_study.Bits.Writer.{BitWriter}
use jpeg_study.Entropy.Block.{zigzag_order}
use jpeg_study.Entropy.Order.{length-zigzag_order}
use jpeg_study.Sse2.Intrinsics.{ctz, shr32}
use jpeg_study.Sse2.Block.{nonzero_bits, Loop, dc_difference}
use jpeg_study.Sse2.Mask.{mask, IsFirst, ctz-IsFirst, nonzero_bits-mask}
use jpeg_study.Sse2.Chunks.{shifted}
use jpeg_study.Sse2.Process.{first_bits, all_chunks-last}
use jpeg_study.Sse2.Rle.{
  write_rle, dc_rle, value_rle, RleLoop, first_rle_loop, switch_rle, run_rle, chunk_rle_loop,
  chunk_rle, first_chunk_rle, acs_rle, rle_of, write_all,
}
use jpeg_study.Sse2.Replay.{all_rle, all_rle-replay}

length-write_rle : (x : ℕ) (rle : List ℕ) → length (write_rle x rle) ≡ suc (length rle)
unfolding write_rle
length-write_rle x rle = omega (arith, length-append rle (x ∷ []))

module _ (ht : HuffmanTable) where
  length-value_rle :
      (n : ℕ) (z : ℤ) (rle : List ℕ) → length (value_rle ht n z rle) ≡ suc (suc (length rle))
  unfolding value_rle
  length-value_rle n z rle = simp length-write_rle

  length-dc_rle : (z : ℤ) (rle : List ℕ) → length (dc_rle ht z rle) ≤ length rle + 2
  unfolding dc_rle
  length-dc_rle z rle = elim (Bool-cases (is_zero z)) [
    | inl h ↦ rw (h, length-write_rle) (omega arith)
    | inr h ↦ rw (h, length-write_rle, length-write_rle) (omega arith)
  ]

  length-switch_rle : (n : ℕ) (rle : List ℕ) → 1 ≤ n → length (switch_rle ht n rle) ≤ length rle + n
  unfolding switch_rle
  length-switch_rle n rle low = elim (Bool-cases (n == 3)) [
    | inl three ↦ rw (three, length-write_rle, length-write_rle, length-write_rle) (ground arith)
    | inr other ↦ elim (Bool-cases (n == 2)) [
      | inl two ↦ rw (other, two, length-write_rle, length-write_rle) (ground arith)
      | inr one ↦ rw (other, one, length-write_rle) (omega arith)
    ]
  ]

  length-run_rle :
      (n : ℕ) (z : ℤ) (rle : List ℕ) → length (run_rle ht n z rle) ≤ length rle + n / 16 + 2
  unfolding run_rle
  length-run_rle n z rle = elim (Bool-cases (leb 16 n)) [
    | inl long ↦
        rw (long, length-value_rle) (omega (arith, length-switch_rle (n / 16) rle (ground arith)))
    | inr short ↦ rw (short, length-value_rle) (omega arith)
  ]

  module _ (zdu : List ℤ) where
    -- Twice as many elements as there are coefficients up to here, less the zeros of the run.
    Fits : ℕ → RleLoop → Type 0
    Fits before l = (length l.rle + l.nrzeroes ≤ 2 * (before + l.i)) × (l.i ≤ 16)

    chunk_rle_loop-Fits :
        (fuel before first : ℕ) (zs : List ℤ) (bits : ℕ) (l : RleLoop)
        → length zs + l.i ≡ 16
        → (l.i < 16 → bits ≡ mask zs)
        → Fits before l
        → Fits before (chunk_rle_loop fuel ht zdu first bits l)
    unfolding chunk_rle_loop Fits
    chunk_rle_loop-Fits zero before first zs bits l sum same fits = fits
    chunk_rle_loop-Fits (suc fuel) before first zs bits l sum same fits =
        elim (Bool-cases (bits == 0)) [
          | inl none ↦ rw none fits
          | inr some_bit ↦ elim (Bool-cases (ltb l.i 16)) [
            | inr over ↦ rw (some_bit, over) fits
            | inl inside ↦
                let below : l.i < 16 = ground arith in
                let n = ctz 32 bits / 2 in
                let found =
                  subst (λ b. IsFirst zs (ctz 32 b / 2)) (sym (same below))
                    (ctz-IsFirst 32 zs (omega arith) (ground (arith, same below))) in
                let z = get_or zdu (first + (l.i + n)) (pos 0) in
                let room = length-run_rle (l.nrzeroes + n) z l.rle in
                rw (some_bit, inside)
                  (chunk_rle_loop-Fits fuel before first (drop (suc n) zs)
                    (shr32 bits ((n + 1) * 2))
                    (record {
                      i = l.i + (n + 1);
                      nrzeroes = 0;
                      rle = run_rle ht (l.nrzeroes + n) z l.rle;
                    })
                    (omega (arith, length-drop (suc n) zs, found.inside))
                    (λ more. shifted bits n zs (same below) (omega arith) found.rest)
                    (omega (arith, room, fits.0), omega (arith, found.inside)))
          ]
        ]

    first_rle_loop-Fits :
        (fuel : ℕ) (zs : List ℤ) (bits : ℕ) (l : RleLoop)
        → length zs + l.i ≡ 16
        → 1 ≤ l.i
        → bits ≡ mask zs
        → Fits 0 l
        → Fits 0 (first_rle_loop fuel ht zdu bits l)
    unfolding first_rle_loop Fits
    first_rle_loop-Fits zero zs bits l sum low same fits = fits
    first_rle_loop-Fits (suc fuel) zs bits l sum low same fits = elim (Bool-cases (bits == 0)) [
      | inl none ↦ rw none fits
      | inr some_bit ↦
          let n = ctz 32 bits / 2 in
          let found =
            subst (λ b. IsFirst zs (ctz 32 b / 2)) (sym same)
              (ctz-IsFirst 32 zs (omega arith) (ground (arith, same))) in
          let z = get_or zdu (l.i + n) (pos 0) in
          rw some_bit (
            first_rle_loop-Fits fuel (drop (suc n) zs) (shr32 bits ((n + 1) * 2))
              (record l { i = l.i + (n + 1); rle = value_rle ht n z l.rle })
              (omega (arith, length-drop (suc n) zs, found.inside)) (omega arith)
              (shifted bits n zs same (omega (arith, found.inside)) found.rest)
              (omega (arith, length-value_rle n z l.rle, fits.0), omega (arith, found.inside)))
    ]

    -- The state at the end of a chunk.
    Holds : ℕ → RleLoop → Type 0
    Holds behind l = length l.rle + l.nrzeroes ≤ 2 * behind

    module _ (sized : length zdu ≡ 64) where
      first_chunk_rle-Holds :
          (rle : List ℕ) → length rle ≤ 2 → Holds 16 (first_chunk_rle ht zdu rle)
      unfolding first_chunk_rle Holds Fits
      first_chunk_rle-Holds rle short =
          let rest = take 15 (drop 1 zdu) in
          let bits = shr32 (nonzero_bits zdu 0) 2 in
          let count : length rest ≡ 15 =
            omega (arith, length-take 15 (drop 1 zdu), length-drop 1 zdu) in
          let fits =
            first_rle_loop-Fits 16 rest bits (record { i = 1; nrzeroes = 0; rle = rle })
              (omega (arith, count)) (omega arith) (first_bits ht zdu sized)
              (omega arith, omega arith) in
          omega (arith, fits.0, fits.1)

      chunk_rle-Holds :
          (k : ℕ) (l : RleLoop)
          → k < 4
          → Holds (16 * k) l
          → Holds (16 * k + 16) (chunk_rle ht zdu k l)
      unfolding chunk_rle Holds Fits
      chunk_rle-Holds k l inside held =
          let rest = take 16 (drop (16 * k) zdu) in
          let count : length rest ≡ 16 =
            omega (arith, length-take 16 (drop (16 * k) zdu), length-drop (16 * k) zdu) in
          let fits =
            chunk_rle_loop-Fits 16 (16 * k) (16 * k) rest (nonzero_bits zdu (16 * k))
              (record l { i = 0 }) (omega (arith, count))
              (λ h. nonzero_bits-mask zdu (16 * k) (omega arith)) (omega arith, omega arith) in
          omega (arith, fits.0, fits.1)

      all_rle-Holds :
          (w : BitWriter) (rle : List ℕ) → length rle ≤ 2 → Holds 64 (all_rle w ht zdu rle)
      all_rle-Holds w rle short =
          let l0 = first_chunk_rle ht zdu rle in
          let l1 = chunk_rle ht zdu 1 l0 in
          let l2 = chunk_rle ht zdu 2 l1 in
          chunk_rle-Holds 3 l2 (omega arith) (
            chunk_rle-Holds 2 l1 (omega arith)
              (chunk_rle-Holds 1 l0 (omega arith) (first_chunk_rle-Holds rle short)))

      -- The run at the end is not empty if the last coefficient is 0.
      all_rle-last :
          (w : BitWriter) (rle : List ℕ)
          → ((all_rle w ht zdu rle).nrzeroes == 0) ≡ not (is_zero (get_or zdu 63 (pos 0)))
      all_rle-last w rle =
          ap (λ (l : Loop). l.nrzeroes == 0) (all_rle-replay w ht zdu rle)
          ∙ all_chunks-last ht zdu sized (write_all rle w)

      acs_rle-room :
          (w : BitWriter) (rle : List ℕ) → length rle ≤ 2 → length (acs_rle ht zdu rle) ≤ 128
      unfolding acs_rle Holds
      acs_rle-room w rle short =
          let held = all_rle-Holds w rle short in
          let last = all_rle-last w rle in
          elim (Bool-cases (is_zero (get_or zdu 63 (pos 0)))) [
            | inl z ↦
                let more : ((all_rle w ht zdu rle).nrzeroes == 0) ≡ not true = last ∙ ap not z in
                rw (z, length-write_rle) (ground (arith, held, more))
            | inr z ↦ rw z (omega (arith, held))
          ]

-- For any block, DC coefficient and code tables, the bit strings of a block are at most 128, the size of the array
-- `RLE`: two for each coefficient and, with the last coefficient 0, room for the end of the block.
pub length-rle_of : (du : List ℤ) (dc : ℤ) (ht : HuffmanTable) → length (rle_of du dc ht) ≤ 128
unfolding rle_of
length-rle_of du dc ht =
    let zdu = set (zigzag_order du) 0 (dc_difference (get_or du 0 (pos 0)) dc) in
    let w : BitWriter = record { jpeg_stream = []; wordnew = 0; wordpos = 32 } in
    acs_rle-room ht zdu (length-set (zigzag_order du) 0 _ ∙ length-zigzag_order du) w
      (dc_rle ht (get_or zdu 0 (pos 0)) []) (length-dc_rle ht (get_or zdu 0 (pos 0)) [])
