-- ===== src/Sse2/Replay.antt =====
-- The two versions of `process_DU` in libusbdisp/libenc/Optimize_SSE2.h against each other.
use jpeg_study.Prelude.{ℕ, zero, suc, ◌+◌, ◌-◌, ◌*◌, ◌/◌, ◌%◌, ◌≡◌, ap, ◌∙◌, arith, refl}
use jpeg_study.Prelude.{ltb, leb, ◌==◌, Bool-cases, inl, inr}
use jpeg_study.Prelude.{List, [], ◌∷◌, get_or, set, foldl-append}
use jpeg_study.Prelude.Int.{ℤ, pos, is_zero}
use jpeg_study.Huffman.Codes.{HuffmanTable}
use jpeg_study.Bits.Writer.{BitWriter, writebits}
use jpeg_study.Entropy.Block.{zigzag_order, encode_dc, htac, htdc}
use jpeg_study.Sse2.Intrinsics.{ctz, shr32}
use jpeg_study.Sse2.Block.{
  nonzero_bits, write_value, Loop, first_loop, switch_m16zeroes, write_run, chunk_loop, chunk,
  first_chunk, encode_acs_sse2, dc_difference, process_du_sse2,
}
use jpeg_study.Sse2.Rle.{
  write_rle, dc_rle, value_rle, RleLoop, first_rle_loop, switch_rle, run_rle, chunk_rle_loop,
  chunk_rle, first_chunk_rle, acs_rle, rle_of, write_all, process_du_rle,
}

module _ (w : BitWriter) where
  write_all-write_rle :
      (x : ℕ) (rle : List ℕ) → write_all (write_rle x rle) w ≡ writebits x (write_all rle w)
  unfolding write_all write_rle
  write_all-write_rle x rle = foldl-append (λ v x. writebits x v) w rle (x ∷ [])

  module _ (ht : HuffmanTable) where
    value_rle-replay :
        (n : ℕ) (z : ℤ) (rle : List ℕ)
        → write_all (value_rle ht n z rle) w ≡ write_value ht n z (write_all rle w)
    unfolding value_rle write_value
    value_rle-replay n z rle = simp write_all-write_rle

    dc_rle-replay :
        (z : ℤ) (rle : List ℕ) → write_all (dc_rle ht z rle) w ≡ encode_dc ht z (write_all rle w)
    unfolding dc_rle encode_dc
    dc_rle-replay z rle = elim (Bool-cases (is_zero z)) [
      | inl none ↦ rw none (write_all-write_rle (htdc ht 0) rle)
      | inr some_bit ↦ rw some_bit (simp write_all-write_rle)
    ]

    switch_rle-replay :
        (n : ℕ) (rle : List ℕ)
        → write_all (switch_rle ht n rle) w ≡ switch_m16zeroes ht n (write_all rle w)
    unfolding switch_rle switch_m16zeroes
    switch_rle-replay n rle = elim (Bool-cases (n == 3)) [
      | inl three ↦ rw three (simp write_all-write_rle)
      | inr other ↦ elim (Bool-cases (n == 2)) [
        | inl two ↦ rw (other, two) (simp write_all-write_rle)
        | inr one ↦ rw (other, one) (write_all-write_rle (htac ht 0xf0) rle)
      ]
    ]

    run_rle-replay :
        (n : ℕ) (z : ℤ) (rle : List ℕ)
        → write_all (run_rle ht n z rle) w ≡ write_run ht n z (write_all rle w)
    unfolding run_rle write_run
    run_rle-replay n z rle = elim (Bool-cases (leb 16 n)) [
      | inl long ↦ rw long (
          value_rle-replay (n % 16) z (switch_rle ht (n / 16) rle)
          ∙ ap (write_value ht (n % 16) z) (switch_rle-replay (n / 16) rle))
      | inr short ↦ rw short (value_rle-replay n z rle)
    ]

    -- The state of the version that writes at once.
    abbrev replay : RleLoop → Loop
    replay l = record { i = l.i; nrzeroes = l.nrzeroes; writer = write_all l.rle w }

    module _ (zdu : List ℤ) where
      first_rle_loop-replay :
          (fuel bits : ℕ) (l : RleLoop)
          → replay (first_rle_loop fuel ht zdu bits l) ≡ first_loop fuel ht zdu bits (replay l)
      unfolding first_rle_loop first_loop
      first_rle_loop-replay zero bits l = refl
      first_rle_loop-replay (suc fuel) bits l = elim (Bool-cases (bits == 0)) [
        | inl none ↦ rw none refl
        | inr some_bit ↦
            let n = ctz 32 bits / 2 in
            let z = get_or zdu (l.i + n) (pos 0) in
            rw some_bit (
              first_rle_loop-replay fuel (shr32 bits ((n + 1) * 2))
                (record l { i = l.i + (n + 1); rle = value_rle ht n z l.rle })
              ∙ ap
                  (λ v.
                    first_loop fuel ht zdu (shr32 bits ((n + 1) * 2))
                      (record { i = l.i + (n + 1); nrzeroes = l.nrzeroes; writer = v }))
                  (value_rle-replay n z l.rle))
      ]

      chunk_rle_loop-replay :
          (fuel first bits : ℕ) (l : RleLoop)
          → replay (chunk_rle_loop fuel ht zdu first bits l)
            ≡ chunk_loop fuel ht zdu (first + l.i) bits (replay l)
      unfolding chunk_rle_loop chunk_loop
      chunk_rle_loop-replay zero first bits l = refl
      chunk_rle_loop-replay (suc fuel) first bits l = elim (Bool-cases (bits == 0)) [
        | inl none ↦ rw none refl
        | inr some_bit ↦ elim (Bool-cases (ltb l.i 16)) [
          | inr over ↦ rw (some_bit, over) refl
          | inl inside ↦
              let n = ctz 32 bits / 2 in
              let at_place : first + (l.i + n) ≡ first + l.i + n = omega arith in
              let next : first + (l.i + (n + 1)) ≡ first + l.i + n + 1 = omega arith in
              let z = get_or zdu (first + (l.i + n)) (pos 0) in
              let go = λ (p : ℕ) (v : BitWriter).
                chunk_loop fuel ht zdu p (shr32 bits ((n + 1) * 2))
                  (record { i = l.i + (n + 1); nrzeroes = 0; writer = v }) in
              rw (some_bit, inside)
                (chunk_rle_loop-replay fuel first (shr32 bits ((n + 1) * 2)) (record {
                  i = l.i + (n + 1);
                  nrzeroes = 0;
                  rle = run_rle ht (l.nrzeroes + n) z l.rle;
                })
                  ∙ ap (go (first + (l.i + (n + 1)))) (run_rle-replay (l.nrzeroes + n) z l.rle)
                  ∙ ap (λ (p : ℕ). go p (write_run ht (l.nrzeroes + n) z (write_all l.rle w))) next
                  ∙ ap
                      (λ (p : ℕ).
                        go (first + l.i + n + 1) (
                          write_run ht (l.nrzeroes + n) (get_or zdu p (pos 0)) (write_all l.rle w)))
                      at_place)
        ]
      ]

      first_chunk_rle-replay :
          (rle : List ℕ)
          → replay (first_chunk_rle ht zdu rle) ≡ first_chunk ht zdu (write_all rle w)
      unfolding first_chunk_rle first_chunk
      first_chunk_rle-replay rle =
          ap (λ (l : Loop). record l { nrzeroes = 16 - l.i })
            (first_rle_loop-replay 16 (shr32 (nonzero_bits zdu 0) 2)
              (record { i = 1; nrzeroes = 0; rle = rle }))

      chunk_rle-replay :
          (k : ℕ) (l : RleLoop) → replay (chunk_rle ht zdu k l) ≡ chunk ht zdu k (replay l)
      unfolding chunk_rle chunk
      chunk_rle-replay k l =
          let start : 16 * k + 0 ≡ 16 * k = omega arith in
          ap (λ (l : Loop). record l { nrzeroes = l.nrzeroes + (16 - l.i) })
            (chunk_rle_loop-replay 16 (16 * k) (nonzero_bits zdu (16 * k)) (record l { i = 0 })
              ∙ ap
                  (λ (p : ℕ).
                    chunk_loop 16 ht zdu p (nonzero_bits zdu (16 * k))
                      (record { i = 0; nrzeroes = l.nrzeroes; writer = write_all l.rle w }))
                  start)

      -- The state behind coefficient 63.
      abbrev pub all_rle : List ℕ → RleLoop
      all_rle rle =
          chunk_rle ht zdu 3 (chunk_rle ht zdu 2 (chunk_rle ht zdu 1 (first_chunk_rle ht zdu rle)))

      pub all_rle-replay :
          (rle : List ℕ)
          → replay (all_rle rle)
            ≡ chunk ht zdu 3
                (chunk ht zdu 2 (chunk ht zdu 1 (first_chunk ht zdu (write_all rle w))))
      all_rle-replay rle =
          let l0 = first_chunk_rle ht zdu rle in
          let l1 = chunk_rle ht zdu 1 l0 in
          chunk_rle-replay 3 (chunk_rle ht zdu 2 l1)
          ∙ ap (chunk ht zdu 3) (
              chunk_rle-replay 2 l1
              ∙ ap (chunk ht zdu 2)
                  (chunk_rle-replay 1 l0 ∙ ap (chunk ht zdu 1) (first_chunk_rle-replay rle)))

      acs_rle-replay :
          (rle : List ℕ)
          → write_all (acs_rle ht zdu rle) w ≡ encode_acs_sse2 ht zdu (write_all rle w)
      unfolding acs_rle encode_acs_sse2
      acs_rle-replay rle =
          let written = ap (λ (l : Loop). l.writer) (all_rle-replay rle) in
          elim (Bool-cases (is_zero (get_or zdu 63 (pos 0)))) [
            | inl z ↦ rw z (
                write_all-write_rle (htac ht 0x00) (all_rle rle).rle
                ∙ ap (writebits (htac ht 0x00)) written)
            | inr z ↦ rw z written
          ]

-- The version of `process_DU` that collects the bit strings of the block before it writes them leaves the
-- writer and the DC coefficient that the version which writes them at once leaves, for any block, code
-- tables and writer.
pub process_du_rle-process_du_sse2 :
    (du : List ℤ) (dc : ℤ) (ht : HuffmanTable) (w : BitWriter)
    → process_du_rle du dc ht w ≡ process_du_sse2 du dc ht w
unfolding process_du_rle rle_of process_du_sse2
process_du_rle-process_du_sse2 du dc ht w =
    let first = get_or du 0 (pos 0) in
    let zdu = set (zigzag_order du) 0 (dc_difference first dc) in
    let start = dc_rle-replay w ht (get_or zdu 0 (pos 0)) [] in
    let nothing : write_all [] w ≡ w = unfold write_all in refl in
    ap (λ v. record { writer = v; dc = first })
      (acs_rle-replay w ht zdu (dc_rle ht (get_or zdu 0 (pos 0)) [])
        ∙ ap (encode_acs_sse2 ht zdu) (start ∙ ap (encode_dc ht (get_or zdu 0 (pos 0))) nothing))
