-- ===== src/Entropy/Decode/Block.antt =====
-- The decoder reads back a whole block that `process_DU` of libusbdisp/libenc/jpeg_enc.c writes.
use mathlib.Core.Path.{subst}
use mathlib.Core.List.{append_assoc}
use jpeg_study.Prelude.{ℕ, suc, ◌≤◌, ◌<◌, ◌^◌, ◌≡◌, refl, sym, ap, ◌∙◌, arith}
use jpeg_study.Prelude.{Bool, Bool-cases, inl, inr}
use jpeg_study.Prelude.{some, List, ◌++◌, All, All-intro, get_or, drop}
use jpeg_study.Prelude.Int.{ℤ, pos, ◌-ℤ◌, +ℤ-sub_cancel, magnitude, is_zero, is_zero→eq}
use jpeg_study.Quant.Zigzag.{scan_order, scanned, scanned-lt, scanned-pos}
use jpeg_study.Huffman.Decode.{decode_symbol}
use jpeg_study.Entropy.Order.{zigzag_order-get_or, zigzag_order_lem}
use jpeg_study.Huffman.Tables.{CodeTable, IsComplete}
use jpeg_study.Entropy.Magnitude.{size}
use jpeg_study.Entropy.Code.{
  code_bits, coefficient_bits, dc_bits, ac_bits, in_scan_order, block_bits,
}
use jpeg_study.Entropy.Written.{size_bounds}
use jpeg_study.Stream.{ByteStream}
use jpeg_study.Bits.Writer.{BitWriter}
use jpeg_study.Bits.Queue.{Carries}
use jpeg_study.Entropy.Block.{process_du}
use jpeg_study.Entropy.Process.{IsCodable, process_du-Carries}
use jpeg_study.Entropy.Decode.{
  read_bits, to_coefficient, prepend, decode_acs, behind_dc, dc_of_symbol, decode_block,
}
use jpeg_study.Entropy.Decode.RoundTrip.{to_coefficient-bits, decode-ac_bits}

in_scan_order-get_or :
    (du : List ℤ)
    → ((k : ℕ) → 1 ≤ k → k < 64 → magnitude (get_or du k (pos 0)) < 2 ^ 10)
    → (i : ℕ) → suc i < 64
    → magnitude (get_or (in_scan_order du) (suc i) (pos 0)) < 2 ^ 10
in_scan_order-get_or du h i p =
    subst (λ z. magnitude z < 2 ^ 10)
      (sym (zigzag_order-get_or du (suc i) p)
        ∙ ap (λ zs. get_or zs (suc i) (pos 0)) (zigzag_order_lem du))
      (h (scanned (suc i)) (scanned-pos (suc i) (omega arith) p) (scanned-lt (suc i) p))

module _ (t : CodeTable) (complete : IsComplete t) where
  decode-dc_bits :
      (diff : ℤ) (more : List Bool)
      → magnitude diff < 2 ^ 11
      → dc_of_symbol (decode_symbol t.dc_counts t.dc_values 0 0 (dc_bits t.ht diff ++ more))
        ≡ some (diff, more)
  unfolding dc_bits dc_of_symbol
  decode-dc_bits diff more small = elim (Bool-cases (is_zero diff)) [
    | inl z ↦
        rw (z, (complete.dc_symbol 0 (omega arith)).read_back more, is_zero→eq diff z)
          (unfold to_coefficient read_bits in refl)
    | inr nonzero ↦
        let cat_lt : size diff < 12 = omega (arith, size_bounds diff 11 nonzero small) in
        rw
          (
            nonzero,
            append_assoc (code_bits (get_or t.ht.dc (size diff) 0)) (coefficient_bits diff) more,
            (complete.dc_symbol (size diff) cat_lt).read_back (coefficient_bits diff ++ more),
          )
          (to_coefficient-bits diff more nonzero (omega arith))
  ]

  rest_small :
      (du : List ℤ)
      → ((k : ℕ) → 1 ≤ k → k < 64 → magnitude (get_or du k (pos 0)) < 2 ^ 10)
      → All (λ z. magnitude z < 2 ^ 10) (drop 1 (in_scan_order du))
  rest_small du h =
      unfold in_scan_order scan_order in
      All-intro (λ z. magnitude z < 2 ^ 10) (drop 1 (in_scan_order du)) (pos 0)
        (λ i p. in_scan_order-get_or du h i (omega arith))

  read_acs :
      (du : List ℤ) (more : List Bool)
      → ((k : ℕ) → 1 ≤ k → k < 64 → magnitude (get_or du k (pos 0)) < 2 ^ 10)
      → decode_acs t.ac_counts t.ac_values 63 63
          (ac_bits t.ht 0 (drop 1 (in_scan_order du)) ++ more)
        ≡ some (drop 1 (in_scan_order du), more)
  read_acs du more small =
      unfold in_scan_order scan_order in
      decode-ac_bits t complete (drop 1 (in_scan_order du)) 0 63 more (omega arith)
        (rest_small du small)

  -- A decoder that knows the DHT segments reads the code of a block of codable coefficients back, in the
  -- order of the scan, and leaves what follows it.
  pub decode_block-block_bits :
      (du : List ℤ) (previous : ℤ) (more : List Bool)
      → IsCodable previous du
      → decode_block t previous (block_bits t.ht previous du ++ more)
        ≡ some (in_scan_order du, more)
  unfolding decode_block block_bits behind_dc
  decode_block-block_bits du previous more codable =
      let first = get_or du 0 (pos 0) in
      let diff = first -ℤ previous in
      let acs = drop 1 (in_scan_order du) in
      rw
        (
          append_assoc (dc_bits t.ht diff) (ac_bits t.ht 0 acs) more,
          decode-dc_bits diff (ac_bits t.ht 0 acs ++ more) codable.dc_small,
          read_acs du more codable.ac_small,
          +ℤ-sub_cancel first previous,
        )
        (unfold prepend in_scan_order scan_order in refl)

  -- If the code tables are complete, the coefficients of the block codable and the writer carries some
  -- bits, then `process_du` appends a code to them that a decoder, knowing the DHT segments alone, reads
  -- back as the coefficients in the order of the scan, whatever follows it.
  pub process_du-Decodes :
      (base : ByteStream) (bits : List Bool) (w : BitWriter) (du : List ℤ) (previous : ℤ)
      → IsCodable previous du
      → Carries base bits w
      → (coded : List Bool) × Carries base (bits ++ coded) ((process_du du previous t.ht w).writer)
        × ((more : List Bool)
            → decode_block t previous (coded ++ more) ≡ some (in_scan_order du, more))
  process_du-Decodes base bits w du previous codable c = (
    block_bits t.ht previous du,
    process_du-Carries base t du previous bits w complete codable c,
    λ more. decode_block-block_bits du previous more codable,
  )
