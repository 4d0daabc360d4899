-- ===== src/Entropy/Process.antt =====
-- `process_DU` of libusbdisp/libenc/jpeg_enc.c as a whole.
use mathlib.Core.Path.{subst}
use mathlib.Core.List.{append_assoc}
use jpeg_study.Prelude.{ℕ, ◌≤◌, ◌<◌, ◌^◌, sym}
use jpeg_study.Prelude.{Bool, List, ◌++◌, get_or, drop}
use jpeg_study.Prelude.Int.{ℤ, pos, magnitude, ◌-ℤ◌}
use jpeg_study.Stream.{ByteStream}
use jpeg_study.Huffman.Tables.{CodeTable, IsComplete}
use jpeg_study.Bits.Writer.{BitWriter}
use jpeg_study.Bits.Queue.{Carries}
use jpeg_study.Quant.Zigzag.{scanned, scanned-lt, scanned-pos}
use jpeg_study.Entropy.Block.{process_du, encode_dc, zigzag_order}
use jpeg_study.Entropy.Code.{block_bits, dc_bits, ac_bits}
use jpeg_study.Entropy.Written.{encode_dc-Carries}
use jpeg_study.Entropy.Order.{zigzag_order_lem, length-zigzag_order, zigzag_order-get_or}
use jpeg_study.Entropy.Loops.{IsSmall, encode_acs-Carries}

-- The values that the code tables of the baseline process can express.
pub record IsCodable (previous : ℤ) (du : List ℤ) : Type 0 where
  pub dc_small : magnitude (get_or du 0 (pos 0) -ℤ previous) < 2 ^ 11
  pub ac_small : (k : ℕ) → 1 ≤ k → k < 64 → magnitude (get_or du k (pos 0)) < 2 ^ 10

-- With complete code tables, a block of codable coefficients is written as the standard describes it:
-- behind whatever bits the writer carries come those of the block.
pub process_du-Carries :
    (base : ByteStream) (t : CodeTable) (du : List ℤ) (previous : ℤ) (bits : List Bool)
    (w : BitWriter)
    → IsComplete t
    → IsCodable previous du
    → Carries base bits w
    → Carries base (bits ++ block_bits t.ht previous du) ((process_du du previous t.ht w).writer)
unfolding process_du block_bits
process_du-Carries base t du previous bits w complete codable c =
    let diff = get_or du 0 (pos 0) -ℤ previous in
    let w' = encode_dc t.ht diff w in
    let small : IsSmall (zigzag_order du) = λ k l h.
      subst (λ z. magnitude z < 2 ^ 10) (sym (zigzag_order-get_or du k h))
        (codable.ac_small (scanned k) (scanned-pos k l h) (scanned-lt k h)) in
    let c' = encode_dc-Carries base t complete diff bits w codable.dc_small c in
    let r =
      encode_acs-Carries base t complete (zigzag_order du) (length-zigzag_order du) small
        (bits ++ dc_bits t.ht diff) w' c' in
    rw
      (
        ← zigzag_order_lem du,
        ← append_assoc bits (dc_bits t.ht diff) (ac_bits t.ht 0 (drop 1 (zigzag_order du))),
      )
      r
