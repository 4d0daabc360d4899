-- ===== src/Entropy/Written.antt =====
-- `process_DU` of libusbdisp/libenc/jpeg_enc.c writes the bits that the standard describes: the parts.
use mathlib.Core.Path.{subst}
use mathlib.Core.List.{append_assoc, append-nil}
use native.Mathlib.Nat.{div-add-mod'}
use jpeg_study.Prelude.{ℕ, zero, suc, ◌+◌, ◌*◌, ◌/◌, ◌%◌, ◌^◌, ◌≤◌, ◌<◌, ◌≡◌, refl, ◌∙◌}
use jpeg_study.Prelude.{arith, Bool, false, leb, lt→ltb, Bool-cases, inl, inr}
use jpeg_study.Prelude.{List, ◌++◌, get_or}
use jpeg_study.Prelude.Int.{ℤ, pos, negsuc, magnitude, is_zero}
use jpeg_study.Prelude.Bitwise.{bit_length_le, bit_length_pos}
use jpeg_study.Stream.{ByteStream}
use jpeg_study.Huffman.Codes.{HuffmanTable}
use jpeg_study.Huffman.Tables.{CodeTable, IsComplete}
use jpeg_study.Bits.Writer.{BitWriter, writebits}
use jpeg_study.Bits.Queue.{Carries, writebits-Carries}
use jpeg_study.Entropy.Magnitude.{
  size, category, value_data, category-size, value_data-bitstring, bits_of_data,
}
use jpeg_study.Entropy.Block.{htdc, htac, encode_dc, write_m16zeroes, encode_ac}
use jpeg_study.Entropy.Code.{code_bits, coefficient_bits, dc_bits, zeros_bits, run_bits}

pub magnitude-pos : (z : ℤ) → is_zero z ≡ false → 0 < magnitude z
magnitude-pos (pos zero) h = cc
magnitude-pos (pos (suc n)) h = omega arith
magnitude-pos (negsuc n) h = omega arith

pub size_bounds :
    (z : ℤ) (k : ℕ) → is_zero z ≡ false → magnitude z < 2 ^ k → (1 ≤ size z) × (size z ≤ k)
size_bounds z k h small = (
  bit_length_pos 32 (magnitude z) (magnitude-pos z h) (omega arith),
  bit_length_le 32 (magnitude z) k small,
)

module _ (base : ByteStream) (bits : List Bool) (w : BitWriter) (c : Carries base bits w) where
  pub entry-Carries : (e : ℕ) → e % 2 ^ 16 ≤ 16 → Carries base (bits ++ code_bits e) (writebits e w)
  entry-Carries e h =
      subst (λ n. Carries base (bits ++ code_bits e) (writebits n w)) (div-add-mod' e (2 ^ 16))
        (writebits-Carries base bits (e / 2 ^ 16) (e % 2 ^ 16) w h c)

  pub coefficient-Carries :
      (z : ℤ)
      → magnitude z < 2 ^ 16
      → Carries base (bits ++ coefficient_bits z) (writebits (value_data z) w)
  coefficient-Carries z h =
      rw (value_data-bitstring z h, ← bits_of_data z h)
        (writebits-Carries base bits _ (size z) w (bit_length_le 32 (magnitude z) 16 h) c)

htdc-get_or : (ht : HuffmanTable) (i : ℕ) → i < 12 → htdc ht i ≡ get_or ht.dc i 0
unfolding htdc
htdc-get_or ht i h = rw (lt→ltb i 12 h)

-- Below 16 zeros the test changes nothing.
encode_ac_lem :
    (ht : HuffmanTable) (run : ℕ) (z : ℤ) (w : BitWriter)
    → encode_ac ht run z w
      ≡ writebits
          (value_data z)
          (writebits (htac ht (run % 16 * 16 + category z)) (write_m16zeroes ht (run / 16) w))
unfolding encode_ac
encode_ac_lem ht run z w = elim (Bool-cases (leb 16 run)) [
  | inl e ↦ rw e
  | inr e ↦
      let none : run / 16 ≡ 0 = ground arith in
      let same : run % 16 ≡ run = ground arith in
      rw (e, none, same) (unfold write_m16zeroes in refl)
]

module _ (base : ByteStream) (t : CodeTable) (complete : IsComplete t) where
  zeros-Carries :
      (n : ℕ) (bits : List Bool) (w : BitWriter)
      → Carries base bits w
      → Carries base (bits ++ zeros_bits t.ht n) (write_m16zeroes t.ht n w)
  unfolding zeros_bits write_m16zeroes htac
  zeros-Carries zero bits w c = rw append-nil c
  zeros-Carries (suc n) bits w c =
      let e = get_or t.ht.ac 0xf0 0 in
      subst (λ b. Carries base b (write_m16zeroes t.ht n (writebits e w)))
        (append_assoc bits (code_bits e) (zeros_bits t.ht n))
        (zeros-Carries n (bits ++ code_bits e) (writebits e w)
          (entry-Carries base bits w c e complete.sixteen_zeros.len_le))

  pub encode_dc-Carries :
      (diff : ℤ) (bits : List Bool) (w : BitWriter)
      → magnitude diff < 2 ^ 11
      → Carries base bits w
      → Carries base (bits ++ dc_bits t.ht diff) (encode_dc t.ht diff w)
  unfolding encode_dc dc_bits
  encode_dc-Carries diff bits w small c = elim (Bool-cases (is_zero diff)) [
    | inl z ↦
        rw (z, htdc-get_or t.ht 0 (omega arith))
          (entry-Carries base bits w c _ (complete.dc_symbol 0 (omega arith)).len_le)
    | inr z ↦
        let cat = size diff in
        let cat_lt : cat < 12 = omega (arith, size_bounds diff 11 z small) in
        let e = get_or t.ht.dc cat 0 in
        let c' = entry-Carries base bits w c e (complete.dc_symbol cat cat_lt).len_le in
        rw (z, category-size diff (omega arith), htdc-get_or t.ht cat cat_lt)
          (subst (λ b. Carries base b (writebits (value_data diff) (writebits e w)))
            (append_assoc bits (code_bits e) (coefficient_bits diff))
            (coefficient-Carries base (bits ++ code_bits e) (writebits e w) c' diff (omega arith)))
  ]

  pub encode_ac-Carries :
      (run : ℕ) (z : ℤ) (bits : List Bool) (w : BitWriter)
      → is_zero z ≡ false
      → magnitude z < 2 ^ 10
      → Carries base bits w
      → Carries base (bits ++ run_bits t.ht run z) (encode_ac t.ht run z w)
  unfolding run_bits htac
  encode_ac-Carries run z bits w nonzero small c =
      let skipped = zeros-Carries (run / 16) bits w c in
      let cat = size z in
      let bounds = size_bounds z 10 nonzero small in
      let e = get_or t.ht.ac (run % 16 * 16 + cat) 0 in
      let w' = write_m16zeroes t.ht (run / 16) w in
      let front = bits ++ zeros_bits t.ht (run / 16) in
      let symbol = complete.run_symbol (run % 16) cat (omega arith) bounds.0 bounds.1 in
      let c' = entry-Carries base front w' skipped e symbol.len_le in
      rw (encode_ac_lem t.ht run z w, category-size z (omega arith))
        (subst (λ b. Carries base b (writebits (value_data z) (writebits e w')))
          (append_assoc front (code_bits e) (coefficient_bits z)
            ∙ append_assoc bits (zeros_bits t.ht (run / 16)) _)
          (coefficient-Carries base (front ++ code_bits e) (writebits e w') c' z (omega arith)))
