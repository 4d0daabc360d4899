-- ===== src/Sse2/Mask.antt =====
-- The mask of libusbdisp/libenc/Optimize_SSE2.h: two bits for each coefficient, set where it is not 0, and
-- what `ctz` and the shift by `(n+1)*2` read off it.
use native.Mathlib.Nat.{pow-suc, mul-div-mul_left}
use jpeg_study.Prelude.{
  ℕ, zero, suc, ◌+◌, ◌-◌, ◌*◌, ◌/◌, ◌%◌, ◌^◌, ◌≤◌, ◌<◌, ◌≡◌, refl, sym, ap, ◌∙◌, arith,
}
use jpeg_study.Prelude.{true, false, ltb, Bool-cases, inl, inr, if◌then◌else◌, bit_and, bit_or, u32}
use jpeg_study.Prelude.{
  List, [], ◌∷◌, ◌++◌, get_or, drop, take, length, length-take, length-drop, take-add, drop-drop,
}
use jpeg_study.Prelude.Bitwise.{bit_or_disjoint, bit_and_low, pow_sum}
use jpeg_study.Prelude.Int.{ℤ, pos, is_zero}
use jpeg_study.Huffman.Codes.{HuffmanTable}
use jpeg_study.Entropy.Block.{encode_ac}
use jpeg_study.Sse2.Intrinsics.{load_si128, cmpeq_zero_epi16, movemask_epi8, ctz}
use jpeg_study.Sse2.Block.{nonzero_bits}
use jpeg_study.Sse2.Fold.{Run, at, steps, step-zero, step-nonzero}

unfoldable pub mask : List ℤ → ℕ
mask [] = 0
mask (z ∷ zs) = (if is_zero z then 0 else 3) + 4 * mask zs

regroup : (c m p k : ℕ) → c + 4 * (m + p * k) ≡ c + 4 * m + p * 4 * k
regroup c m p k = grind arith

mask-append : (xs ys : List ℤ) → mask (xs ++ ys) ≡ mask xs + 4 ^ length xs * mask ys
unfolding mask
mask-append [] ys = omega arith
mask-append (x ∷ xs) ys =
    rw (mask-append xs ys, pow-suc 4 (length xs))
      (regroup (if is_zero x then 0 else 3) (mask xs) (4 ^ length xs) (mask ys))

-- The mask of the comparison with 0 is the complement.
movemask-mask : (zs : List ℤ) → movemask_epi8 (cmpeq_zero_epi16 zs) + mask zs + 1 ≡ 4 ^ length zs
unfolding mask movemask_epi8 cmpeq_zero_epi16
movemask-mask [] = omega arith
movemask-mask (z ∷ zs) = elim (Bool-cases (is_zero z)) [
  | inl h ↦ rw h (omega (arith, movemask-mask zs, pow-suc 4 (length zs)))
  | inr h ↦ rw h (omega (arith, movemask-mask zs, pow-suc 4 (length zs)))
]

module _ (zs : List ℤ) (sized : length zs ≡ 8) where
  eight : 4 ^ length zs ≡ 2 ^ 16
  eight = rw sized refl

  movemask_eight : movemask_epi8 (cmpeq_zero_epi16 zs) ≡ 2 ^ 16 - 1 - mask zs
  movemask_eight = omega (arith, movemask-mask zs, eight)

  mask_eight : mask zs < 2 ^ 16
  mask_eight = omega (arith, movemask-mask zs, eight)

-- The two masks of eight, put together and complemented.
join_masks :
    (a b : ℕ)
    → a < 2 ^ 16
    → b < 2 ^ 16
    → 2 ^ 32 - 1 - bit_or (u32 ((2 ^ 16 - 1 - b) * 2 ^ 16)) (bit_and (2 ^ 16 - 1 - a) 0xffff)
      ≡ a + 2 ^ 16 * b
join_masks a b ha hb =
    let low : bit_and (2 ^ 16 - 1 - a) 0xffff ≡ 2 ^ 16 - 1 - a =
      bit_and_low 16 (2 ^ 16 - 1 - a) ∙ omega arith in
    let high : u32 ((2 ^ 16 - 1 - b) * 2 ^ 16) ≡ (2 ^ 16 - 1 - b) * 2 ^ 16 = omega arith in
    rw (low, high, bit_or_disjoint 16 (2 ^ 16 - 1 - b) (2 ^ 16 - 1 - a) (omega arith)) (omega arith)

pub nonzero_bits-mask :
    (zdu : List ℤ) (i : ℕ) → i + 16 ≤ length zdu → nonzero_bits zdu i ≡ mask (take 16 (drop i zdu))
unfolding nonzero_bits load_si128
nonzero_bits-mask zdu i room =
    let a = take 8 (drop i zdu) in
    let b = take 8 (drop (i + 8) zdu) in
    let sized_a : length a ≡ 8 = length-take 8 (drop i zdu) (omega (arith, length-drop i zdu)) in
    let sized_b : length b ≡ 8 =
      length-take 8 (drop (i + 8) zdu) (omega (arith, length-drop (i + 8) zdu)) in
    let split : take 16 (drop i zdu) ≡ a ++ b =
      take-add 8 8 (drop i zdu) ∙ ap (λ ys. a ++ take 8 ys) (drop-drop i 8 zdu) in
    rw (movemask_eight a sized_a, movemask_eight b sized_b)
      (join_masks (mask a) (mask b) (mask_eight a sized_a) (mask_eight b sized_b))
    ∙ ap (λ (k : ℕ). mask a + k * mask b) (sym (eight a sized_a))
    ∙ sym (mask-append a b)
    ∙ ap mask (sym split)

-- Coefficient `n` is the first of `zs` that is not 0, and what the code goes on with.
pub record IsFirst (zs : List ℤ) (n : ℕ) : Type 0 where
  pub inside : n < length zs
  pub rest : mask zs / 2 ^ ((n + 1) * 2) ≡ mask (drop (suc n) zs)
  pub folded :
      (ht : HuffmanTable) (r : Run)
      → steps ht r zs
        ≡ steps ht
            (at 0 (encode_ac ht (r.zeros + n) (get_or zs n (pos 0)) r.writer))
            (drop (suc n) zs)

shift_rest : (m n : ℕ) → 4 * m / 2 ^ ((suc n + 1) * 2) ≡ m / 2 ^ ((n + 1) * 2)
shift_rest m n =
    let split : (suc n + 1) * 2 ≡ 2 + (n + 1) * 2 = omega arith in
    rw (split, pow_sum 2 ((n + 1) * 2)) (mul-div-mul_left m (2 ^ ((n + 1) * 2)) (omega arith))

odd_test : (m : ℕ) → ltb 0 ((3 + 4 * m) % 2) ≡ true
odd_test m = ground arith

even_test : (m : ℕ) → ltb 0 ((0 + 4 * m) % 2) ≡ false
even_test m = ground arith

ctz_step : (fuel m : ℕ) → ctz (suc (suc fuel)) (0 + 4 * m) / 2 ≡ suc (ctz fuel m / 2)
unfolding ctz
ctz_step fuel m =
    let half : (0 + 4 * m) / 2 ≡ 2 * m = omega arith in
    let even : ltb 0 (2 * m % 2) ≡ false = ground arith in
    let again : 2 * m / 2 ≡ m = omega arith in rw (even_test m, half, even, again) (omega arith)

ctz_odd : (fuel m : ℕ) → ctz (suc fuel) (3 + 4 * m) / 2 ≡ 0
unfolding ctz
ctz_odd fuel m = rw (odd_test m) (omega arith)

mask-cons_zero : (z : ℤ) (zs : List ℤ) → is_zero z ≡ true → mask (z ∷ zs) ≡ 4 * mask zs
unfolding mask
mask-cons_zero z zs h = rw h (omega arith)

mask-cons_nonzero : (z : ℤ) (zs : List ℤ) → is_zero z ≡ false → mask (z ∷ zs) ≡ 3 + 4 * mask zs
unfolding mask
mask-cons_nonzero z zs h = rw h refl

mask_behind : (z : ℤ) (zs : List ℤ) → is_zero z ≡ true → 0 < mask (z ∷ zs) → 0 < mask zs
unfolding mask
mask_behind z zs h some_bit = ground arith

mask_zero : (z : ℤ) (zs : List ℤ) → mask (z ∷ zs) ≡ 0 → (is_zero z ≡ true) × (mask zs ≡ 0)
unfolding mask
mask_zero z zs h = (ground arith, ground arith)

pub ctz-IsFirst :
    (fuel : ℕ) (zs : List ℤ)
    → 2 * length zs ≤ fuel
    → 0 < mask zs
    → IsFirst zs (ctz fuel (mask zs) / 2)
unfolding mask
ctz-IsFirst fuel [] enough some_bit = absurd (omega arith)
ctz-IsFirst zero (z ∷ zs) enough some_bit = absurd (omega arith)
ctz-IsFirst (suc zero) (z ∷ zs) enough some_bit = absurd (omega arith)
ctz-IsFirst (suc (suc fuel)) (z ∷ zs) enough some_bit = elim (Bool-cases (is_zero z)) [
  | inl h ↦
      let f = ctz-IsFirst fuel zs (omega arith) (mask_behind z zs h some_bit) in
      let n = ctz fuel (mask zs) / 2 in
      rw (h, ctz_step fuel (mask zs))
        (record {
          inside = omega (arith, f.inside);
          rest =
              ap (λ (m : ℕ). m / 2 ^ ((suc n + 1) * 2)) (mask-cons_zero z zs h)
              ∙ shift_rest (mask zs) n
              ∙ f.rest;
          folded = λ ht r.
              ap (λ s. steps ht s zs) (step-zero ht r z h)
              ∙ f.folded ht (at (suc r.zeros) r.writer)
              ∙ ap
                  (λ (k : ℕ).
                    steps ht (at 0 (encode_ac ht k (get_or zs n (pos 0)) r.writer))
                      (drop (suc n) zs))
                  (omega arith);
        })
  | inr h ↦
      let here : ctz (suc (suc fuel)) (3 + 4 * mask zs) / 2 ≡ 0 = ctz_odd (suc fuel) (mask zs) in
      rw (h, here)
        (record {
          inside = omega arith;
          rest = omega (arith, mask-cons_nonzero z zs h);
          folded = λ ht r.
              ap (λ s. steps ht s zs) (step-nonzero ht r z h)
              ∙ ap (λ (k : ℕ). steps ht (at 0 (encode_ac ht k z r.writer)) zs) (omega arith);
        })
]

-- No bit is set: only zeros.
pub mask_none :
    (zs : List ℤ)
    → mask zs ≡ 0
    → (ht : HuffmanTable) (r : Run) → steps ht r zs ≡ at (r.zeros + length zs) r.writer
unfolding mask
mask_none [] h ht r = ap (λ (k : ℕ). at k r.writer) (omega arith)
mask_none (z ∷ zs) h ht r =
    let zero_here = mask_zero z zs h in
    ap (λ s. steps ht s zs) (step-zero ht r z zero_here.0)
    ∙ mask_none zs zero_here.1 ht (at (suc r.zeros) r.writer)
    ∙ ap (λ (k : ℕ). at k r.writer) (omega arith)

-- `result >>= 2`.
pub mask-rest : (z : ℤ) (zs : List ℤ) → mask (z ∷ zs) / 2 ^ 2 ≡ mask zs
unfolding mask
mask-rest z zs = ground arith
