-- ===== src/Quant/Reciprocal.antt =====
-- `compute_reciprocal` of libusbdisp/libenc/jpeg_enc.c: a division is replaced by two multiplications.
mod Exact
use native.Mathlib.Nat.{
  pow-suc, one-le-pow, div-add-mod, mod-lt, div-eq_of_lt-le, div-div-eq-div-mul,
}
use native.Mathlib.Nat.{mul-mod_left, add_assoc, pow-le-pow_right, lt_of_mul-lt-mul_left}
use native.Mathlib.Nat.{lt_of_mul-lt-mul_right, le_of_mul-le-mul_right, mul-div-mul_right}
use jpeg_study.Prelude.{ℕ, zero, suc, ◌+◌, ◌-◌, ◌*◌, ◌/◌, ◌%◌, ◌^◌, ◌≤◌, ◌<◌, ◌≡◌, refl, ap, ◌∙◌}
use jpeg_study.Prelude.{arith, u16, u32, dec_lt, sym, leb, ◌==◌, ==_iff, Bool-cases, inl, inr}
use jpeg_study.Prelude.Bitwise.{
  bit_length, bit_length_bounds, bit_length_le, bit_length_pos, pow_sum,
}
use jpeg_study.Quant.Tables.{Reciprocal, Rounding, choose_rounding, compute_reciprocal, flss}
use jpeg_study.Quant.Reciprocal.Exact.{IsExact, choose_rounding-IsExact}

-- What the quantizer makes of the stored numbers: it adds the correction and takes the high half of
-- the product with the reciprocal, then with the scale, each of 16 bits.
abbrev pub multiply_twice : Reciprocal → ℕ → ℕ
multiply_twice p x = (x + p.correction) * p.reciprocal / 2 ^ 16 * p.scale / 2 ^ 16

multiply_twice-eq :
    (d : ℕ) (s : Rounding)
    → IsExact d s
    → (x : ℕ) → x + d / 2 < 2 ^ 16
    → (x + s.c) * u16 s.fq / 2 ^ 16 * u16 (2 ^ (32 - s.r)) / 2 ^ 16 ≡ (x + d / 2) / d
multiply_twice-eq d s exact x h = rw (reciprocal_fits, scale_fits) (shifts ∙ exact.quotient x h)
  where
    reciprocal_fits : u16 s.fq ≡ s.fq
    reciprocal_fits = omega (arith, exact.fq_fits)

    scale_fits : u16 (2 ^ (32 - s.r)) ≡ 2 ^ (32 - s.r)
    scale_fits =
        let k : 32 - s.r ≤ 15 = omega arith in
        let bound : 2 ^ (32 - s.r) ≤ 2 ^ 15 = pow-le-pow_right (omega arith) k in omega arith

    split_half : 2 ^ 16 ≡ 2 ^ (s.r - 16) * 2 ^ (32 - s.r)
    split_half =
        let k : 16 ≡ s.r - 16 + (32 - s.r) = omega arith in
        ap (λ (t : ℕ). 2 ^ t) k ∙ pow_sum (s.r - 16) (32 - s.r)

    split_whole : 2 ^ 16 * 2 ^ (s.r - 16) ≡ 2 ^ s.r
    split_whole =
        let k : 16 + (s.r - 16) ≡ s.r = omega arith in
        sym (pow_sum 16 (s.r - 16)) ∙ ap (λ (t : ℕ). 2 ^ t) k

    shifts : (x + s.c) * s.fq / 2 ^ 16 * 2 ^ (32 - s.r) / 2 ^ 16 ≡ (x + s.c) * s.fq / 2 ^ s.r
    shifts =
        let high = (x + s.c) * s.fq / 2 ^ 16 in
        ap (λ (t : ℕ). high * 2 ^ (32 - s.r) / t) split_half
        ∙ mul-div-mul_right high (2 ^ (s.r - 16)) (one-le-pow (32 - s.r) 2 (omega arith))
        ∙ div-div-eq-div-mul ((x + s.c) * s.fq) (2 ^ 16) (2 ^ (s.r - 16))
        ∙ ap (λ (t : ℕ). (x + s.c) * s.fq / t) split_whole

rounding : ℕ → Rounding
rounding d = choose_rounding d (flss d - 1) (16 + (flss d - 1))

rounding-IsExact : (d : ℕ) → 3 ≤ d → d < 2 ^ 16 → IsExact d (rounding d)
unfolding rounding flss
rounding-IsExact d big small =
    choose_rounding-IsExact d (flss d - 1) low high (omega (arith, length_le)) big
  where
    length_le : bit_length 16 d ≤ 16
    length_le = bit_length_le 16 d 16 small

    bounds : (d < 2 ^ bit_length 16 d) × (2 ^ bit_length 16 d ≤ 2 * d)
    bounds = bit_length_bounds 16 d (omega arith) small

    positive : 0 < bit_length 16 d
    positive = bit_length_pos 16 d (omega arith) (omega arith)

    twice : 2 ^ bit_length 16 d ≡ 2 ^ (bit_length 16 d - 1) * 2
    twice =
        let s : bit_length 16 d ≡ suc (bit_length 16 d - 1) = omega (arith, positive) in
        ap (λ (k : ℕ). 2 ^ k) s ∙ pow-suc 2 (bit_length 16 d - 1)

    low : 2 ^ (bit_length 16 d - 1) ≤ d
    low = omega (arith, twice, bounds)

    high : d < 2 * 2 ^ (bit_length 16 d - 1)
    high = omega (arith, twice, bounds)

-- For every divisor from 3 to 65535 the stored numbers stand for it: two multiplications and shifts
-- give the quotient rounded to the nearest (halves up), for every `x` that leaves room for the
-- correction in 16 bits.
pub compute_reciprocal-rounds :
    (d x : ℕ)
    → 3 ≤ d
    → d < 2 ^ 16
    → x + d / 2 < 2 ^ 16
    → multiply_twice (compute_reciprocal d) x ≡ (x + d / 2) / d
unfolding compute_reciprocal rounding
compute_reciprocal-rounds d x big small h =
    multiply_twice-eq d (rounding d) (rounding-IsExact d big small) x h

-- For the divisors 1 and 2 and every `x`, the scale does not fit its 16 bits and is stored as 0, so that the two
-- multiplications give 0.
pub compute_reciprocal-vanishes :
    (d x : ℕ) → 1 ≤ d → d ≤ 2 → multiply_twice (compute_reciprocal d) x ≡ 0
unfolding compute_reciprocal
compute_reciprocal-vanishes zero x low high = elim low [ ]
compute_reciprocal-vanishes (suc zero) x low high = omega arith
compute_reciprocal-vanishes (suc (suc zero)) x low high = omega arith
compute_reciprocal-vanishes (suc (suc (suc d))) x low high = absurd (omega arith)
