-- ===== src/Quant/Reciprocal/Exact.antt =====
-- The arithmetic behind `compute_reciprocal` of libusbdisp/libenc/jpeg_enc.c: when a scaled reciprocal gives
-- the exact quotient.
use native.Mathlib.Nat.{pow-suc, one-le-pow, div-add-mod, mod-lt, div-eq_of_lt-le}
use native.Mathlib.Nat.{mul-mod_left, add_assoc, pow-le-pow_right, lt_of_mul-lt-mul_left}
use native.Mathlib.Nat.{lt_of_mul-lt-mul_right, le_of_mul-le-mul_right}
use jpeg_study.Prelude.{ℕ, zero, suc, ◌+◌, ◌-◌, ◌*◌, ◌/◌, ◌%◌, ◌^◌, ◌≤◌, ◌<◌, ◌≡◌, refl, ap, ◌∙◌}
use jpeg_study.Prelude.{arith, u16, u32, dec_lt, leb, ◌==◌, ==_iff, Bool-cases, inl, inr}
use jpeg_study.Prelude.Bitwise.{pow_sum}
use jpeg_study.Quant.Tables.{Rounding, choose_rounding}

module _ (d w f n e : ℕ) (positive : 0 < d) where
  split_by : n * w ≡ d * (n / d) * w + n % d * w
  split_by = omega (arith, ap (λ (t : ℕ). t * w) (div-add-mod n d))

  room_below : n % d * w + w ≤ d * w
  room_below = grind (arith, mod-lt n positive)

  -- A factor that is too large by `e / d`.
  quotient_above : d * f ≡ w + e → n * e < w → n * f / w ≡ n / d
  quotient_above eq small =
      div-eq_of_lt-le w (le_of_mul-le-mul_right {k = d} (omega (arith, scaled, split_by)) positive)
        (lt_of_mul-lt-mul_right d (omega (arith, scaled, split_by, room_below)))
    where
      scaled : n * f * d ≡ n * w + n * e
      scaled = omega (arith, ap (λ (t : ℕ). n * t) eq)

  -- A factor that is too small by `e / d`, with one more in the other.
  quotient_below : d * f + e ≡ w → 0 < e → (n + 1) * e ≤ w → (n + 1) * f / w ≡ n / d
  quotient_below eq pos small =
      div-eq_of_lt-le w (le_of_mul-le-mul_right {k = d} (omega (arith, scaled, split_by)) positive)
        (lt_of_mul-lt-mul_right d (omega (arith, scaled, split_by, room_below)))
    where
      scaled : (n + 1) * f * d + (n + 1) * e ≡ n * w + w
      scaled = omega (arith, ap (λ (t : ℕ). (n + 1) * t) eq)

-- The only odd factor of a power of two is 1.
odd_factor : (k d f : ℕ) → d * f ≡ 2 ^ k → f % 2 ≡ 1 → f ≡ 1
odd_factor zero d f e odd = grind arith
odd_factor (suc k) d f e odd =
    by_parity (d % 2) (omega arith) refl (λ e'. odd_factor k (d / 2) f e' odd)
  where
    split : 2 * (d / 2 * f) + d % 2 * f ≡ 2 * 2 ^ k
    split = omega (arith, pow-suc 2 k, ap (λ (t : ℕ). t * f) (div-add-mod d 2), e)

    by_parity : (p : ℕ) → p < 2 → d % 2 ≡ p → (d / 2 * f ≡ 2 ^ k → f ≡ 1) → f ≡ 1
    by_parity zero h q ih = ih (omega (arith, rw q at split))
    by_parity (suc zero) h q ih = absurd (omega (arith, rw q at split))
    by_parity (suc (suc p)) h q ih = absurd (omega arith)

-- `s` divides by `d` with rounding: the two multiplications give the rounded quotient for every `x`
-- that leaves room for the correction, and the numbers fit the fields that they are stored in.
pub record IsExact (d : ℕ) (s : Rounding) : Type 0 where
  pub quotient : (x : ℕ) → x + d / 2 < 2 ^ 16 → (x + s.c) * s.fq / 2 ^ s.r ≡ (x + d / 2) / d
  pub fq_fits : s.fq < 2 ^ 16
  pub c_fits : s.c ≤ d / 2 + 1
  pub r_low : 17 ≤ s.r
  pub r_high : s.r ≤ 31

product_lt : (a b c d : ℕ) → a < b → 0 < c → c ≤ d → a * c < b * d
product_lt a b c d p q r = grind arith

product : (a b c d : ℕ) → a ≤ b → c ≤ d → a * c ≤ b * d
product a b c d p q = grind arith

module _ (d b : ℕ) (low : 2 ^ b ≤ d) (high : d < 2 * 2 ^ b) (wide : b ≤ 15) (big : 3 ≤ d) where
  abbrev w : ℕ
  w = 2 ^ (16 + b)

  w_split : w ≡ 2 ^ 16 * 2 ^ b
  w_split = pow_sum 16 b

  b-pos : 1 ≤ b
  b-pos = by_b b refl
    where
      by_b : (k : ℕ) → b ≡ k → 1 ≤ b
      by_b zero e = absurd (omega (arith, rw e at high))
      by_b (suc k) e = omega arith

  division : d * (w / d) + w % d ≡ w
  division = div-add-mod w d

  pow_wide : 2 ^ b ≤ 2 ^ 15
  pow_wide = pow-le-pow_right (omega arith) wide

  remainder_lt : w % d < d
  remainder_lt = mod-lt w (omega arith)

  not_power : 0 < w % d → 2 ^ b < d
  not_power pos = elim (dec_lt (2 ^ b) d) [
    | yes p ↦ p
    | no p ↦
        let e : d ≡ 2 ^ b = omega arith in
        absurd (omega (arith, rw (e, w_split, mul-mod_left) at pos))
  ]

  IsExact-below :
      0 < w % d → w % d ≤ d / 2 → IsExact d (record { fq = w / d; c = u16 (d / 2 + 1); r = 16 + b })
  IsExact-below pos e = record {
    quotient = λ x h.
        rw (uncut, ← add_assoc x (d / 2) 1)
          (quotient_below d w (w / d) (x + d / 2) (w % d) (omega arith) division pos (room x h));
    fq_fits = lt_of_mul-lt-mul_left d (omega (arith, division, w_split));
    c_fits = omega arith;
    r_low = omega (arith, b-pos);
    r_high = omega arith;
  }
    where
      uncut : u16 (d / 2 + 1) ≡ d / 2 + 1
      uncut = omega (arith, pow_wide)

      room : (x : ℕ) → x + d / 2 < 2 ^ 16 → (x + d / 2 + 1) * (w % d) ≤ w
      room x h =
          let bound =
            product (x + d / 2 + 1) (2 ^ 16) (w % d) (2 ^ b) (omega arith) (omega arith) in
          omega (arith, bound, w_split)

  IsExact-above : d / 2 < w % d → IsExact d (record { fq = u32 (w / d + 1); c = d / 2; r = 16 + b })
  IsExact-above e = record {
    quotient = λ x h. rw uncut (
        quotient_above d w (w / d + 1) (x + d / 2) (d - w % d) (omega arith)
          (omega (arith, division, remainder_lt)) (room x h));
    fq_fits = rw uncut fits;
    c_fits = omega arith;
    r_low = omega (arith, b-pos);
    r_high = omega arith;
  }
    where
      fits : w / d + 1 < 2 ^ 16
      fits =
          lt_of_mul-lt-mul_left d
            (omega (arith, division, w_split, pow_wide, not_power (omega arith)))

      uncut : u32 (w / d + 1) ≡ w / d + 1
      uncut = omega (arith, fits)

      room : (x : ℕ) → x + d / 2 < 2 ^ 16 → (x + d / 2) * (d - w % d) < w
      room x h =
          let bound =
            product_lt (x + d / 2) (2 ^ 16) (d - w % d) (2 ^ b) h (omega (arith, remainder_lt))
              (omega arith) in
          omega (arith, bound, w_split)

  -- The divisor is a power of two.
  IsExact-power : w % d ≡ 0 → IsExact d (record { fq = w / d / 2; c = d / 2; r = 16 + b - 1 })
  IsExact-power e = record {
    quotient = λ x h.
        quotient_above d (2 ^ (16 + b - 1)) (w / d / 2) (x + d / 2) 0 (omega arith)
          (omega (arith, halved)) (omega (arith, one-le-pow (16 + b - 1) 2));
    fq_fits = lt_of_mul-lt-mul_left d (omega (arith, halved, doubled, w_split, one-le-pow b 2));
    c_fits = omega arith;
    r_low = omega (arith, two_or_more);
    r_high = omega arith;
  }
    where
      even : w / d % 2 ≡ 0
      even = elim (dec_lt 0 (w / d % 2)) [
        | yes p ↦
            let one = odd_factor (16 + b) d (w / d) (omega (arith, division, e)) (omega arith) in
            absurd (omega (arith, rw (one, e) at division, w_split))
        | no p ↦ omega arith
      ]

      doubled : w ≡ 2 ^ (16 + b - 1) * 2
      doubled =
          let s : 16 + b ≡ suc (16 + b - 1) = omega arith in
          ap (λ (k : ℕ). 2 ^ k) s ∙ pow-suc 2 (16 + b - 1)

      halved : d * (w / d / 2) ≡ 2 ^ (16 + b - 1)
      halved =
          let whole : w / d ≡ 2 * (w / d / 2) = omega (arith, even) in
          omega (arith, ap (λ (t : ℕ). d * t) whole, division, e, doubled)

      two_or_more : 2 ≤ b
      two_or_more = elim (dec_lt 1 b) [
        | yes p ↦ p
        | no p ↦
            let one : b ≡ 1 = omega (arith, b-pos) in
            let three : d ≡ 3 = omega (arith, rw one at high) in
            absurd (omega (arith, rw (one, three) at e))
      ]

  pub choose_rounding-IsExact : IsExact d (choose_rounding d b (16 + b))
  unfolding choose_rounding
  choose_rounding-IsExact = elim (Bool-cases (w % d == 0)) [
    | inl p ↦ rw p (IsExact-power (omega (arith, (==_iff (w % d) 0).0 p)))
    | inr p ↦ rw p (elim (Bool-cases (leb (w % d) (d / 2))) [
      | inl q ↦ rw q (IsExact-below (ground arith) (ground arith))
      | inr q ↦ rw q (IsExact-above (ground arith))
    ])
  ]
