-- ===== src/Entropy/Magnitude.antt =====
-- The bits of a coefficient in `process_DU` of libusbdisp/libenc/jpeg_enc.c: `mask`, `value`, `cat` and
-- `data`, computed on 32-bit patterns, against the magnitude code of section F.1.2.1.
use native.Mathlib.Nat.{pow-suc}
use jpeg_study.Prelude.{ℕ, suc, ◌+◌, ◌-◌, ◌*◌, ◌%◌, ◌^◌, ◌≤◌, ◌<◌, ◌≡◌, ap, ◌∙◌}
use jpeg_study.Prelude.{arith, u8, u32, bit_or, bit_xor}
use jpeg_study.Prelude.{ltb, if◌then◌else◌}
use jpeg_study.Prelude.Int.{ℤ, pos, negsuc, magnitude, to_u32}
use jpeg_study.Prelude.Bitwise.{
  bit_length, bit_length_le, bit_length_pos, bit_length_bounds, bit_xor_ones, bit_xor-zero,
  bit_or_disjoint, pow_sum, pow_pos,
}
use jpeg_study.Bits.Digits.{bits_of, bits_of_high}
use jpeg_study.Bits.Fields.{bitstring}

-- `x >> 31` for an `int`: -1 or 0.
unfoldable pub sign_mask : ℤ → ℕ
sign_mask (pos n) = 0
sign_mask (negsuc n) = 2 ^ 32 - 1

-- `x + mask`.
unfoldable pub masked_value : ℤ → ℕ
unfolding sign_mask
masked_value z = u32 (to_u32 z + sign_mask z)

-- `(BYTE)(32 - clz(value^mask))`; the argument of `clz` is not 0 where the code calls it.
unfoldable pub category : ℤ → ℕ
unfolding sign_mask
category z = u8 (bit_length 32 (bit_xor (masked_value z) (sign_mask z)))

-- `(value << 16) | cat`.
unfoldable pub value_data : ℤ → ℕ
value_data z = bit_or (u32 (masked_value z * 2 ^ 16)) (category z)

-- The number of bits of the absolute value.
abbrev pub size : ℤ → ℕ
size z = bit_length 32 (magnitude z)

-- The magnitude code: a positive number as it is, a negative one as its one's complement.
unfoldable pub magnitude_code : ℤ → ℕ
magnitude_code (pos n) = n
magnitude_code (negsuc n) = 2 ^ size (negsuc n) - 1 - suc n

masked_value-pos : (n : ℕ) → n < 2 ^ 16 → masked_value (pos n) ≡ n
unfolding masked_value
masked_value-pos n h = omega arith

masked_value-negsuc : (n : ℕ) → suc n < 2 ^ 16 → masked_value (negsuc n) ≡ 2 ^ 32 - 1 - suc n
unfolding masked_value
masked_value-negsuc n h = omega arith

u8_length : (n : ℕ) → n < 2 ^ 16 → u8 (bit_length 32 n) ≡ bit_length 32 n
u8_length n h = omega (arith, bit_length_le 32 n 16 h)

twice : (n : ℕ) → suc n < 2 ^ 16 → 2 ^ 32 - 1 - (2 ^ 32 - 1 - suc n) ≡ suc n
twice n h = omega arith

pub category-size : (z : ℤ) → magnitude z < 2 ^ 16 → category z ≡ size z
unfolding category
category-size (pos n) h = rw (masked_value-pos n h, bit_xor-zero n) (u8_length n h)
category-size (negsuc n) h =
    rw (masked_value-negsuc n h, bit_xor_ones 32 (2 ^ 32 - 1 - suc n) (omega arith), twice n h)
      (u8_length (suc n) h)

-- The value of the code that stands above the length in `data`.
abbrev pub data_code : ℤ → ℕ
data_code z = masked_value z % 2 ^ 16

pub value_data-bitstring :
    (z : ℤ) → magnitude z < 2 ^ 16 → value_data z ≡ bitstring (data_code z) (size z)
unfolding value_data
value_data-bitstring z h =
    rw (category-size z h, cut)
      (bit_or_disjoint 16 (data_code z) (size z)
        (omega (arith, bit_length_le 32 (magnitude z) 16 h)))
  where
    cut : u32 (masked_value z * 2 ^ 16) ≡ data_code z * 2 ^ 16
    cut = omega arith

-- The 16 low bits of `value` for a negative number end in its one's complement.
complement_split :
    (n : ℕ)
    → suc n < 2 ^ 16
    → data_code (negsuc n)
      ≡ (2 ^ (16 - size (negsuc n)) - 1) * 2 ^ size (negsuc n) + (2 ^ size (negsuc n) - 1 - suc n)
complement_split n h = omega (arith, masked_value-negsuc n h, whole, below, powers)
  where
    s : ℕ
    s = size (negsuc n)

    below : (suc n < 2 ^ s) × (2 ^ s ≤ 2 * suc n)
    below = bit_length_bounds 32 (suc n) (omega arith) (omega arith)

    powers : 2 ^ 16 ≡ 2 ^ s * 2 ^ (16 - s)
    powers =
        let e : 16 ≡ s + (16 - s) = omega (arith, bit_length_le 32 (suc n) 16 h) in
        ap (λ (t : ℕ). 2 ^ t) e ∙ pow_sum s (16 - s)

    whole : (2 ^ (16 - s) - 1) * 2 ^ s + 2 ^ s ≡ 2 ^ s * 2 ^ (16 - s)
    whole =
        let e : 2 ^ (16 - s) - 1 + 1 ≡ 2 ^ (16 - s) = omega (arith, pow_pos (16 - s)) in
        omega (arith, ap (λ (t : ℕ). t * 2 ^ s) e)

pub bits_of_data :
    (z : ℤ)
    → magnitude z < 2 ^ 16
    → bits_of (size z) (data_code z) ≡ bits_of (size z) (magnitude_code z)
unfolding magnitude_code
bits_of_data (pos n) h =
    let same : masked_value (pos n) % 2 ^ 16 ≡ n = omega (arith, masked_value-pos n h) in rw same
bits_of_data (negsuc n) h =
    ap (bits_of (size (negsuc n))) (complement_split n h)
    ∙ bits_of_high (size (negsuc n)) (2 ^ (16 - size (negsuc n)) - 1)
        (2 ^ size (negsuc n) - 1 - suc n)

-- EXTEND of section F.2.2.1: the number that `s` bits `v` stand for.
unfoldable pub extend : ℕ → ℕ → ℤ
extend s v = if ltb v (2 ^ (s - 1)) then negsuc (2 ^ s - 1 - v - 1) else pos v

size_bounds :
    (m : ℕ)
    → 0 < m
    → m < 2 ^ 16
    → (2 ^ (bit_length 32 m - 1) ≤ m)
      × (m < 2 * 2 ^ (bit_length 32 m - 1))
      × (2 ^ bit_length 32 m ≡ 2 * 2 ^ (bit_length 32 m - 1))
size_bounds m p h =
    (omega (arith, halves, bounds), omega (arith, halves, bounds), omega (arith, halves))
  where
    bounds : (m < 2 ^ bit_length 32 m) × (2 ^ bit_length 32 m ≤ 2 * m)
    bounds = bit_length_bounds 32 m p (omega arith)

    halves : 2 ^ bit_length 32 m ≡ 2 ^ (bit_length 32 m - 1) * 2
    halves =
        let e : bit_length 32 m ≡ suc (bit_length 32 m - 1) =
          omega (arith, bit_length_pos 32 m p (omega arith)) in
        ap (λ (k : ℕ). 2 ^ k) e ∙ pow-suc 2 (bit_length 32 m - 1)

-- A decoder gets every number other than 0 back from its magnitude code.
pub extend-magnitude_code :
    (z : ℤ)
    → 0 < magnitude z
    → magnitude z < 2 ^ 16
    → (extend (size z) (magnitude_code z) ≡ z) × (magnitude_code z < 2 ^ size z)
unfolding extend magnitude_code
extend-magnitude_code (pos n) p h =
    (ground (arith, size_bounds n p h), ground (arith, size_bounds n p h))
extend-magnitude_code (negsuc n) p h =
    (ground (arith, size_bounds (suc n) p h), ground (arith, size_bounds (suc n) p h))
