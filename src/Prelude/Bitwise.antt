-- ===== src/Prelude/Bitwise.antt =====
-- `|` of disjoint fields, `&` with a mask and `^` with all ones, as arithmetic at every width, and
-- the bit length on which `clz` stands.
use Prim.Native.Nat.{ℕ, zero, suc, ◌+◌, ◌-◌, ◌*◌, ◌/◌, ◌%◌, ◌^◌, ◌≤◌, ◌<◌, min, max}
use Prim.Native.Nat.{bit_and, bit_or, bit_xor, digits, bitwise, differ}
use Prim.Native.Nat.{bit_and-bitwise, bit_or-bitwise, bit_xor-bitwise}
use mathlib.Core.Path.{◌≡◌, refl, ap}
use native.Mathlib.Nat.{pow-suc, one-le-pow}
use native.Mathlib.Omega.{arith}
use jpeg_study.Prelude.Tests.{◌==◌, if◌then◌else◌}

-- The native operations are read off the binary digits with fuel; any fuel that covers `a` will do.
module _ (z : ℕ → ℕ) (f : ℕ → ℕ → ℕ) where
  same_digits : (k l a b : ℕ) → a ≤ k → a ≤ l → digits z f k a b ≡ digits z f l a b
  same_digits k l zero b p q = both k l
    where
      both : (m n : ℕ) → digits z f m 0 b ≡ digits z f n 0 b
      both zero zero = refl
      both zero (suc n) = refl
      both (suc m) zero = refl
      both (suc m) (suc n) = refl
  same_digits zero l (suc a) b p q = elim p [ ]
  same_digits (suc k) zero (suc a) b p q = elim q [ ]
  same_digits (suc k) (suc l) (suc a) b p q =
      omega (arith, same_digits k l (suc a / 2) (b / 2) (omega arith) (omega arith))

  lowest_digit :
      (m n : ℕ)
      → bitwise z f (suc m) n ≡ f (suc m % 2) (n % 2) + 2 * bitwise z f (suc m / 2) (n / 2)
  lowest_digit m n =
      omega (arith, same_digits m (suc m / 2) (suc m / 2) (n / 2) (omega arith) (omega arith))

bit_xor_step : (m n : ℕ) → bit_xor m n ≡ differ (m % 2) (n % 2) + 2 * bit_xor (m / 2) (n / 2)
bit_xor_step zero n = simp bit_xor-bitwise (zero_case n)
  where
    zero_case : (k : ℕ) → k ≡ differ 0 (k % 2) + 2 * (k / 2)
    zero_case k = ground arith
bit_xor_step (suc m) n = simp bit_xor-bitwise (lowest_digit (λ y. y) differ m n)

bit_and_step : (m n : ℕ) → bit_and m n ≡ min (m % 2) (n % 2) + 2 * bit_and (m / 2) (n / 2)
bit_and_step zero n = simp bit_and-bitwise (omega arith)
bit_and_step (suc m) n = simp bit_and-bitwise (lowest_digit (λ y. 0) min m n)

bit_or_step : (m n : ℕ) → bit_or m n ≡ max (m % 2) (n % 2) + 2 * bit_or (m / 2) (n / 2)
bit_or_step zero n = simp bit_or-bitwise (omega arith)
bit_or_step (suc m) n = simp bit_or-bitwise (lowest_digit (λ y. y) max m n)

bit_or-zero_fuel : (k a : ℕ) → a ≤ k → bit_or a 0 ≡ a
bit_or-zero_fuel k zero h = refl
bit_or-zero_fuel zero (suc a) h = elim h [ ]
bit_or-zero_fuel (suc k) (suc a) h =
    omega (arith, bit_or_step (suc a) 0, bit_or-zero_fuel k (suc a / 2) (omega arith))

bit_and-zero_fuel : (k a : ℕ) → a ≤ k → bit_and a 0 ≡ 0
bit_and-zero_fuel k zero h = refl
bit_and-zero_fuel zero (suc a) h = elim h [ ]
bit_and-zero_fuel (suc k) (suc a) h =
    omega (arith, bit_and_step (suc a) 0, bit_and-zero_fuel k (suc a / 2) (omega arith))

twice_pow : (q k : ℕ) → q * 2 ^ suc k ≡ 2 * (q * 2 ^ k)
twice_pow q k = omega (arith, ap (λ (t : ℕ). q * t) (pow-suc 2 k))

-- `(q << k) | r` is a sum when `r` has `k` bits.
pub bit_or_disjoint : (k q r : ℕ) → r < 2 ^ k → bit_or (q * 2 ^ k) r ≡ q * 2 ^ k + r
bit_or_disjoint zero q r h = ground (arith, bit_or-zero_fuel q q)
bit_or_disjoint (suc k) q r h =
    ground (
      arith,
      twice_pow q k,
      bit_or_step (q * 2 ^ suc k) r,
      bit_or_disjoint k q (r / 2) (omega arith),
    )

-- A mask of `k` ones takes the `k` low bits.
pub bit_and_ones : (k q r : ℕ) → r < 2 ^ k → bit_and (q * 2 ^ k + r) (2 ^ k - 1) ≡ r
bit_and_ones zero q r h = ground (arith, bit_and-zero_fuel (q + r) (q + r))
bit_and_ones (suc k) q r h = ground (
  arith,
  twice_pow q k,
  pow-suc 2 k,
  bit_and_step (q * 2 ^ suc k + r) (2 ^ suc k - 1),
  bit_and_ones k q (r / 2) (omega arith),
)

pub bit_and_low : (k a : ℕ) → bit_and a (2 ^ k - 1) ≡ a % 2 ^ k
bit_and_low k a = ground (arith, one-le-pow k 2, bit_and_ones k (a / 2 ^ k) (a % 2 ^ k))

differ_zero : (a : ℕ) → differ a 0 ≡ a
differ_zero zero = refl
differ_zero (suc a) = refl

bit_xor-zero_fuel : (k a : ℕ) → a ≤ k → bit_xor a 0 ≡ a
bit_xor-zero_fuel k zero h = refl
bit_xor-zero_fuel zero (suc a) h = elim h [ ]
bit_xor-zero_fuel (suc k) (suc a) h = omega (
  arith,
  bit_xor_step (suc a) 0,
  differ_zero (suc a % 2),
  bit_xor-zero_fuel k (suc a / 2) (omega arith),
)

pub bit_xor-zero : (a : ℕ) → bit_xor a 0 ≡ a
bit_xor-zero a = bit_xor-zero_fuel a a (omega arith)

complement_step :
    (k a d y : ℕ)
    → a < 2 ^ suc k
    → a % 2 ≡ d
    → y ≡ 2 ^ k - 1 - a / 2
    → differ d 1 + 2 * y ≡ 2 ^ suc k - 1 - a
complement_step k a zero y h p e = omega (arith, pow-suc 2 k, one-le-pow k 2)
complement_step k a (suc zero) y h p e = omega (arith, pow-suc 2 k, one-le-pow k 2)
complement_step k a (suc (suc d)) y h p e = absurd (omega arith)

-- `^` with `k` ones is the complement in `k` bits.
pub bit_xor_ones : (k a : ℕ) → a < 2 ^ k → bit_xor a (2 ^ k - 1) ≡ 2 ^ k - 1 - a
bit_xor_ones zero a h = let e : a ≡ 0 = omega arith in rw e
bit_xor_ones (suc k) a h =
    let half : (2 ^ suc k - 1) / 2 ≡ 2 ^ k - 1 = omega (arith, pow-suc 2 k, one-le-pow k 2) in
    let odd : (2 ^ suc k - 1) % 2 ≡ 1 = omega (arith, pow-suc 2 k, one-le-pow k 2) in
    rw (bit_xor_step a (2 ^ suc k - 1), half, odd)
      (complement_step k a (a % 2) _ h refl (bit_xor_ones k (a / 2) (omega (arith, pow-suc 2 k))))

-- The number of bits of a `DWORD`: `32 - clz(n)` for `n` not 0.
unfoldable pub bit_length : ℕ → ℕ → ℕ
bit_length zero n = 0
bit_length (suc fuel) n = let rest = bit_length fuel (n / 2) in if n == 0 then 0 else suc rest

pub bit_length_zero : (fuel : ℕ) → bit_length fuel 0 ≡ 0
unfolding bit_length
bit_length_zero zero = refl
bit_length_zero (suc fuel) = refl

bit_length_step : (fuel n : ℕ) → 0 < n → bit_length (suc fuel) n ≡ suc (bit_length fuel (n / 2))
unfolding bit_length
bit_length_step fuel n h = ground arith

-- The value lies between the two powers that its length names.
pub bit_length_bounds :
    (fuel n : ℕ)
    → 0 < n
    → n < 2 ^ fuel
    → (n < 2 ^ bit_length fuel n) × (2 ^ bit_length fuel n ≤ 2 * n)
bit_length_bounds zero n p h = absurd (omega arith)
bit_length_bounds (suc fuel) zero p h = elim p [ ]
bit_length_bounds (suc fuel) (suc zero) p h =
    let e : suc zero / 2 ≡ 0 = refl in
    rw (bit_length_step fuel 1 p, e, bit_length_zero fuel) (omega arith)
bit_length_bounds (suc fuel) (suc (suc n)) p h = rw (bit_length_step fuel (suc (suc n)) p) (
    omega (
      arith,
      pow-suc 2 (bit_length fuel (suc (suc n) / 2)),
      bit_length_bounds fuel (suc (suc n) / 2) (omega arith) (omega (arith, pow-suc 2 fuel)),
    ))

pub bit_length_le : (fuel n m : ℕ) → n < 2 ^ m → bit_length fuel n ≤ m
bit_length_le zero n m h = unfold bit_length in omega arith
bit_length_le (suc fuel) zero m h = rw (bit_length_zero (suc fuel)) (omega arith)
bit_length_le (suc fuel) (suc n) zero h = absurd (omega arith)
bit_length_le (suc fuel) (suc n) (suc m) h =
    rw (bit_length_step fuel (suc n) (omega arith))
      (omega (arith, bit_length_le fuel (suc n / 2) m (omega (arith, pow-suc 2 m))))

pub bit_length_pos : (fuel n : ℕ) → 0 < n → 0 < fuel → 0 < bit_length fuel n
bit_length_pos zero n p q = elim q [ ]
bit_length_pos (suc fuel) n p q = rw (bit_length_step fuel n p) (omega arith)

pub pow_sum : (a b : ℕ) → 2 ^ (a + b) ≡ 2 ^ a * 2 ^ b
pow_sum a zero = let e : a + zero ≡ a = omega arith in rw e (omega arith)
pow_sum a (suc b) =
    let e : a + suc b ≡ suc (a + b) = omega arith in
    rw (e, pow-suc 2 (a + b), pow-suc 2 b) (omega (arith, ap (λ (t : ℕ). t * 2) (pow_sum a b)))

pub pow_pos : (n : ℕ) → 0 < 2 ^ n
pow_pos n = one-le-pow n 2 (omega arith)
