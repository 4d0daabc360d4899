-- ===== src/Bits/Digits.antt =====
-- Numbers as lists of bits, the high bit first.
use native.Mathlib.Nat.{pow-suc, div-add-mod', mul-add-div_right, div-div-eq-div-mul}
use native.Mathlib.Nat.{mul_comm, div-eq_of_lt}
use mathlib.Core.Path.{ap₂}
use jpeg_study.Prelude.{ℕ, zero, suc, ◌+◌, ◌*◌, ◌/◌, ◌%◌, ◌^◌, ◌<◌, ◌==◌, ◌≡◌, refl, ap, ◌∙◌, sym}
use jpeg_study.Prelude.{arith, Bool, List, [], ◌∷◌, ◌++◌, length}
use jpeg_study.Prelude.Bitwise.{pow_pos, pow_sum}

-- The low `n` bits of `v`.
unfoldable pub bits_of : ℕ → ℕ → List Bool
bits_of zero v = []
bits_of (suc n) v = (v / 2 ^ n % 2 == 1) ∷ bits_of n v

pub length-bits_of : (n v : ℕ) → length (bits_of n v) ≡ n
unfolding bits_of
length-bits_of zero v = refl
length-bits_of (suc n) v = ap suc (length-bits_of n v)

-- Higher bits do not show.
pub bits_of_high : (n q v : ℕ) → bits_of n (q * 2 ^ n + v) ≡ bits_of n v
unfolding bits_of
bits_of_high zero q v = refl
bits_of_high (suc n) q v =
    ap₂ ◌∷◌ (ap (λ (d : ℕ). d == 1) top) (rw double (bits_of_high n (2 * q) v))
  where
    double : q * 2 ^ suc n + v ≡ 2 * q * 2 ^ n + v
    double = omega (arith, ap (λ (t : ℕ). q * t) (pow-suc 2 n))

    top : (q * 2 ^ suc n + v) / 2 ^ n % 2 ≡ v / 2 ^ n % 2
    top = rw (double, mul-add-div_right (pow_pos n) (2 * q) v) (omega arith)

pub bits_of_mod : (n v : ℕ) → bits_of n (v % 2 ^ n) ≡ bits_of n v
bits_of_mod n v =
    let e : v / 2 ^ n * 2 ^ n + v % 2 ^ n ≡ v = div-add-mod' v (2 ^ n) in
    sym (bits_of_high n (v / 2 ^ n) (v % 2 ^ n)) ∙ ap (bits_of n) e

-- The bits of two numbers side by side.
pub bits_of_pair :
    (m n hi lo : ℕ) → lo < 2 ^ n → bits_of (m + n) (hi * 2 ^ n + lo) ≡ bits_of m hi ++ bits_of n lo
unfolding bits_of
bits_of_pair zero n hi lo h = let e : zero + n ≡ n = omega arith in rw e (bits_of_high n hi lo)
bits_of_pair (suc m) n hi lo h =
    let e : suc m + n ≡ suc (m + n) = omega arith in
    rw e (ap₂ ◌∷◌ (ap (λ (d : ℕ). d % 2 == 1) top) (bits_of_pair m n hi lo h))
  where
    inner : (hi * 2 ^ n + lo) / 2 ^ n ≡ hi
    inner = mul-add-div_right (pow_pos n) hi lo ∙ rw (div-eq_of_lt h) (omega arith)

    top : (hi * 2 ^ n + lo) / 2 ^ (m + n) ≡ hi / 2 ^ m
    top =
        ap (λ (t : ℕ). (hi * 2 ^ n + lo) / t) (pow_sum m n ∙ mul_comm (2 ^ m) (2 ^ n))
        ∙ sym (div-div-eq-div-mul (hi * 2 ^ n + lo) (2 ^ n) (2 ^ m))
        ∙ ap (λ (t : ℕ). t / 2 ^ m) inner
