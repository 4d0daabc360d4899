-- ===== src/Bits/Fields.antt =====
-- The shifts of `writebits` in libusbdisp/libenc/jpeg_enc.c as arithmetic: what `value`, `data` and the
-- new word hold.
use native.Mathlib.Nat.{
  pow-suc, div-add-mod', mod-lt, mul-add-div_right, div-eq_of_lt, mul-div-mul_right,
}
use native.Mathlib.Nat.{mul-div_cancel, add-mul-mod_self_left, mod-eq_of_lt, pow-le-pow_right}
use mathlib.Core.Path.{ap₂}
use jpeg_study.Prelude.{ℕ, zero, suc, ◌+◌, ◌-◌, ◌*◌, ◌/◌, ◌%◌, ◌^◌, ◌≤◌, ◌<◌, ◌≡◌, ap, ◌∙◌}
use jpeg_study.Prelude.{arith, u16, u32, bit_and, bit_or}
use jpeg_study.Prelude.Bitwise.{pow_pos, pow_sum, bit_and_low, bit_or_disjoint}

-- A `bitstring`: the bits aligned at bit 16, and their number.
abbrev pub bitstring : ℕ → ℕ → ℕ
bitstring code len = code * 2 ^ 16 + len

product_lt : (a b c : ℕ) → a < b → 0 < c → a * c < b * c
product_lt a b c p q = grind arith

lt_two_pow : (n : ℕ) → n < 2 ^ n
lt_two_pow zero = omega arith
lt_two_pow (suc n) = omega (arith, lt_two_pow n, pow-suc 2 n)

-- `2 ^ 16` cut at `n`.
sixteen : (n : ℕ) → n ≤ 16 → 2 ^ 16 ≡ 2 ^ n * 2 ^ (16 - n)
sixteen n h =
    let e : 16 ≡ n + (16 - n) = omega arith in ap (λ (t : ℕ). 2 ^ t) e ∙ pow_sum n (16 - n)

mod_scaled : (a b c : ℕ) → 0 < a → 0 < b → c * b % (a * b) ≡ c % a * b
mod_scaled a b c pa pb =
    let split : c * b ≡ c % a * b + a * b * (c / a) =
      omega (arith, ap (λ (t : ℕ). t * b) (div-add-mod' c a)) in
    let fits : c % a * b < a * b = product_lt (c % a) a b (mod-lt c pa) pb in
    ap (λ (t : ℕ). t % (a * b)) split
    ∙ add-mul-mod_self_left (c % a * b) (a * b) (c / a)
    ∙ mod-eq_of_lt fits

module _ (code len : ℕ) (short : len ≤ 16) where
  pub len_read : bit_and (bitstring code len) 0xff ≡ len
  len_read = bit_and_low 8 (bitstring code len) ∙ omega arith

  -- `value`: the low `len` bits of the code at the top of a `WORD`.
  pub value_is : u16 (bitstring code len / 2 ^ len) ≡ code % 2 ^ len * 2 ^ (16 - len)
  value_is =
      let a = 2 ^ len in
      let b = 2 ^ (16 - len) in
      let cut : bitstring code len ≡ code * b * a + len =
        omega (arith, ap (λ (t : ℕ). code * t) (sixteen len short)) in
      let shifted : bitstring code len / a ≡ code * b =
        ap (λ (t : ℕ). t / a) cut
        ∙ mul-add-div_right (pow_pos len) (code * b) len
        ∙ rw (div-eq_of_lt (lt_two_pow len)) (omega arith) in
      ap₂ (λ (s t : ℕ). s % t) shifted (sixteen len short)
      ∙ mod_scaled a b code (pow_pos len) (pow_pos (16 - len))

  -- `value >> (16-len)`.
  pub value_top : code % 2 ^ len * 2 ^ (16 - len) / 2 ^ (16 - len) ≡ code % 2 ^ len
  value_top = mul-div_cancel _ (pow_pos (16 - len))

-- What the second branch computes, for the low bits `c` of the code: `shift` of them fill the word,
-- and `over` of them are left.
module _ (c shift over : ℕ) (short : shift + over ≤ 16) (fits : c < 2 ^ (shift + over)) where
  abbrev pub gap : ℕ
  gap = 2 ^ (16 - (shift + over))

  -- `value >> (16-shift)`.
  pub filling : c * gap / 2 ^ (16 - shift) ≡ c / 2 ^ over
  filling =
      let e : 16 - shift ≡ over + (16 - (shift + over)) = omega arith in
      ap (λ (t : ℕ). c * gap / t) (ap (λ (t : ℕ). 2 ^ t) e ∙ pow_sum over (16 - (shift + over)))
      ∙ mul-div-mul_right c (2 ^ over) (pow_pos (16 - (shift + over)))

  -- `value <<= shift; value >> (16-len)`.
  pub leftover : u16 (c * gap * 2 ^ shift) / 2 ^ (16 - over) ≡ c % 2 ^ over
  leftover =
      let e : 16 - over ≡ 16 - (shift + over) + shift = omega arith in
      let unit : 2 ^ (16 - over) ≡ gap * 2 ^ shift =
        ap (λ (t : ℕ). 2 ^ t) e ∙ pow_sum (16 - (shift + over)) shift in
      let scaled : c * gap * 2 ^ shift ≡ c * 2 ^ (16 - over) =
        omega (arith, ap (λ (t : ℕ). c * t) unit) in
      ap (λ (t : ℕ). t / 2 ^ (16 - over))
        (ap₂ (λ (s t : ℕ). s % t) scaled (sixteen over (omega arith))
          ∙ mod_scaled (2 ^ over) (2 ^ (16 - over)) c (pow_pos over) (pow_pos (16 - over)))
      ∙ mul-div_cancel (c % 2 ^ over) (pow_pos (16 - over))

-- `(word << n) | low` for a word of `pos` bits with room for `n` more.
pub word_shifted :
    (word pos n low : ℕ)
    → word < 2 ^ pos
    → low < 2 ^ n
    → pos + n ≤ 32
    → (bit_or (u32 (word * 2 ^ n)) low ≡ word * 2 ^ n + low) × (word * 2 ^ n + low < 2 ^ (pos + n))
word_shifted word pos n low hw hl fits = (rw uncut (bit_or_disjoint n word low hl), below)
  where
    total : 2 ^ (pos + n) ≡ 2 ^ pos * 2 ^ n
    total = pow_sum pos n

    below : word * 2 ^ n + low < 2 ^ (pos + n)
    below = rw total (grind arith)

    bound : 2 ^ (pos + n) ≤ 2 ^ 32
    bound = pow-le-pow_right (omega arith) fits

    uncut : u32 (word * 2 ^ n) ≡ word * 2 ^ n
    uncut = omega (arith, below, bound)
