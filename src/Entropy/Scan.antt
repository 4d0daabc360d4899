-- ===== src/Entropy/Scan.antt =====
-- The two searches for coefficients that are not 0 in `process_DU` of libusbdisp/libenc/jpeg_enc.c, and
-- what a reading makes of the coefficients that they pass over.
use mathlib.Core.Path.{subst}
use jpeg_study.Prelude.{ℕ, zero, suc, ◌+◌, ◌-◌, ◌≤◌, ◌<◌, ◌≡◌, refl, ap, ◌∙◌, arith}
use jpeg_study.Prelude.{true, false, leb, Bool-cases, inl, inr}
use jpeg_study.Prelude.{List, [], ◌∷◌, get_or, drop, length, drop-get_or, drop-length, dec_lt}
use jpeg_study.Prelude.Int.{ℤ, pos, is_zero}
use jpeg_study.Entropy.Block.{find_end, skip_zeros}

-- Coefficient `i` in scan order.
abbrev pub coef : List ℤ → ℕ → ℤ
coef zdu i = get_or zdu i (pos 0)

-- `e` is the last place up to `n` that is not 0, or 0 if there is none.
pub record IsEnd (zdu : List ℤ) (n e : ℕ) : Type 0 where
  pub within : e ≤ n
  pub last : 0 < e → is_zero (coef zdu e) ≡ false
  pub zeros_behind : (k : ℕ) → e < k → k ≤ n → is_zero (coef zdu k) ≡ true

-- From any place `n` down, the first loop stops at the last place up to `n` that is not 0, or at 0 if
-- there is none.
pub find_end-IsEnd : (zdu : List ℤ) (n : ℕ) → IsEnd zdu n (find_end zdu n)
unfolding find_end
find_end-IsEnd zdu zero = record {
  within = omega arith;
  last = λ h. absurd (omega arith);
  zeros_behind = λ k h l. absurd (omega arith);
}
find_end-IsEnd zdu (suc n) = elim (Bool-cases (is_zero (coef zdu (suc n)))) [
  | inl z ↦
      let r = find_end-IsEnd zdu n in
      rw z (record {
        within = omega (arith, r.within);
        last = r.last;
        zeros_behind = λ k h l. elim (dec_lt n k) [
          | yes p ↦ let e : k ≡ suc n = omega arith in rw e z
          | no p ↦ r.zeros_behind k h (omega arith)
        ];
      })
  | inr z ↦
      rw z (record {
        within = omega arith;
        last = λ h. z;
        zeros_behind = λ k h l. absurd (omega arith);
      })
]

-- A reading of the coefficients behind a run of zeros, to which a coefficient that is 0 only adds one
-- more zero.
module _ {A : Type 0} (code : ℕ → List ℤ → A)
    (code-zero : (run : ℕ) (z : ℤ) (zs : List ℤ)
      → is_zero z ≡ true
      → code run (z ∷ zs) ≡ code (suc run) zs)
    (zdu : List ℤ) where
  code-drop_zero :
      (run i : ℕ)
      → i < length zdu
      → is_zero (coef zdu i) ≡ true
      → code run (drop i zdu) ≡ code (suc run) (drop (suc i) zdu)
  code-drop_zero run i h z =
      ap (λ zs. code run zs) (drop-get_or zdu i (pos 0) h)
      ∙ code-zero run (coef zdu i) (drop (suc i) zdu) z

  -- Where `skip_zeros` stops, and what it passes over.
  pub record Skips (e i run j : ℕ) : Type 0 where
    pub from : i ≤ j
    pub upto : j ≤ e
    pub found : is_zero (coef zdu j) ≡ false
    pub same_code : code run (drop i zdu) ≡ code (run + (j - i)) (drop j zdu)

  -- A zero at `i` is not the last coefficient.
  zero_before :
      (e i : ℕ) → is_zero (coef zdu i) ≡ true → i ≤ e → is_zero (coef zdu e) ≡ false → i < e
  zero_before e i z low last = elim (dec_lt i e) [
    | yes p ↦ p
    | no p ↦
        let same : i ≡ e = omega arith in
        let z' : is_zero (coef zdu e) ≡ true = subst (λ k. is_zero (coef zdu k) ≡ true) same z in cc
  ]

  pub skip_zeros-Skips :
      (fuel e i run : ℕ)
      → i ≤ e
      → e < i + fuel
      → e < length zdu
      → is_zero (coef zdu e) ≡ false
      → Skips e i run (skip_zeros fuel zdu e i)
  unfolding skip_zeros
  skip_zeros-Skips zero e i run low enough inside last = absurd (omega arith)
  skip_zeros-Skips (suc fuel) e i run low enough inside last =
      elim (Bool-cases (is_zero (coef zdu i))) [
        | inl z ↦
            let reached : leb i e ≡ true = ground arith in
            let before = zero_before e i z low last in
            let r = skip_zeros-Skips fuel e (suc i) (suc run) before (omega arith) inside last in
            rw (z, reached)
              (record {
                from = omega (arith, r.from);
                upto = r.upto;
                found = r.found;
                same_code =
                    code-drop_zero run i (omega arith) z
                    ∙ r.same_code
                    ∙ ap (λ (n : ℕ). code n (drop (skip_zeros fuel zdu e (suc i)) zdu))
                        (omega (arith, r.from));
              })
        | inr z ↦ rw z (record {
          from = omega arith;
          upto = low;
          found = z;
          same_code =
              let e : run ≡ run + (i - i) = omega arith in ap (λ (n : ℕ). code n (drop i zdu)) e;
        })
      ]

  -- Only zeros are left.
  pub code-zeros :
      (left run i : ℕ)
      → i + left ≡ length zdu
      → ((k : ℕ) → i ≤ k → k < length zdu → is_zero (coef zdu k) ≡ true)
      → code run (drop i zdu) ≡ code (run + left) []
  code-zeros zero run i e zeros =
      let bound : length zdu ≤ i = omega arith in
      let none : run + 0 ≡ run = omega arith in rw (drop-length zdu i bound, none) refl
  code-zeros (suc left) run i e zeros =
      let moved : suc run + left ≡ run + suc left = omega arith in
      code-drop_zero run i (omega arith) (zeros i (omega arith) (omega arith))
      ∙ code-zeros left (suc run) (suc i) (omega arith) (λ k h l. zeros k (omega arith) l)
      ∙ ap (λ (n : ℕ). code n []) moved
