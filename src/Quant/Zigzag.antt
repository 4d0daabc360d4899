-- ===== src/Quant/Zigzag.antt =====
-- `zigzag` of libusbdisp/libenc/jpeg_enc.c is a permutation of 0 .. 63: facts about the table, each
-- checked on its 64 entries.
use jpeg_study.Prelude.{
  ℕ_discrete, ◌≤◌, arith, ℕ, ◌<◌, ◌≡◌, refl, sym, ap, ◌∙◌, ◌==◌, ==_iff, ltb, ltb→lt,
}
use jpeg_study.Prelude.{List, [], ◌∷◌, get_or, true}
use jpeg_study.Prelude.Below.{all_below, all_below_sound}
use jpeg_study.Tables.Quantization.{zigzag}

-- The place of coefficient `i` in the scan.
abbrev pub place : ℕ → ℕ
place i = get_or zigzag i 0

-- The scan itself: the coefficient that stands at each place.
unfoldable pub scan_order : List ℕ
scan_order =
    0 ∷ 1 ∷ 8 ∷ 16 ∷ 9 ∷ 2 ∷ 3 ∷ 10 ∷ 17 ∷ 24 ∷ 32 ∷ 25 ∷ 18 ∷ 11 ∷ 4 ∷ 5 ∷ 12 ∷ 19 ∷ 26 ∷ 33 ∷ 40
    ∷ 48 ∷ 41 ∷ 34 ∷ 27 ∷ 20 ∷ 13 ∷ 6 ∷ 7 ∷ 14 ∷ 21 ∷ 28 ∷ 35 ∷ 42 ∷ 49 ∷ 56 ∷ 57 ∷ 50 ∷ 43 ∷ 36
    ∷ 29 ∷ 22 ∷ 15 ∷ 23 ∷ 30 ∷ 37 ∷ 44 ∷ 51 ∷ 58 ∷ 59 ∷ 52 ∷ 45 ∷ 38 ∷ 31 ∷ 39 ∷ 46 ∷ 53 ∷ 60 ∷ 61
    ∷ 54 ∷ 47 ∷ 55 ∷ 62 ∷ 63 ∷ []

abbrev pub scanned : ℕ → ℕ
scanned k = get_or scan_order k 0

scanned-place_table : all_below 64 (λ i. scanned (place i) == i) ≡ true
unfolding all_below zigzag scan_order
scanned-place_table = refl

place-scanned_table : all_below 64 (λ k. place (scanned k) == k) ≡ true
unfolding all_below zigzag scan_order
place-scanned_table = refl

place-lt_table : all_below 64 (λ i. ltb (place i) 64) ≡ true
unfolding all_below zigzag
place-lt_table = refl

scanned-lt_table : all_below 64 (λ k. ltb (scanned k) 64) ≡ true
unfolding all_below scan_order
scanned-lt_table = refl

pub scanned-place : (i : ℕ) → i < 64 → scanned (place i) ≡ i
scanned-place i h =
    (==_iff _ _).0 (all_below_sound 64 (λ i. scanned (place i) == i) i scanned-place_table h)

pub place-scanned : (k : ℕ) → k < 64 → place (scanned k) ≡ k
place-scanned k h =
    (==_iff _ _).0 (all_below_sound 64 (λ k. place (scanned k) == k) k place-scanned_table h)

pub place-lt : (i : ℕ) → i < 64 → place i < 64
place-lt i h = ltb→lt _ _ (all_below_sound 64 (λ i. ltb (place i) 64) i place-lt_table h)

pub scanned-lt : (k : ℕ) → k < 64 → scanned k < 64
scanned-lt k h = ltb→lt _ _ (all_below_sound 64 (λ k. ltb (scanned k) 64) k scanned-lt_table h)

pub place_injective : (i j : ℕ) → i < 64 → j < 64 → place i ≡ place j → i ≡ j
place_injective i j hi hj e = sym (scanned-place i hi) ∙ ap (λ k. scanned k) e ∙ scanned-place j hj

-- Only the first coefficient of the scan stands at place 0.
pub scanned-pos : (k : ℕ) → 1 ≤ k → k < 64 → 1 ≤ scanned k
scanned-pos k l h = elim (ℕ_discrete (scanned k) 0) [
  | yes e ↦
      let first : place (scanned k) ≡ 0 = ap (λ (i : ℕ). place i) e ∙ (unfold zigzag in refl) in
      absurd (omega (arith, place-scanned k h, first))
  | no n ↦ omega arith
]
