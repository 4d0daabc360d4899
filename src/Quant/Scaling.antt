-- ===== src/Quant/Scaling.antt =====
-- What `set_quant_table` and `set_DQTinfo` compute.
use jpeg_study.Prelude.{
  ℕ, zero, suc, ◌+◌, ◌*◌, ◌/◌, ◌≤◌, ◌<◌, ◌≡◌, refl, sym, ap, ◌∙◌, arith, ℕ_discrete, dec_lt, ◌⊎◌,
  inl, inr,
}
use mathlib.Core.Path.{subst}
use jpeg_study.Prelude.{List, get_or, length, length-set, get_or-set_self, get_or-set_ne}
use jpeg_study.Quant.Zigzag.{place, place-lt, place_injective, scanned, place-scanned, scanned-lt}
use jpeg_study.Quant.Tables.{quant_entry, set_quant_loop, set_quant_table, scale_of_quality}

-- A scaled entry is never 0 and fits a byte, whatever the basic entry and the scale.
pub quant_entry_bounds :
    (basic scale : ℕ) → (1 ≤ quant_entry basic scale) × (quant_entry basic scale ≤ 255)
unfolding quant_entry
quant_entry_bounds basic scale = ground arith

quant_entry_mono : (basic s t : ℕ) → s ≤ t → quant_entry basic s ≤ quant_entry basic t
unfolding quant_entry
quant_entry_mono basic s t h = ground (arith, monotone)
  where
    monotone : (basic * s + 50) / 100 ≤ (basic * t + 50) / 100
    monotone = grind arith

-- A better quality, up to 100, never coarsens a table entry.
pub quant_entry_antitone :
    (basic q r : ℕ)
    → q ≤ r
    → r ≤ 100
    → quant_entry basic (scale_of_quality r) ≤ quant_entry basic (scale_of_quality q)
quant_entry_antitone basic q r h k =
    quant_entry_mono basic _ _ (unfold scale_of_quality in omega arith)

module _ (basic : List ℕ) (scale : ℕ) where
  length-set_quant_loop :
      (left i : ℕ) (t : List ℕ) → length (set_quant_loop basic scale left i t) ≡ length t
  unfolding set_quant_loop
  length-set_quant_loop zero i t = refl
  length-set_quant_loop (suc left) i t =
      length-set_quant_loop left (suc i) _ ∙ length-set t (place i) _

  -- Rounds from `i` on leave the places of earlier coefficients alone.
  set_quant_loop_before :
      (left i j : ℕ) (t : List ℕ)
      → i + left ≡ 64
      → j < i
      → get_or (set_quant_loop basic scale left i t) (place j) 0 ≡ get_or t (place j) 0
  unfolding set_quant_loop
  set_quant_loop_before zero i j t e h = refl
  set_quant_loop_before (suc left) i j t e h =
      set_quant_loop_before left (suc i) j _ (omega arith) (omega arith)
      ∙ get_or-set_ne t (place i) (place j) _ 0
          (λ same. absurd (omega (arith, place_injective i j (omega arith) (omega arith) same)))

  set_quant_loop_from :
      (left i j : ℕ) (t : List ℕ)
      → i + left ≡ 64
      → length t ≡ 64
      → i ≤ j
      → j < 64
      → get_or (set_quant_loop basic scale left i t) (place j) 0
        ≡ quant_entry (get_or basic j 0) scale
  unfolding set_quant_loop
  set_quant_loop_from zero i j t e l h k = absurd (omega arith)
  set_quant_loop_from (suc left) i j t e l h k = elim (ℕ_discrete i j) [
    | yes p ↦ rw (← p) (
        set_quant_loop_before left (suc i) i _ (omega arith) (omega arith)
        ∙ get_or-set_self t (place i) _ 0 (rw l (place-lt i (omega arith))))
    | no p ↦
        set_quant_loop_from left (suc i) j _ (omega arith) (length-set t (place i) _ ∙ l)
          (omega arith) k
  ]

  -- The scaled entry of coefficient `j` stands at its place, whatever the table held before.
  pub set_quant_table_lem :
      (t : List ℕ) (j : ℕ)
      → length t ≡ 64
      → j < 64
      → get_or (set_quant_table basic scale t) (place j) 0 ≡ quant_entry (get_or basic j 0) scale
  unfolding set_quant_table
  set_quant_table_lem t j l h = set_quant_loop_from 64 0 j t refl l (omega arith) h

  pub length-set_quant_table : (t : List ℕ) → length (set_quant_table basic scale t) ≡ length t
  unfolding set_quant_table
  length-set_quant_table t = length-set_quant_loop 64 0 t

-- `e` is `basic` times `scale` percent: the nearest number, halves rounded up, where it is from 1 to 255, and else
-- the nearer of these two.
pub record IsScaled (basic scale e : ℕ) : Type 0 where
  pub low : 1 ≤ e
  pub high : e ≤ 255
  pub near :
      ((100 * e ≤ basic * scale + 50) × (basic * scale + 50 < 100 * e + 100))
      ⊎ ((e ≡ 1) × (basic * scale < 50))
      ⊎ ((e ≡ 255) × (255 * 100 + 50 ≤ basic * scale))

quant_entry-near :
    (basic scale : ℕ)
    → let e = quant_entry basic scale in
      ((100 * e ≤ basic * scale + 50) × (basic * scale + 50 < 100 * e + 100))
      ⊎ ((e ≡ 1) × (basic * scale < 50))
      ⊎ ((e ≡ 255) × (255 * 100 + 50 ≤ basic * scale))
unfolding quant_entry
quant_entry-near basic scale = elim (dec_lt (basic * scale) 50) [
  | yes small ↦ inr (inl (ground arith, small))
  | no h ↦ elim (dec_lt (basic * scale) (255 * 100 + 50)) [
    | yes middle ↦ inl (ground arith, ground arith)
    | no large ↦ inr (inr (ground arith, omega arith))
  ]
]

pub quant_entry-IsScaled : (basic scale : ℕ) → IsScaled basic scale (quant_entry basic scale)
quant_entry-IsScaled basic scale = record {
  low = (quant_entry_bounds basic scale).0;
  high = (quant_entry_bounds basic scale).1;
  near = quant_entry-near basic scale;
}

-- Whatever a table of 64 entries held before, `set_quant_table` leaves in entry `k` below 64 the basic entry of the
-- coefficient that the zigzag scan has at place `k`, times the scale in percent, rounded, and limited to 1 to 255.
pub set_quant_table-IsScaled :
    (basic : List ℕ) (scale : ℕ) (t : List ℕ) (k : ℕ)
    → length t ≡ 64
    → k < 64
    → IsScaled (get_or basic (scanned k) 0) scale (get_or (set_quant_table basic scale t) k 0)
set_quant_table-IsScaled basic scale t k sized h =
    let entry : get_or (set_quant_table basic scale t) k 0
        ≡ quant_entry (get_or basic (scanned k) 0) scale =
      ap (λ (p : ℕ). get_or (set_quant_table basic scale t) p 0) (sym (place-scanned k h))
      ∙ set_quant_table_lem basic scale t (scanned k) sized (scanned-lt k h) in
    subst (λ (e : ℕ). IsScaled (get_or basic (scanned k) 0) scale e) (sym entry)
      (quant_entry-IsScaled (get_or basic (scanned k) 0) scale)
