-- ===== src/Entropy/Order.antt =====
-- The zigzag order of `process_DU` of libusbdisp/libenc/jpeg_enc.c.
use jpeg_study.Prelude.{ℕ, zero, suc, ◌+◌, ◌≤◌, ◌<◌, ◌≡◌, refl, sym, ap, ◌∙◌, arith, ℕ_discrete}
use jpeg_study.Prelude.{List, get_or, length, length-set, replicate}
use jpeg_study.Prelude.{get_or-set_self, get_or-set_ne, get_or_ext, get_or-map_in}
use jpeg_study.Prelude.Int.{ℤ, pos}
use jpeg_study.Quant.Zigzag.{
  place, place-lt, place_injective, scan_order, scanned, place-scanned, scanned-lt,
}
use jpeg_study.Entropy.Code.{in_scan_order}
use jpeg_study.Entropy.Block.{zigzag_loop, zigzag_order}

module _ (du : List ℤ) where
  length-zigzag_loop : (left i : ℕ) (t : List ℤ) → length (zigzag_loop du left i t) ≡ length t
  unfolding zigzag_loop
  length-zigzag_loop zero i t = refl
  length-zigzag_loop (suc left) i t = length-zigzag_loop left (suc i) _ ∙ length-set t (place i) _

  zigzag_loop_before :
      (left i j : ℕ) (t : List ℤ)
      → i + left ≡ 64
      → j < i
      → get_or (zigzag_loop du left i t) (place j) (pos 0) ≡ get_or t (place j) (pos 0)
  unfolding zigzag_loop
  zigzag_loop_before zero i j t e h = refl
  zigzag_loop_before (suc left) i j t e h =
      zigzag_loop_before left (suc i) j _ (omega arith) (omega arith)
      ∙ get_or-set_ne t (place i) (place j) _ (pos 0)
          (λ same. absurd (omega (arith, place_injective i j (omega arith) (omega arith) same)))

  zigzag_loop_from :
      (left i j : ℕ) (t : List ℤ)
      → i + left ≡ 64
      → length t ≡ 64
      → i ≤ j
      → j < 64
      → get_or (zigzag_loop du left i t) (place j) (pos 0) ≡ get_or du j (pos 0)
  unfolding zigzag_loop
  zigzag_loop_from zero i j t e l h k = absurd (omega arith)
  zigzag_loop_from (suc left) i j t e l h k = elim (ℕ_discrete i j) [
    | yes p ↦ rw (← p) (
        zigzag_loop_before left (suc i) i _ (omega arith) (omega arith)
        ∙ get_or-set_self t (place i) _ (pos 0) (rw l (place-lt i (omega arith))))
    | no p ↦
        zigzag_loop_from left (suc i) j _ (omega arith) (length-set t (place i) _ ∙ l) (omega arith)
          k
  ]

  pub length-zigzag_order : length (zigzag_order du) ≡ 64
  unfolding zigzag_order
  length-zigzag_order = length-zigzag_loop 64 0 (replicate 64 (pos 0))

  -- Coefficient `k` of the result is the one that stands at place `k` of the scan.
  pub zigzag_order-get_or :
      (k : ℕ) → k < 64 → get_or (zigzag_order du) k (pos 0) ≡ get_or du (scanned k) (pos 0)
  unfolding zigzag_order
  zigzag_order-get_or k h =
      ap (λ (p : ℕ). get_or (zigzag_loop du 64 0 (replicate 64 (pos 0))) p (pos 0))
        (sym (place-scanned k h))
      ∙ zigzag_loop_from 64 0 (scanned k) (replicate 64 (pos 0)) refl refl (omega arith)
          (scanned-lt k h)

  -- The reordering loop with its table gives the coefficients of any block in the order of the scan.
  pub zigzag_order_lem : zigzag_order du ≡ in_scan_order du
  unfolding in_scan_order scan_order
  zigzag_order_lem = get_or_ext (pos 0) (zigzag_order du) _ length-zigzag_order (λ k h.
      let inside : k < 64 = omega (arith, length-zigzag_order) in
      zigzag_order-get_or k inside
      ∙ sym (get_or-map_in (λ (p : ℕ). get_or du p (pos 0)) scan_order k 0 (pos 0) inside))
