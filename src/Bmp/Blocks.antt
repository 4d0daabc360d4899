-- ===== src/Bmp/Blocks.antt =====
-- Counted loops of libusbdisp/jpegenc.c in which every round fills the next places of a buffer.
use jpeg_study.Prelude.{ℕ, zero, suc, ◌+◌, ◌*◌, ◌≤◌, ◌<◌, ◌≡◌, refl, ap, ◌∙◌, arith}
use jpeg_study.Prelude.{
  List, [], ◌++◌, get_or, length, length-append, get_or-append_left, get_or-append_right,
}

module _ {ℓ} {A : Type ℓ} where
  -- `for (i = first; n rounds; i++)`: what the rounds fill, in order.
  abbrev pub filled : ℕ → ℕ → (ℕ → List A) → List A
  filled zero i round = []
  filled (suc left) i round = round i ++ filled left (suc i) round

  pub filled_ext :
      (n i : ℕ) (f g : ℕ → List A)
      → ((k : ℕ) → i ≤ k → k < i + n → f k ≡ g k)
      → filled n i f ≡ filled n i g
  filled_ext zero i f g h = refl
  filled_ext (suc n) i f g h =
      ap (λ xs. xs ++ filled n (suc i) f) (h i (omega arith) (omega arith))
      ∙ ap (λ ys. g i ++ ys) (filled_ext n (suc i) f g (λ k p q. h k (omega arith) (omega arith)))

  module _ (p : ℕ) (f : ℕ → List A) where
    pub length-filled :
        (n i : ℕ) → ((k : ℕ) → i ≤ k → k < i + n → length (f k) ≡ p) → length (filled n i f) ≡ n * p
    length-filled zero i sized = omega arith
    length-filled (suc n) i sized =
        length-append (f i) (filled n (suc i) f)
        ∙ grind (
          arith,
          sized i (omega arith) (omega arith),
          length-filled n (suc i) (λ k h l. sized k (omega arith) (omega arith)),
        )

    -- Where every round fills `p` places, place `c` of round `r` is place `r * p + c` of the buffer.
    pub get_or-filled :
        (n i r c : ℕ) (d : A)
        → ((k : ℕ) → i ≤ k → k < i + n → length (f k) ≡ p)
        → r < n
        → c < p
        → get_or (filled n i f) (r * p + c) d ≡ get_or (f (i + r)) c d
    get_or-filled zero i r c d sized hr hc = absurd (omega arith)
    get_or-filled (suc n) i zero c d sized hr hc =
        let here : 0 * p + c ≡ c = omega arith in
        let first : i + 0 ≡ i = omega arith in
        rw (here, first)
          (get_or-append_left (f i) _ c d (omega (arith, sized i (omega arith) (omega arith))))
    get_or-filled (suc n) i (suc r) c d sized hr hc =
        let behind : suc r * p + c ≡ length (f i) + (r * p + c) =
          omega (arith, sized i (omega arith) (omega arith)) in
        let next : i + suc r ≡ suc i + r = omega arith in
        rw (behind, next)
          (get_or-append_right (f i) _ (r * p + c) d
            ∙ get_or-filled n (suc i) r c d (λ k h l. sized k (omega arith) (omega arith))
                (omega arith) hc)
