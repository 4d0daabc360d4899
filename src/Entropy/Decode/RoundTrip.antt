-- ===== src/Entropy/Decode/RoundTrip.antt =====
-- The decoder reads back what `process_DU` of libusbdisp/libenc/jpeg_enc.c writes: the AC coefficients.
use mathlib.Core.Path.{subst, ap₂}
use mathlib.Core.List.{append_assoc, append-nil}
use native.Mathlib.Nat.{div-div-eq-div-mul, pow-suc, div-eq_of_lt}
use jpeg_study.Prelude.{
  ℕ, zero, suc, ◌+◌, ◌-◌, ◌*◌, ◌/◌, ◌%◌, ◌^◌, ◌≤◌, ◌<◌, ◌≡◌, refl, sym, ap, ◌∙◌,
}
use jpeg_study.Prelude.{arith, Bool, true, false, leb, ◌==◌, Bool-cases, inl, inr}
use jpeg_study.Prelude.{Option, none, some, List, [], ◌∷◌, ◌++◌, length, All, get_or, replicate}
use jpeg_study.Prelude.Int.{ℤ, pos, magnitude, is_zero, is_zero→eq}
use jpeg_study.Bits.Digits.{bits_of}
use jpeg_study.Huffman.Decode.{bit_value}
use jpeg_study.Huffman.Tables.{CodeTable, IsComplete}
use jpeg_study.Entropy.Magnitude.{size, magnitude_code, extend-magnitude_code}
use jpeg_study.Entropy.Code.{code_bits, coefficient_bits, zeros_bits, run_bits, ac_bits}
use jpeg_study.Entropy.Written.{size_bounds, magnitude-pos}
use jpeg_study.Entropy.Decode.{
  read_bits, to_coefficient, behind_zeros, entry_of_symbol, prepend, from_entry, decode_acs,
}

read_bits-high :
    (n v : ℕ) (more : List Bool) → read_bits n (v / 2 ^ n) (bits_of n v ++ more) ≡ some (v, more)
unfolding read_bits bits_of
read_bits-high zero v more =
    let same : v / 2 ^ 0 ≡ v = omega arith in ap (λ (t : ℕ). some (t, more)) same
read_bits-high (suc n) v more = rw next (read_bits-high n v more)
  where
    half : v / 2 ^ suc n ≡ v / 2 ^ n / 2
    half = ap (λ (t : ℕ). v / t) (pow-suc 2 n) ∙ sym (div-div-eq-div-mul v (2 ^ n) 2)

    next : 2 * (v / 2 ^ suc n) + bit_value (v / 2 ^ n % 2 == 1) ≡ v / 2 ^ n
    next = ground (arith, half)

pub read_bits-bits_of :
    (n v : ℕ) (more : List Bool) → v < 2 ^ n → read_bits n 0 (bits_of n v ++ more) ≡ some (v, more)
read_bits-bits_of n v more h =
    subst (λ (t : ℕ). read_bits n t (bits_of n v ++ more) ≡ some (v, more)) (div-eq_of_lt h)
      (read_bits-high n v more)

-- A coefficient other than 0 comes back from its category and bits.
pub to_coefficient-bits :
    (z : ℤ) (more : List Bool)
    → is_zero z ≡ false
    → magnitude z < 2 ^ 16
    → to_coefficient (size z) (read_bits (size z) 0 (coefficient_bits z ++ more)) ≡ some (z, more)
unfolding to_coefficient
to_coefficient-bits z more nonzero small =
    let back = extend-magnitude_code z (magnitude-pos z nonzero) small in
    let used : (size z == 0) ≡ false = ground (arith, size_bounds z 16 nonzero small) in
    rw (read_bits-bits_of (size z) (magnitude_code z) more back.1, used, back.0) refl

replicate-append : (m n : ℕ) (z : ℤ) → replicate m z ++ replicate n z ≡ replicate (m + n) z
replicate-append zero n z = let e : zero + n ≡ n = omega arith in rw e
replicate-append (suc m) n z =
    let e : suc m + n ≡ suc (m + n) = omega arith in rw e (ap (◌∷◌ z) (replicate-append m n z))

replicate-cons :
    (n : ℕ) (zs : List ℤ) → replicate n (pos 0) ++ pos 0 ∷ zs ≡ pos 0 ∷ (replicate n (pos 0) ++ zs)
replicate-cons zero zs = refl
replicate-cons (suc n) zs = ap (◌∷◌ (pos 0)) (replicate-cons n zs)

prepend-prepend :
    (a b : List ℤ) (r : Option (List ℤ × List Bool)) → prepend a (prepend b r) ≡ prepend (a ++ b) r
unfolding prepend
prepend-prepend a b none = refl
prepend-prepend a b (some (c, bits)) = ap (λ zs. some (zs, bits)) (sym (append_assoc a b c))

prepend-nil : (r : Option (List ℤ × List Bool)) → prepend [] r ≡ r
unfolding prepend
prepend-nil none = refl
prepend-nil (some (c, bits)) = refl

length-replicate_one : (r : ℕ) (z : ℤ) → length (replicate r (pos 0) ++ z ∷ []) ≡ suc r
length-replicate_one zero z = refl
length-replicate_one (suc r) z = ap suc (length-replicate_one r z)

module _ (t : CodeTable) (complete : IsComplete t) where
  abbrev decode : ℕ → ℕ → List Bool → Option (List ℤ × List Bool)
  decode fuel left bits = decode_acs t.ac_counts t.ac_values fuel left bits

  -- An end of block gives zeros for all that is left.
  decode-end :
      (fuel left : ℕ) (more : List Bool)
      → 0 < left
      → decode (suc fuel) left (code_bits (get_or t.ht.ac 0 0) ++ more)
        ≡ some (replicate left (pos 0), more)
  unfolding decode_acs from_entry entry_of_symbol
  decode-end fuel left more h =
      let some_left : (left == 0) ≡ false = ground arith in
      rw (some_left, complete.end_of_block.read_back more) refl

  decode-sixteen :
      (fuel left : ℕ) (more : List Bool)
      → 16 ≤ left
      → decode (suc fuel) left (code_bits (get_or t.ht.ac 0xf0 0) ++ more)
        ≡ prepend (replicate 16 (pos 0)) (decode fuel (left - 16) more)
  unfolding decode_acs from_entry entry_of_symbol
  decode-sixteen fuel left more h =
      let some_left : (left == 0) ≡ false = ground arith in
      let room : leb 16 left ≡ true = ground arith in
      rw (some_left, complete.sixteen_zeros.read_back more, room) refl

  decode-run :
      (fuel left r : ℕ) (z : ℤ) (more : List Bool)
      → r < 16
      → r < left
      → is_zero z ≡ false
      → magnitude z < 2 ^ 10
      → decode
          (suc fuel)
          left
          (code_bits (get_or t.ht.ac (r * 16 + size z) 0) ++ (coefficient_bits z ++ more))
        ≡ prepend (replicate r (pos 0) ++ z ∷ []) (decode fuel (left - suc r) more)
  unfolding decode_acs from_entry entry_of_symbol behind_zeros
  decode-run fuel left r z more low inside nonzero small =
      let bounds = size_bounds z 10 nonzero small in
      let symbol = complete.run_symbol r (size z) low bounds.0 bounds.1 in
      let s = r * 16 + size z in
      let some_left : (left == 0) ≡ false = ground arith in
      let not_end : (s == 0) ≡ false = ground (arith, bounds) in
      let not_zeros : (s == 0xf0) ≡ false = ground (arith, bounds) in
      let run : s / 16 ≡ r = omega (arith, bounds) in
      let cat : s % 16 ≡ size z = omega (arith, bounds) in
      let room : leb (suc r) left ≡ true = ground arith in
      rw
        (
          some_left,
          symbol.read_back (coefficient_bits z ++ more),
          not_end,
          not_zeros,
          run,
          cat,
          to_coefficient-bits z more nonzero (omega arith),
          length-replicate_one r z,
          room,
        )
        refl

  decode-zeros_bits :
      (n fuel left : ℕ) (more : List Bool)
      → n * 16 ≤ left
      → decode (n + fuel) left (zeros_bits t.ht n ++ more)
        ≡ prepend (replicate (n * 16) (pos 0)) (decode fuel (left - n * 16) more)
  unfolding zeros_bits
  decode-zeros_bits zero fuel left more h =
      let same : zero + fuel ≡ fuel = omega arith in
      let all : left - zero * 16 ≡ left = omega arith in
      rw (same, all) (sym (prepend-nil (decode fuel left more)))
  decode-zeros_bits (suc n) fuel left more h =
      let e : suc n + fuel ≡ suc (n + fuel) = omega arith in
      let zrl = code_bits (get_or t.ht.ac 0xf0 0) in
      let count : 16 + n * 16 ≡ suc n * 16 = omega arith in
      let all : left - 16 - n * 16 ≡ left - suc n * 16 = omega arith in
      rw (e, append_assoc zrl (zeros_bits t.ht n) more)
        (decode-sixteen (n + fuel) left (zeros_bits t.ht n ++ more) (omega arith)
          ∙ ap (prepend (replicate 16 (pos 0)))
              (decode-zeros_bits n fuel (left - 16) more (omega arith))
          ∙ prepend-prepend (replicate 16 (pos 0)) (replicate (n * 16) (pos 0)) _
          ∙ ap₂ (λ zs l. prepend zs (decode fuel l more))
              (replicate-append 16 (n * 16) (pos 0) ∙ ap (λ k. replicate k (pos 0)) count) all)

  -- A coefficient behind any number of zeros that are left.
  decode-run_bits :
      (fuel left run : ℕ) (z : ℤ) (more : List Bool)
      → run < left
      → is_zero z ≡ false
      → magnitude z < 2 ^ 10
      → decode (run / 16 + suc fuel) left (run_bits t.ht run z ++ more)
        ≡ prepend (replicate run (pos 0) ++ z ∷ []) (decode fuel (left - suc run) more)
  unfolding run_bits
  decode-run_bits fuel left run z more inside nonzero small =
      let n = run / 16 in
      let r = run % 16 in
      let code = code_bits (get_or t.ht.ac (r * 16 + size z) 0) in
      let count : n * 16 + r ≡ run = omega arith in
      let all : left - n * 16 - suc r ≡ left - suc run = omega arith in
      rw
        (
          append_assoc (zeros_bits t.ht n) (code ++ coefficient_bits z) more,
          append_assoc code (coefficient_bits z) more,
        )
        (decode-zeros_bits n (suc fuel) left _ (omega arith)
          ∙ ap (prepend (replicate (n * 16) (pos 0)))
              (decode-run fuel (left - n * 16) r z more (omega arith) (omega arith) nonzero small)
          ∙ prepend-prepend (replicate (n * 16) (pos 0)) (replicate r (pos 0) ++ z ∷ []) _
          ∙ ap₂ (λ zs l. prepend zs (decode fuel l more))
              (sym (append_assoc (replicate (n * 16) (pos 0)) (replicate r (pos 0)) (z ∷ []))
                ∙ ap (λ zs. zs ++ z ∷ [])
                    (replicate-append (n * 16) r (pos 0) ∙ ap (λ k. replicate k (pos 0)) count))
              all)

  -- The code of the coefficients from some place on, behind `run` zeros, gives them back with the zeros.
  pub decode-ac_bits :
      (zs : List ℤ) (run fuel : ℕ) (more : List Bool)
      → run + length zs ≤ fuel
      → All (λ z. magnitude z < 2 ^ 10) zs
      → decode fuel (run + length zs) (ac_bits t.ht run zs ++ more)
        ≡ some (replicate run (pos 0) ++ zs, more)
  unfolding ac_bits prepend
  decode-ac_bits [] zero zero more enough small = unfold decode_acs in refl
  decode-ac_bits [] zero (suc fuel) more enough small = unfold decode_acs in refl
  decode-ac_bits [] (suc run) zero more enough small = absurd (omega arith)
  decode-ac_bits [] (suc run) (suc fuel) more enough small =
      let all : suc run + 0 ≡ suc run = omega arith in
      let some_zeros : (suc run == 0) ≡ false = ground arith in
      rw (all, some_zeros, append-nil (replicate (suc run) (pos 0)))
        (decode-end fuel (suc run) more (omega arith))
  decode-ac_bits (z ∷ zs) run fuel more enough small = elim (Bool-cases (is_zero z)) [
    | inl zero_z ↦
        let all : suc run + length zs ≡ run + suc (length zs) = omega arith in
        let r = decode-ac_bits zs (suc run) fuel more (omega arith) small.1 in
        rw (zero_z, ← all)
          (r
            ∙ ap (λ l. some (l, more))
                (sym (replicate-cons run zs)
                  ∙ ap (λ y. replicate run (pos 0) ++ y ∷ zs) (sym (is_zero→eq z zero_z))))
    | inr nonzero ↦
        let left = fuel - run / 16 - 1 in
        let split : run / 16 + suc left ≡ fuel = omega arith in
        let all : run + suc (length zs) - suc run ≡ 0 + length zs = omega arith in
        let r = decode-ac_bits zs 0 left more (omega arith) small.1 in
        rw (nonzero, append_assoc (run_bits t.ht run z) (ac_bits t.ht 0 zs) more)
          (subst
            (λ n.
              decode n (run + suc (length zs)) (run_bits t.ht run z ++ (ac_bits t.ht 0 zs ++ more))
              ≡ some (replicate run (pos 0) ++ z ∷ zs, more))
            split
            (decode-run_bits left (run + suc (length zs)) run z (ac_bits t.ht 0 zs ++ more)
                (omega arith) nonzero small.0
              ∙ ap
                  (λ n.
                    prepend (replicate run (pos 0) ++ z ∷ [])
                      (decode left n (ac_bits t.ht 0 zs ++ more)))
                  all
              ∙ ap (prepend (replicate run (pos 0) ++ z ∷ [])) r
              ∙ ap (λ l. some (l, more)) (append_assoc (replicate run (pos 0)) (z ∷ []) zs)))
  ]
