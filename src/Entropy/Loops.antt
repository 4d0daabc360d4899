-- ===== src/Entropy/Loops.antt =====
-- The loop of `process_DU` of libusbdisp/libenc/jpeg_enc.c over the coefficients behind the DC
-- coefficient, and the whole function.
use mathlib.Core.Path.{subst}
use mathlib.Core.List.{append_assoc, append-nil}
use jpeg_study.Prelude.{ℕ, zero, suc, ◌+◌, ◌-◌, ◌≤◌, ◌<◌, ◌^◌, ◌≡◌, refl, sym, ap, ◌∙◌, arith}
use jpeg_study.Prelude.{Bool, true, false, leb, ◌==◌, Bool-cases, inl, inr, if◌then◌else◌}
use jpeg_study.Prelude.{List, [], ◌∷◌, ◌++◌, get_or, drop, length, drop-get_or, drop-length}
use jpeg_study.Prelude.Int.{ℤ, pos, is_zero, magnitude}
use jpeg_study.Stream.{ByteStream}
use jpeg_study.Huffman.Codes.{HuffmanTable}
use jpeg_study.Huffman.Tables.{CodeTable, IsComplete}
use jpeg_study.Bits.Writer.{BitWriter, writebits}
use jpeg_study.Bits.Queue.{Carries}
use jpeg_study.Entropy.Block.{htac, find_end, skip_zeros, encode_ac, ac_loop, encode_acs}
use jpeg_study.Entropy.Code.{code_bits, ac_bits, run_bits}
use jpeg_study.Entropy.Written.{entry-Carries, encode_ac-Carries}
use jpeg_study.Entropy.Scan.{coef, IsEnd, find_end-IsEnd, skip_zeros-Skips, code-zeros}

-- The coefficients behind the DC coefficient fit the categories of the AC table.
abbrev pub IsSmall : List ℤ → Type 0
IsSmall zdu = (k : ℕ) → 1 ≤ k → k < 64 → magnitude (coef zdu k) < 2 ^ 10

-- The bits that carry a block from coefficient `i` up to the last one that is not 0.
record Coded (base : ByteStream) (bits : List Bool) (w : BitWriter) (behind all : List Bool)
    : Type 0 where
  coded : List Bool
  carries : Carries base (bits ++ coded) w
  same : coded ++ behind ≡ all

-- A coefficient that is 0 adds to the run.
ac_bits-zero :
    (ht : HuffmanTable) (run : ℕ) (z : ℤ) (zs : List ℤ)
    → is_zero z ≡ true
    → ac_bits ht run (z ∷ zs) ≡ ac_bits ht (suc run) zs
unfolding ac_bits
ac_bits-zero ht run z zs h = rw h refl

-- Only zeros are left: an end of block, or nothing at the end of the list.
ac_bits-zeros :
    (ht : HuffmanTable) (zdu : List ℤ)
    → length zdu ≡ 64
    → (left run i : ℕ) → i + left ≡ 64
    → ((k : ℕ) → i ≤ k → k < 64 → is_zero (coef zdu k) ≡ true)
    → ac_bits ht run (drop i zdu) ≡ (if run + left == 0 then [] else code_bits (get_or ht.ac 0 0))
unfolding ac_bits
ac_bits-zeros ht zdu sized left run i e zeros =
    code-zeros (ac_bits ht) (ac_bits-zero ht) zdu left run i (omega arith)
      (λ k h l. zeros k h (omega arith))

module _ (base : ByteStream) (t : CodeTable) (complete : IsComplete t) (zdu : List ℤ)
    (sized : length zdu ≡ 64) (small : IsSmall zdu) where
  -- A coefficient that is not 0, behind `run` zeros.
  ac_bits-run :
      (run i : ℕ)
      → i < 64
      → is_zero (coef zdu i) ≡ false
      → ac_bits t.ht run (drop i zdu)
        ≡ run_bits t.ht run (coef zdu i) ++ ac_bits t.ht 0 (drop (suc i) zdu)
  unfolding ac_bits
  ac_bits-run run i h z = rw (drop-get_or zdu i (pos 0) (omega arith), z)

  ac_loop-Coded :
      (e : ℕ)
      → e < 64
      → is_zero (coef zdu e) ≡ false
      → (fuel i : ℕ) → 1 ≤ i
      → i ≤ suc e
      → e < i + fuel
      → (bits : List Bool) (w : BitWriter) → Carries base bits w
      → Coded base bits
          (ac_loop fuel t.ht zdu e i w)
          (ac_bits t.ht 0 (drop (suc e) zdu))
          (ac_bits t.ht 0 (drop i zdu))
  unfolding ac_loop
  ac_loop-Coded e inside last zero i low high enough bits w c =
      let at_end : i ≡ suc e = omega arith in
      record {
        coded = [];
        carries = rw append-nil c;
        same = ap (λ k. ac_bits t.ht 0 (drop k zdu)) (sym at_end);
      }
  ac_loop-Coded e inside last (suc fuel) i low high enough bits w c = elim (Bool-cases (leb i e)) [
    | inl more ↦
        let low_enough : i ≤ e = ground arith in
        let skip =
          skip_zeros-Skips (ac_bits t.ht) (ac_bits-zero t.ht) zdu 64 e i 0 low_enough (omega arith)
            (omega arith) last in
        let j = skip_zeros 64 zdu e i in
        let run = j - i in
        let at_start : 0 + run ≡ run = omega arith in
        let z = coef zdu j in
        let fits = small j (omega (arith, skip.from)) (omega (arith, skip.upto)) in
        let c' = encode_ac-Carries base t complete run z bits w skip.found fits c in
        let w' = encode_ac t.ht run z w in
        let r =
          ac_loop-Coded e inside last fuel (suc j) (omega arith) (omega (arith, skip.upto))
            (omega (arith, skip.from)) (bits ++ run_bits t.ht run z) w' c' in
        rw more (record {
          coded = run_bits t.ht run z ++ r.coded;
          carries =
              subst (λ b. Carries base b (ac_loop fuel t.ht zdu e (suc j) w'))
                (append_assoc bits (run_bits t.ht run z) r.coded) r.carries;
          same =
              append_assoc (run_bits t.ht run z) r.coded _
              ∙ ap (λ b. run_bits t.ht run z ++ b) r.same
              ∙ sym (ac_bits-run run j (omega (arith, skip.upto)) skip.found)
              ∙ ap (λ (n : ℕ). ac_bits t.ht n (drop j zdu)) (sym at_start)
              ∙ sym skip.same_code;
        })
    | inr over ↦
        let at_end : i ≡ suc e = ground arith in
        rw over (record {
          coded = [];
          carries = rw append-nil c;
          same = ap (λ k. ac_bits t.ht 0 (drop k zdu)) (sym at_end);
        })
  ]

  -- Nothing stands behind the last coefficient of all.
  ac_bits-end : (e : ℕ) → e ≡ 63 → ac_bits t.ht 0 (drop (suc e) zdu) ≡ []
  ac_bits-end e h = rw (drop-length zdu (suc e) (omega arith)) (unfold ac_bits in refl)

  -- Zeros behind the last coefficient are coded by an end of block.
  trailing_zeros :
      (e : ℕ)
      → IsEnd zdu 63 e
      → e < 63
      → 0 < e
      → ac_bits t.ht 0 (drop (suc e) zdu) ≡ code_bits (get_or t.ht.ac 0 0)
  trailing_zeros e found h p =
      let some_left : (0 + (63 - e) == 0) ≡ false = ground arith in
      ac_bits-zeros t.ht zdu sized (63 - e) 0 (suc e) (omega arith)
        (λ k l m. found.zeros_behind k (omega arith) (omega arith))
      ∙ ap (λ b. if b then [] else code_bits (get_or t.ht.ac 0 0)) some_left

  -- What follows the DC coefficient carries the code of the other 63, whether the block ends in a
  -- coefficient, in zeros or has zeros only.
  pub encode_acs-Carries :
      (bits : List Bool) (w : BitWriter)
      → Carries base bits w
      → Carries base (bits ++ ac_bits t.ht 0 (drop 1 zdu)) (encode_acs t.ht zdu w)
  unfolding encode_acs
  encode_acs-Carries bits w c =
      let found = find_end-IsEnd zdu 63 in
      let eob = get_or t.ht.ac 0 0 in
      let short = complete.end_of_block.len_le in
      elim (Bool-cases (find_end zdu 63 == 0)) [
        | inl none ↦
            let only =
              ac_bits-zeros t.ht zdu sized 63 0 1 (omega arith)
                (λ k h l. found.zeros_behind k (ground arith) (omega arith)) in
            rw (none, only) (unfold htac in entry-Carries base bits w c eob short)
        | inr nonzero ↦
            let e = find_end zdu 63 in
            let inside : e < 64 = omega (arith, found.within) in
            let r =
              ac_loop-Coded e inside (found.last (ground arith)) 64 1 (omega arith) (omega arith)
                (omega arith) bits w c in
            elim (Bool-cases (find_end zdu 63 == 63)) [
              | inl full ↦
                  let nothing = ac_bits-end e (ground arith) in
                  rw (nonzero, full)
                    (subst (λ b. Carries base (bits ++ b) (ac_loop 64 t.ht zdu e 1 w))
                      (sym (append-nil r.coded) ∙ ap (λ b. r.coded ++ b) (sym nothing) ∙ r.same)
                      r.carries)
              | inr left_over ↦
                  let zeros =
                    trailing_zeros e found (ground (arith, found.within)) (ground arith) in
                  rw (nonzero, left_over)
                    (unfold htac in
                      subst (λ b. Carries base b (writebits eob (ac_loop 64 t.ht zdu e 1 w)))
                        (append_assoc bits r.coded (code_bits eob)
                          ∙ ap (λ b. bits ++ (r.coded ++ b)) (sym zeros)
                          ∙ ap (λ b. bits ++ b) r.same)
                        (entry-Carries base (bits ++ r.coded) _ r.carries eob short))
            ]
      ]
