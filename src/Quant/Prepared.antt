-- ===== src/Quant/Prepared.antt =====
-- The divisor tables that `prepare_quant_tables` of libusbdisp/libenc/jpeg_enc.c leaves behind.
use jpeg_study.Prelude.{ℕ, zero, suc, ◌+◌, ◌≤◌, ◌<◌, ◌≡◌, ◌≢◌, refl, sym, ◌∙◌, arith}
use jpeg_study.Prelude.{List, get_or, set, length, length-set, get_or-set_self, get_or-set_ne}
use jpeg_study.Prelude.{ℕ_discrete}
use jpeg_study.Header.Infos.{DqtInfo}
use jpeg_study.Quant.Tables.{
  Reciprocal, Divisors, compute_reciprocal, store_reciprocal, divisor_of, prepare_loop,
  prepare_quant_tables,
}

-- The four numbers that a divisor table holds for coefficient `i`.
abbrev pub column : List ℕ → ℕ → Reciprocal
column dtbl i = record {
  reciprocal = get_or dtbl i 0;
  correction = get_or dtbl (i + 64) 0;
  scale = get_or dtbl (i + 128) 0;
  shift = get_or dtbl (i + 192) 0;
}

get_or-store_other :
    (i k : ℕ) (p : Reciprocal) (t : List ℕ)
    → k ≢ i
    → k ≢ i + 64
    → k ≢ i + 128
    → k ≢ i + 192
    → get_or (store_reciprocal i p t) k 0 ≡ get_or t k 0
unfolding store_reciprocal
get_or-store_other i k p t h₀ h₁ h₂ h₃ =
    get_or-set_ne _ (i + 192) k _ 0 (λ e. h₃ (sym e))
    ∙ get_or-set_ne _ (i + 128) k _ 0 (λ e. h₂ (sym e))
    ∙ get_or-set_ne _ (i + 64) k _ 0 (λ e. h₁ (sym e))
    ∙ get_or-set_ne t i k _ 0 (λ e. h₀ (sym e))

length-store_reciprocal :
    (i : ℕ) (p : Reciprocal) (t : List ℕ) → length (store_reciprocal i p t) ≡ length t
unfolding store_reciprocal
length-store_reciprocal i p t =
    length-set _ (i + 192) _ ∙ length-set _ (i + 128) _ ∙ length-set _ (i + 64) _ ∙ length-set t i _

column-store_self :
    (i : ℕ) (p : Reciprocal) (t : List ℕ)
    → length t ≡ 256
    → i < 64
    → column (store_reciprocal i p t) i ≡ p
unfolding store_reciprocal
column-store_self i p t l h = ground (arith, a, b, c, d)
  where
    a : get_or (store_reciprocal i p t) i 0 ≡ p.reciprocal
    a =
        get_or-set_ne _ (i + 192) i _ 0 (omega arith)
        ∙ get_or-set_ne _ (i + 128) i _ 0 (omega arith)
        ∙ get_or-set_ne _ (i + 64) i _ 0 (omega arith)
        ∙ get_or-set_self t i _ 0 (omega arith)

    b : get_or (store_reciprocal i p t) (i + 64) 0 ≡ p.correction
    b =
        get_or-set_ne _ (i + 192) (i + 64) _ 0 (omega arith)
        ∙ get_or-set_ne _ (i + 128) (i + 64) _ 0 (omega arith)
        ∙ get_or-set_self (set t i _) (i + 64) _ 0 (rw length-set (omega arith))

    c : get_or (store_reciprocal i p t) (i + 128) 0 ≡ p.scale
    c =
        get_or-set_ne _ (i + 192) (i + 128) _ 0 (omega arith)
        ∙ get_or-set_self (set (set t i _) (i + 64) _) (i + 128) _ 0
            (rw (length-set, length-set) (omega arith))

    d : get_or (store_reciprocal i p t) (i + 192) 0 ≡ p.shift
    d =
        get_or-set_self (set (set (set t i _) (i + 64) _) (i + 128) _) (i + 192) _ 0
          (rw (length-set, length-set, length-set) (omega arith))

column-store_other :
    (i j : ℕ) (p : Reciprocal) (t : List ℕ)
    → i < 64
    → j < 64
    → i ≢ j
    → column (store_reciprocal i p t) j ≡ column t j
column-store_other i j p t hi hj ne = ground (
  arith,
  get_or-store_other i j p t (omega arith) (omega arith) (omega arith) (omega arith),
  get_or-store_other i (j + 64) p t (omega arith) (omega arith) (omega arith) (omega arith),
  get_or-store_other i (j + 128) p t (omega arith) (omega arith) (omega arith) (omega arith),
  get_or-store_other i (j + 192) p t (omega arith) (omega arith) (omega arith) (omega arith),
)

-- Both tables hold 256 entries.
abbrev pub IsSized : Divisors → Type 0
IsSized divs = (length divs.divisor_y ≡ 256) × (length divs.divisor_cb ≡ 256)

-- The columns of coefficient `j` are the reciprocals of its two divisors.
abbrev pub HasColumn : DqtInfo → ℕ → Divisors → Type 0
HasColumn dqt j divs =
    (column divs.divisor_y j ≡ compute_reciprocal (divisor_of dqt.y_table j))
    × (column divs.divisor_cb j ≡ compute_reciprocal (divisor_of dqt.cb_table j))

module _ (dqt : DqtInfo) where
  prepare_loop_before :
      (left i j : ℕ) (divs : Divisors)
      → i + left ≡ 64
      → j < i
      → HasColumn dqt j divs
      → HasColumn dqt j (prepare_loop dqt left i divs)
  unfolding prepare_loop
  prepare_loop_before zero i j divs e h c = c
  prepare_loop_before (suc left) i j divs e h c =
      prepare_loop_before left (suc i) j _ (omega arith) (omega arith) (
        column-store_other i j _ divs.divisor_y (omega arith) (omega arith) (omega arith) ∙ c.0,
        column-store_other i j _ divs.divisor_cb (omega arith) (omega arith) (omega arith) ∙ c.1,
      )

  prepare_loop_from :
      (left i j : ℕ) (divs : Divisors)
      → i + left ≡ 64
      → IsSized divs
      → i ≤ j
      → j < 64
      → HasColumn dqt j (prepare_loop dqt left i divs)
  unfolding prepare_loop
  prepare_loop_from zero i j divs e l h k = absurd (omega arith)
  prepare_loop_from (suc left) i j divs e l h k = elim (ℕ_discrete i j) [
    | yes p ↦ rw (← p) (
        prepare_loop_before left (suc i) i _ (omega arith) (omega arith) (
          column-store_self i _ divs.divisor_y l.0 (omega arith),
          column-store_self i _ divs.divisor_cb l.1 (omega arith),
        ))
    | no p ↦
        prepare_loop_from left (suc i) j _ (omega arith)
          (
            length-store_reciprocal i _ divs.divisor_y ∙ l.0,
            length-store_reciprocal i _ divs.divisor_cb ∙ l.1,
          )
          (omega arith) k
  ]

-- Whatever the two tables of 256 entries held before, the four numbers of every coefficient `j` below 64
-- end as the reciprocals of its two divisors.
pub prepare_quant_tables-HasColumn :
    (dqt : DqtInfo) (divs : Divisors) (j : ℕ)
    → IsSized divs
    → j < 64
    → HasColumn dqt j (prepare_quant_tables dqt divs)
unfolding prepare_quant_tables
prepare_quant_tables-HasColumn dqt divs j l h =
    prepare_loop_from dqt 64 0 j divs refl l (omega arith) h
