-- ===== src/Huffman/Decode.antt =====
-- The decoder's side (section F.2.2.3), written from the counts and values of a DHT segment alone, for
-- the codes of libusbdisp/libenc/jpeg_enc.c.
use jpeg_study.Prelude.{ℕ, zero, suc, ◌+◌, ◌-◌, ◌*◌, ◌/◌, ◌%◌, ◌^◌, ◌≤◌, ◌<◌, ◌≡◌, ◌≢◌, refl}
use jpeg_study.Prelude.{
  arith, Bool, true, false, Option, none, some, List, [], ◌∷◌, ◌++◌, ◌&&◌, ◌||◌,
}
use jpeg_study.Prelude.{leb, ltb, ◌==◌, if◌then◌else◌, get_or, drop}
use jpeg_study.Bits.Digits.{bits_of}

abbrev pub bit_value : Bool → ℕ
bit_value true = 1
bit_value false = 0

-- Reads one bit for each length. `first` is the first code of the length, `code` the bits read so far;
-- a code below `first + n` is found, and its value stands at its distance from `first`.
unfoldable pub decode_symbol : List ℕ → List ℕ → ℕ → ℕ → List Bool → Option (ℕ × List Bool)
decode_symbol [] values first code bits = none
decode_symbol (n ∷ counts) values first code [] = none
decode_symbol (n ∷ counts) values first code (b ∷ bits) =
    let read = 2 * code + bit_value b in
    let further = decode_symbol counts (drop n values) (2 * (first + n)) read bits in
    if ltb read (first + n) then some (get_or values (read - first) 0, bits) else further

-- What is found does not depend on the bits behind the code.
pub decode_symbol-append :
    (counts values : List ℕ) (first code : ℕ) (bits more : List Bool) (s : ℕ) (rest : List Bool)
    → decode_symbol counts values first code bits ≡ some (s, rest)
    → decode_symbol counts values first code (bits ++ more) ≡ some (s, rest ++ more)
unfolding decode_symbol
decode_symbol-append [] values first code bits more s rest e = cc
decode_symbol-append (n ∷ counts) values first code [] more s rest e = cc
decode_symbol-append (n ∷ counts) values first code (b ∷ bits) more s rest e = ground (
  arith,
  decode_symbol-append counts (drop n values) (2 * (first + n)) (2 * code + bit_value b) bits more s
      rest,
)

-- Entry `e` of a table is unused, or its bits decode to symbol `v` with nothing left.
unfoldable pub entry_ok : List ℕ → List ℕ → ℕ → ℕ → Bool
entry_ok counts values v e =
    let found = decode_symbol counts values 0 0 (bits_of (e % 2 ^ 16) (e / 2 ^ 16)) in
    let good : Bool = elim found [
      | none ↦ false
      | some (s, rest) ↦ elim rest [ [] ↦ s == v | b ∷ more ↦ false ]
    ] in
    (e == 0) || (leb (e % 2 ^ 16) 16 && ltb 0 (e % 2 ^ 16) && good)

unfoldable pub entries_ok : List ℕ → List ℕ → ℕ → List ℕ → Bool
entries_ok counts values v [] = true
entries_ok counts values v (e ∷ ht) =
    entry_ok counts values v e && entries_ok counts values (suc v) ht

-- Entry `e` holds a code of 1 to 16 bits, which a decoder reads as symbol `v` whatever follows it.
pub record Decodes (counts values : List ℕ) (v e : ℕ) : Type 0 where
  pub len_pos : 0 < e % 2 ^ 16
  pub len_le : e % 2 ^ 16 ≤ 16
  pub read_back :
      (more : List Bool)
      → decode_symbol counts values 0 0 (bits_of (e % 2 ^ 16) (e / 2 ^ 16) ++ more) ≡ some (v, more)

entry_ok-Decodes :
    (counts values : List ℕ) (v e : ℕ)
    → entry_ok counts values v e ≡ true
    → e ≢ 0
    → Decodes counts values v e
unfolding entry_ok
entry_ok-Decodes counts values v e h used = record {
  len_pos = ground arith;
  len_le = ground arith;
  read_back = λ more.
      decode_symbol-append counts values 0 0 (bits_of (e % 2 ^ 16) (e / 2 ^ 16)) more v []
        (ground arith);
}

pub entries_ok-Decodes :
    (counts values : List ℕ) (v : ℕ) (ht : List ℕ) (j : ℕ)
    → entries_ok counts values v ht ≡ true
    → get_or ht j 0 ≢ 0
    → Decodes counts values (v + j) (get_or ht j 0)
unfolding entries_ok
entries_ok-Decodes counts values v [] j h used = absurd (used refl)
entries_ok-Decodes counts values v (e ∷ ht) zero h used =
    let here : v + 0 ≡ v = omega arith in
    rw here (entry_ok-Decodes counts values v e (ground arith) used)
entries_ok-Decodes counts values v (e ∷ ht) (suc j) h used =
    let next : v + suc j ≡ suc v + j = omega arith in
    rw next (entries_ok-Decodes counts values (suc v) ht j (ground arith) used)
