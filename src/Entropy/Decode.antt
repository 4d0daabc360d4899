-- ===== src/Entropy/Decode.antt =====
-- A decoder of blocks (sections F.2.2.1 and F.2.2.2 of the standard) that knows the counts and values of
-- the DHT segments alone, for what `process_DU` of libusbdisp/libenc/jpeg_enc.c writes.
pub mod RoundTrip
pub mod Block
use jpeg_study.Prelude.{ℕ, zero, suc, ◌+◌, ◌-◌, ◌*◌, ◌/◌, ◌%◌, Bool, true, false, leb, ◌==◌}
use jpeg_study.Prelude.{if◌then◌else◌, Option, none, some, List, [], ◌∷◌, ◌++◌, length, replicate}
use jpeg_study.Prelude.Int.{ℤ, pos, ◌+ℤ◌}
use jpeg_study.Huffman.Decode.{bit_value, decode_symbol}
use jpeg_study.Huffman.Tables.{CodeTable}
use jpeg_study.Entropy.Magnitude.{extend}

-- The number that the next `n` bits stand for, behind those of `read`.
unfoldable pub read_bits : ℕ → ℕ → List Bool → Option (ℕ × List Bool)
read_bits zero read bits = some (read, bits)
read_bits (suc n) read [] = none
read_bits (suc n) read (b ∷ bits) = read_bits n (2 * read + bit_value b) bits

-- What a symbol of the AC table stands for.
pub data Entry : Type 0 where
  end_of_block : Entry
  coefficients : List ℤ → Entry

-- The coefficient of category `cat`; category 0 has no bits.
unfoldable pub to_coefficient : ℕ → Option (ℕ × List Bool) → Option (ℤ × List Bool)
to_coefficient cat none = none
to_coefficient cat (some (v, bits)) = some (if cat == 0 then pos 0 else extend cat v, bits)

unfoldable pub behind_zeros : ℕ → Option (ℤ × List Bool) → Option (Entry × List Bool)
behind_zeros run none = none
behind_zeros run (some (z, bits)) = some (coefficients (replicate run (pos 0) ++ z ∷ []), bits)

unfoldable pub entry_of_symbol : Option (ℕ × List Bool) → Option (Entry × List Bool)
entry_of_symbol none = none
entry_of_symbol (some (s, bits)) =
    if s == 0
    then some (end_of_block, bits)
    else if s == 0xf0
    then some (coefficients (replicate 16 (pos 0)), bits)
    else behind_zeros (s / 16) (to_coefficient (s % 16) (read_bits (s % 16) 0 bits))

unfoldable pub prepend : List ℤ → Option (List ℤ × List Bool) → Option (List ℤ × List Bool)
prepend zs none = none
prepend zs (some (rest, bits)) = some (zs ++ rest, bits)

-- `left` coefficients from an entry on; `further` reads those behind it.
unfoldable pub from_entry :
    ℕ
    → (ℕ → List Bool → Option (List ℤ × List Bool))
    → Option (Entry × List Bool)
    → Option (List ℤ × List Bool)
from_entry left further none = none
from_entry left further (some (end_of_block, bits)) = some (replicate left (pos 0), bits)
from_entry left further (some (coefficients zs, bits)) =
    if leb (length zs) left then prepend zs (further (left - length zs) bits) else none

-- Every entry has a coefficient at least, so that `left` rounds are enough.
unfoldable pub decode_acs : List ℕ → List ℕ → ℕ → ℕ → List Bool → Option (List ℤ × List Bool)
decode_acs counts values zero left bits = if left == 0 then some ([], bits) else none
decode_acs counts values (suc fuel) left bits =
    if left == 0
    then some ([], bits)
    else from_entry left (λ l b. decode_acs counts values fuel l b)
        (entry_of_symbol (decode_symbol counts values 0 0 bits))

-- The other coefficients behind the first, which is `previous` and the difference read.
unfoldable pub behind_dc : CodeTable → ℤ → Option (ℤ × List Bool) → Option (List ℤ × List Bool)
behind_dc t previous none = none
behind_dc t previous (some (diff, bits)) =
    prepend ((previous +ℤ diff) ∷ []) (decode_acs t.ac_counts t.ac_values 63 63 bits)

unfoldable pub dc_of_symbol : Option (ℕ × List Bool) → Option (ℤ × List Bool)
dc_of_symbol none = none
dc_of_symbol (some (cat, bits)) = to_coefficient cat (read_bits cat 0 bits)

-- The 64 coefficients of a block, in the order of the scan.
unfoldable pub decode_block : CodeTable → ℤ → List Bool → Option (List ℤ × List Bool)
decode_block t previous bits =
    behind_dc t previous (dc_of_symbol (decode_symbol t.dc_counts t.dc_values 0 0 bits))
