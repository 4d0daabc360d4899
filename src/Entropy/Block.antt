-- ===== src/Entropy/Block.antt =====
-- `process_DU` of libusbdisp/libenc/jpeg_enc.c, in the version without SSE2: the zigzag order, the
-- difference of the DC coefficient, the runs of zeros and the codes that are written.
use jpeg_study.Prelude.{ℕ, zero, suc, ◌+◌, ◌-◌, ◌*◌, ◌/◌, ◌%◌, leb, ltb, ◌==◌}
use jpeg_study.Prelude.{if◌then◌else◌, ◌&&◌, List, get_or, set, replicate}
use jpeg_study.Prelude.Int.{ℤ, pos, ◌-ℤ◌, is_zero}
use jpeg_study.Tables.Quantization.{zigzag}
use jpeg_study.Huffman.Codes.{HuffmanTable}
use jpeg_study.Bits.Writer.{BitWriter, writebits}
use jpeg_study.Entropy.Magnitude.{category, value_data}

-- `for (i=0;i<=63;i++) ZDU[zigzag[i]]=DU[i]`.
unfoldable pub zigzag_loop : List ℤ → ℕ → ℕ → List ℤ → List ℤ
zigzag_loop du zero i zdu = zdu
zigzag_loop du (suc left) i zdu =
    zigzag_loop du left (suc i) (set zdu (get_or zigzag i 0) (get_or du i (pos 0)))

-- The local array starts with any content; all 64 entries are written.
unfoldable pub zigzag_order : List ℤ → List ℤ
unfolding zigzag_loop
zigzag_order du = zigzag_loop du 64 0 (replicate 64 (pos 0))

-- `HTDC[i]`: the two arrays of a table lie one behind the other, so that an index from 12 on reads the
-- AC codes.
unfoldable pub htdc : HuffmanTable → ℕ → ℕ
htdc ht i = if ltb i 12 then get_or ht.dc i 0 else get_or ht.ac (i - 12) 0

-- `HTAC[i]`.
unfoldable pub htac : HuffmanTable → ℕ → ℕ
htac ht i = get_or ht.ac i 0

-- `writebits` of a code and of the bits of the coefficient.
unfoldable pub encode_dc : HuffmanTable → ℤ → BitWriter → BitWriter
encode_dc ht diff w =
    if is_zero diff
    then writebits (htdc ht 0) w
    else writebits (value_data diff) (writebits (htdc ht (category diff)) w)

-- `for (end0pos=63;(end0pos>0)&&(ZDU[end0pos]==0);end0pos--)`.
unfoldable pub find_end : List ℤ → ℕ → ℕ
find_end zdu zero = 0
find_end zdu (suc n) =
    let further = find_end zdu n in if is_zero (get_or zdu (suc n) (pos 0)) then further else suc n

-- `for (; (ZDU[i]==0)&&(i<=end0pos);i++)`; every round moves `i`, so that 64 rounds are enough.
unfoldable pub skip_zeros : ℕ → List ℤ → ℕ → ℕ → ℕ
skip_zeros zero zdu end0pos i = i
skip_zeros (suc fuel) zdu end0pos i =
    let further = skip_zeros fuel zdu end0pos (suc i) in
    if is_zero (get_or zdu i (pos 0)) && leb i end0pos then further else i

-- `for (nrmarker=0;nrmarker<nrzeroes/16;nrmarker++) writebits(M16zeroes,cinfo)`.
unfoldable pub write_m16zeroes : HuffmanTable → ℕ → BitWriter → BitWriter
write_m16zeroes ht zero w = w
write_m16zeroes ht (suc n) w = write_m16zeroes ht n (writebits (htac ht 0xf0) w)

-- One round of the AC loop, for a coefficient behind `nrzeroes` zeros.
unfoldable pub encode_ac : HuffmanTable → ℕ → ℤ → BitWriter → BitWriter
encode_ac ht nrzeroes z w =
    let w = if leb 16 nrzeroes then write_m16zeroes ht (nrzeroes / 16) w else w in
    let nrzeroes = if leb 16 nrzeroes then nrzeroes % 16 else nrzeroes in
    writebits (value_data z) (writebits (htac ht (nrzeroes * 16 + category z)) w)

-- `while (i<=end0pos)`; every round moves `i`, so that 64 rounds are enough.
unfoldable pub ac_loop : ℕ → HuffmanTable → List ℤ → ℕ → ℕ → BitWriter → BitWriter
ac_loop zero ht zdu end0pos i w = w
ac_loop (suc fuel) ht zdu end0pos i w =
    let j = skip_zeros 64 zdu end0pos i in
    let further =
      ac_loop fuel ht zdu end0pos (suc j) (encode_ac ht (j - i) (get_or zdu j (pos 0)) w) in
    if leb i end0pos then further else w

-- What follows the DC coefficient: the early return if all others are 0, else the loop and the end of
-- block unless the last coefficient was written.
unfoldable pub encode_acs : HuffmanTable → List ℤ → BitWriter → BitWriter
encode_acs ht zdu w =
    let end0pos = find_end zdu 63 in
    let coded = ac_loop 64 ht zdu end0pos 1 w in
    if end0pos == 0
    then writebits (htac ht 0x00) w
    else if end0pos == 63
    then coded
    else writebits (htac ht 0x00) coded

-- The result has the writer and the new `*DC`.
pub record DuResult : Type 0 where
  pub writer : BitWriter
  pub dc : ℤ

unfoldable pub process_du : List ℤ → ℤ → HuffmanTable → BitWriter → DuResult
process_du du dc ht w =
    let zdu = zigzag_order du in
    let first = get_or du 0 (pos 0) in
    record { writer = encode_acs ht zdu (encode_dc ht (first -ℤ dc) w); dc = first }
