-- ===== src/Sse2/Block.antt =====
-- `process_DU` of libusbdisp/libenc/Optimize_SSE2.h under `_SSE2_PDU_`: the places of the coefficients that
-- are not 0 are read off a mask of two bits for each of 16 coefficients.
use jpeg_study.Prelude.{ℕ, zero, suc, ◌+◌, ◌-◌, ◌*◌, ◌/◌, ◌%◌, ◌^◌, ltb, leb, ◌==◌}
use jpeg_study.Prelude.{if◌then◌else◌, List, get_or, set, bit_and, bit_or, u16, u32}
use jpeg_study.Prelude.Int.{ℤ, pos, ◌-ℤ◌, is_zero, to_u32, from_u16}
use jpeg_study.Huffman.Codes.{HuffmanTable}
use jpeg_study.Bits.Writer.{BitWriter, writebits}
use jpeg_study.Entropy.Magnitude.{category, value_data}
use jpeg_study.Entropy.Block.{DuResult, zigzag_order, htac, encode_dc}
use jpeg_study.Sse2.Intrinsics.{load_si128, cmpeq_zero_epi16, movemask_epi8, ctz, shr32}

-- `result` for the 16 coefficients from place `i`: `_mm_movemask_epi8(r1)&0xFFFF` of the first eight,
-- `|= ... <<16` of the others, and the complement.
unfoldable pub nonzero_bits : List ℤ → ℕ → ℕ
nonzero_bits zdu i =
    let first = bit_and (movemask_epi8 (cmpeq_zero_epi16 (load_si128 zdu i))) 0xffff in
    let second = movemask_epi8 (cmpeq_zero_epi16 (load_si128 zdu (i + 8))) in
    2 ^ 32 - 1 - bit_or (u32 (second * 2 ^ 16)) first

-- `writebits(HTAC[zeros*16+cat],cinfo); writebits(data,cinfo)`.
unfoldable pub write_value : HuffmanTable → ℕ → ℤ → BitWriter → BitWriter
write_value ht zeros z w =
    writebits (value_data z) (writebits (htac ht (zeros * 16 + category z)) w)

-- The local variables of the two loops. `nrzeroes` is not used in the first.
pub record Loop : Type 0 where
  pub i : ℕ
  pub nrzeroes : ℕ
  pub writer : BitWriter

-- `while(result)` on coefficients 1 to 15. Every round clears a bit of the mask: 16 rounds are enough.
unfoldable pub first_loop : ℕ → HuffmanTable → List ℤ → ℕ → Loop → Loop
first_loop zero ht zdu bits l = l
first_loop (suc fuel) ht zdu bits l =
    let n = ctz 32 bits / 2 in
    let further = first_loop fuel ht zdu (shr32 bits ((n + 1) * 2)) (record l {
      i = l.i + (n + 1);
      writer = write_value ht n (get_or zdu (l.i + n) (pos 0)) l.writer;
    }) in
    if bits == 0 then l else further

-- `switch(nrzeroes/16)`, whose cases fall through.
unfoldable pub switch_m16zeroes : HuffmanTable → ℕ → BitWriter → BitWriter
switch_m16zeroes ht n w =
    let m16 = htac ht 0xf0 in
    let default_case = writebits m16 w in
    if n == 3
    then writebits m16 (writebits m16 default_case)
    else if n == 2
    then writebits m16 default_case
    else default_case

-- The part of a round of the second loop that writes, for the coefficient `*pZDU`.
unfoldable pub write_run : HuffmanTable → ℕ → ℤ → BitWriter → BitWriter
write_run ht nrzeroes z w =
    if leb 16 nrzeroes
    then write_value ht (nrzeroes % 16) z (switch_m16zeroes ht (nrzeroes / 16) w)
    else write_value ht nrzeroes z w

-- `while(result&&(i<16))` on the 16 coefficients of a chunk, `p` the place of `*pZDU`.
unfoldable pub chunk_loop : ℕ → HuffmanTable → List ℤ → ℕ → ℕ → Loop → Loop
chunk_loop zero ht zdu p bits l = l
chunk_loop (suc fuel) ht zdu p bits l =
    let n = ctz 32 bits / 2 in
    let further = chunk_loop fuel ht zdu (p + n + 1) (shr32 bits ((n + 1) * 2)) (record {
      i = l.i + (n + 1);
      nrzeroes = 0;
      writer = write_run ht (l.nrzeroes + n) (get_or zdu (p + n) (pos 0)) l.writer;
    }) in
    if bits == 0 then l else if ltb l.i 16 then further else l

-- One round of `for(k=1;k<4;k++)`, with `nrzeroes += (16-i)` behind the loop.
unfoldable pub chunk : HuffmanTable → List ℤ → ℕ → Loop → Loop
chunk ht zdu k l =
    let l' = chunk_loop 16 ht zdu (16 * k) (nonzero_bits zdu (16 * k)) (record l { i = 0 }) in
    record l' { nrzeroes = l'.nrzeroes + (16 - l'.i) }

-- Coefficients 1 to 15, with `nrzeroes = (16-i)` behind the loop.
unfoldable pub first_chunk : HuffmanTable → List ℤ → BitWriter → Loop
first_chunk ht zdu w =
    let bits = shr32 (nonzero_bits zdu 0) 2 in
    let l' = first_loop 16 ht zdu bits (record { i = 1; nrzeroes = 0; writer = w }) in
    record l' { nrzeroes = 16 - l'.i }

unfoldable pub encode_acs_sse2 : HuffmanTable → List ℤ → BitWriter → BitWriter
encode_acs_sse2 ht zdu w =
    let l = chunk ht zdu 3 (chunk ht zdu 2 (chunk ht zdu 1 (first_chunk ht zdu w))) in
    if is_zero (get_or zdu 63 (pos 0)) then writebits (htac ht 0x00) l.writer else l.writer

-- `DU[0] - *DC` is stored in the `INT16` `ZDU[0]`, so that it wraps.
unfoldable pub dc_difference : ℤ → ℤ → ℤ
dc_difference first dc = from_u16 (u16 (to_u32 (first -ℤ dc)))

unfoldable pub process_du_sse2 : List ℤ → ℤ → HuffmanTable → BitWriter → DuResult
process_du_sse2 du dc ht w =
    let first = get_or du 0 (pos 0) in
    let zdu = set (zigzag_order du) 0 (dc_difference first dc) in
    record { writer = encode_acs_sse2 ht zdu (encode_dc ht (get_or zdu 0 (pos 0)) w); dc = first }
