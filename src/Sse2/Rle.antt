-- ===== src/Sse2/Rle.antt =====
-- `process_DU` of libusbdisp/libenc/Optimize_SSE2.h under `_SSE2_WRITEBLOCK_`, which collects the bit strings of a block
-- in `cinfo->RLE` and writes them at the end.
use jpeg_study.Prelude.{ℕ, zero, suc, ◌+◌, ◌-◌, ◌*◌, ◌/◌, ◌%◌, ltb, leb, ◌==◌}
use jpeg_study.Prelude.{if◌then◌else◌, List, [], ◌∷◌, ◌++◌, foldl, get_or, set}
use jpeg_study.Prelude.Int.{ℤ, pos, is_zero}
use jpeg_study.Huffman.Codes.{HuffmanTable}
use jpeg_study.Bits.Writer.{BitWriter, writebits}
use jpeg_study.Entropy.Magnitude.{category, value_data}
use jpeg_study.Entropy.Block.{DuResult, zigzag_order, htdc, htac}
use jpeg_study.Sse2.Intrinsics.{ctz, shr32}
use jpeg_study.Sse2.Block.{nonzero_bits, dc_difference}

-- The macro, on the first `nRLE` elements of the array.
unfoldable pub write_rle : ℕ → List ℕ → List ℕ
write_rle x rle = rle ++ (x ∷ [])

unfoldable pub dc_rle : HuffmanTable → ℤ → List ℕ → List ℕ
dc_rle ht z rle =
    if is_zero z
    then write_rle (htdc ht 0) rle
    else write_rle (value_data z) (write_rle (htdc ht (category z)) rle)

unfoldable pub value_rle : HuffmanTable → ℕ → ℤ → List ℕ → List ℕ
value_rle ht zeros z rle =
    write_rle (value_data z) (write_rle (htac ht (zeros * 16 + category z)) rle)

pub record RleLoop : Type 0 where
  pub i : ℕ
  pub nrzeroes : ℕ
  pub rle : List ℕ

-- `while(result)` on coefficients 1 to 15, with a round for each of them.
unfoldable pub first_rle_loop : ℕ → HuffmanTable → List ℤ → ℕ → RleLoop → RleLoop
first_rle_loop zero ht zdu bits l = l
first_rle_loop (suc fuel) ht zdu bits l =
    let n = ctz 32 bits / 2 in
    let further =
      first_rle_loop fuel ht zdu (shr32 bits ((n + 1) * 2)) (record l {
        i = l.i + (n + 1);
        rle = value_rle ht n (get_or zdu (l.i + n) (pos 0)) l.rle;
      }) in
    if bits == 0 then l else further

-- `switch(nrzeroes/16)`, whose cases fall through.
unfoldable pub switch_rle : HuffmanTable → ℕ → List ℕ → List ℕ
switch_rle ht n rle =
    let m16 = htac ht 0xf0 in
    let default_case = write_rle m16 rle in
    if n == 3
    then write_rle m16 (write_rle m16 default_case)
    else if n == 2
    then write_rle m16 default_case
    else default_case

-- The part of a round of the second loop that writes.
unfoldable pub run_rle : HuffmanTable → ℕ → ℤ → List ℕ → List ℕ
run_rle ht nrzeroes z rle =
    if leb 16 nrzeroes
    then value_rle ht (nrzeroes % 16) z (switch_rle ht (nrzeroes / 16) rle)
    else value_rle ht nrzeroes z rle

-- `while(result!=0 && i<16)` on the 16 coefficients from place `first`, that of `pZDU`.
unfoldable pub chunk_rle_loop : ℕ → HuffmanTable → List ℤ → ℕ → ℕ → RleLoop → RleLoop
chunk_rle_loop zero ht zdu first bits l = l
chunk_rle_loop (suc fuel) ht zdu first bits l =
    let n = ctz 32 bits / 2 in
    let further = chunk_rle_loop fuel ht zdu first (shr32 bits ((n + 1) * 2)) (record {
      i = l.i + (n + 1);
      nrzeroes = 0;
      rle = run_rle ht (l.nrzeroes + n) (get_or zdu (first + (l.i + n)) (pos 0)) l.rle;
    }) in
    if bits == 0 then l else if ltb l.i 16 then further else l

-- One round of `for(k=1;k<4;k++)`.
unfoldable pub chunk_rle : HuffmanTable → List ℤ → ℕ → RleLoop → RleLoop
chunk_rle ht zdu k l =
    let l' = chunk_rle_loop 16 ht zdu (16 * k) (nonzero_bits zdu (16 * k)) (record l { i = 0 }) in
    record l' { nrzeroes = l'.nrzeroes + (16 - l'.i) }

unfoldable pub first_chunk_rle : HuffmanTable → List ℤ → List ℕ → RleLoop
first_chunk_rle ht zdu rle =
    let bits = shr32 (nonzero_bits zdu 0) 2 in
    let l' = first_rle_loop 16 ht zdu bits (record { i = 1; nrzeroes = 0; rle = rle }) in
    record l' { nrzeroes = 16 - l'.i }

-- The elements of `cinfo->RLE` for the coefficients behind the first.
unfoldable pub acs_rle : HuffmanTable → List ℤ → List ℕ → List ℕ
acs_rle ht zdu rle =
    let l =
      chunk_rle ht zdu 3 (chunk_rle ht zdu 2 (chunk_rle ht zdu 1 (first_chunk_rle ht zdu rle))) in
    if is_zero (get_or zdu 63 (pos 0)) then write_rle (htac ht 0x00) l.rle else l.rle

-- The elements of `cinfo->RLE` for a block.
unfoldable pub rle_of : List ℤ → ℤ → HuffmanTable → List ℕ
rle_of du dc ht =
    let zdu = set (zigzag_order du) 0 (dc_difference (get_or du 0 (pos 0)) dc) in
    acs_rle ht zdu (dc_rle ht (get_or zdu 0 (pos 0)) [])

-- `for(i = 0; i< nRLE ;i++) writebits(cinfo->RLE[i],cinfo)`.
unfoldable pub write_all : List ℕ → BitWriter → BitWriter
write_all rle w = foldl (λ w x. writebits x w) w rle

unfoldable pub process_du_rle : List ℤ → ℤ → HuffmanTable → BitWriter → DuResult
process_du_rle du dc ht w = record {
  writer = write_all (rle_of du dc ht) w;
  dc = get_or du 0 (pos 0);
}
