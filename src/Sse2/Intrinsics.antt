-- ===== src/Sse2/Intrinsics.antt =====
-- The SSE2 intrinsics of libusbdisp/libenc/Optimize_SSE2.h, as Intel documents them, on lists of lanes:
-- a lane is a 16-bit pattern, or the `INT16` that it stands for where memory is read as such.
use mathlib.Core.List.{map}
use jpeg_study.Prelude.{ℕ, zero, suc, ◌+◌, ◌*◌, ◌/◌, ◌%◌, ◌^◌, ltb, if◌then◌else◌, u8, u16}
use jpeg_study.Prelude.{List, [], ◌∷◌, get_or, take, drop, range_from}
use jpeg_study.Prelude.Int.{ℤ, pos, negsuc, is_zero, from_u16}

-- `_mm_load_si128((__m128i*) p)` for a pointer to `INT16` at place `i` of an array.
unfoldable pub load_si128 : List ℤ → ℕ → List ℤ
load_si128 values i = take 8 (drop i values)

-- `_mm_cmpeq_epi16(r, _mm_set1_epi16(0))`.
unfoldable pub cmpeq_zero_epi16 : List ℤ → List ℕ
cmpeq_zero_epi16 lanes = map (λ z. if is_zero z then 0xffff else 0) lanes

-- `_mm_movemask_epi8`: the top bit of each byte, the first byte's in bit 0.
unfoldable pub movemask_epi8 : List ℕ → ℕ
movemask_epi8 [] = 0
movemask_epi8 (lane ∷ lanes) = lane / 2 ^ 7 % 2 + 2 * (lane / 2 ^ 15 % 2) + 4 * movemask_epi8 lanes

-- `ctz` of an argument that is not 0, for which 32 rounds are enough.
unfoldable pub ctz : ℕ → ℕ → ℕ
ctz zero x = 0
ctz (suc fuel) x = let further = suc (ctz fuel (x / 2)) in if ltb 0 (x % 2) then 0 else further

-- `x >> count` for an `unsigned int` on x86, which takes the count modulo 32; C itself leaves a count of
-- 32 undefined.
abbrev pub shr32 : ℕ → ℕ → ℕ
shr32 x count = x / 2 ^ (count % 32)

-- `_mm_loadu_si128((__m128i*) &buffer[location])`: 16 bytes. A read behind the end of the buffer gives 0.
unfoldable pub loadu_si128 : List ℕ → ℕ → List ℕ
loadu_si128 buffer location = map (λ i. get_or buffer i 0) (range_from 16 location)

-- The bytes of a register that holds 16-bit lanes.
unfoldable pub bytes_of : List ℕ → List ℕ
bytes_of [] = []
bytes_of (lane ∷ lanes) = u8 lane ∷ u8 (lane / 2 ^ 8) ∷ bytes_of lanes

-- `_mm_unpacklo_epi8(a, b)` on registers given by their bytes: lane `i` has byte `i` of `a` below byte `i`
-- of `b`, for the first eight bytes.
unfoldable pub interleave : List ℕ → List ℕ → List ℕ
interleave (a ∷ as') (b ∷ bs) = (a + 2 ^ 8 * b) ∷ interleave as' bs
interleave _ _ = []

unfoldable pub unpacklo_epi8 : List ℕ → List ℕ → List ℕ
unfolding interleave
unpacklo_epi8 a b = interleave (take 8 a) (take 8 b)

-- `_mm_add_epi16(r, _mm_set1_epi16(v))`.
unfoldable pub add_set1_epi16 : ℕ → List ℕ → List ℕ
add_set1_epi16 v lanes = map (λ lane. u16 (lane + v)) lanes

-- The arithmetic shift of an `INT16`.
unfoldable pub sra16 : ℕ → ℤ → ℤ
sra16 count (pos n) = pos (n / 2 ^ count)
sra16 count (negsuc n) = negsuc (n / 2 ^ count)

-- `_mm_srai_epi16(r, count)`, read as `INT16`.
unfoldable pub srai_epi16 : ℕ → List ℕ → List ℤ
unfolding sra16
srai_epi16 count lanes = map (λ lane. sra16 count (from_u16 lane)) lanes
