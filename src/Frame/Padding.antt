-- ===== src/Frame/Padding.antt =====
-- The padding at the end of a frame in `getBufFormBmp` of libusbdisp/jpegenc.c.
use jpeg_study.Prelude.{ℕ, zero, suc, ◌+◌, ◌-◌, ◌*◌, ◌/◌, ◌%◌, ◌≤◌, ◌<◌, ◌≡◌, refl, arith}
use jpeg_study.Prelude.{
  ◌==◌, true, false, if◌then◌else◌, List, [], ◌∷◌, ◌++◌, length, length-append, Option, none, some,
}

-- An `unsigned long` of 8 bytes with value 0xFFFFD9FF, low byte first.
abbrev pub padding_word : List ℕ
padding_word = 0xff ∷ 0xd9 ∷ 0xff ∷ 0xff ∷ 0 ∷ 0 ∷ 0 ∷ 0 ∷ []

-- `streamlen`, and the bytes written from the end of the stream on.
pub record Padded : Type 0 where
  pub streamlen : ℕ
  pub written : List ℕ

-- The `do` loop; `none` if it is still running after `fuel` rounds.
unfoldable pub pad_loop : ℕ → ℕ → List ℕ → Option Padded
pad_loop zero streamlen written = none
pad_loop (suc fuel) streamlen written =
    let next = streamlen + 4 in
    let bytes = written ++ padding_word in
    let further = pad_loop fuel next bytes in
    if next % 128 == 0 then some (record { streamlen = next; written = bytes }) else further

-- A multiple of 128 is reached within 32 rounds from a multiple of 4.
unfoldable pub pad_stream : ℕ → Option Padded
pad_stream streamlen = pad_loop 32 streamlen []

-- `k` rounds are left.
record IsPadded (streamlen k : ℕ) (written : List ℕ) (p : Padded) : Type 0 where
  len_is : p.streamlen ≡ streamlen + 4 * k
  bytes_are : length p.written ≡ length written + 8 * k

pad_loop-rounds :
    (k fuel streamlen : ℕ) (written : List ℕ)
    → (streamlen + 4 * suc k) % 128 ≡ 0
    → 4 * k < 128
    → k < fuel
    → (p : Padded) × (pad_loop fuel streamlen written ≡ some p)
      × IsPadded streamlen (suc k) written p
unfolding pad_loop
pad_loop-rounds k zero streamlen written whole short enough = absurd (omega arith)
pad_loop-rounds zero (suc fuel) streamlen written whole short enough =
    let done : ((streamlen + 4) % 128 == 0) ≡ true = ground arith in
    (
      record { streamlen = streamlen + 4; written = written ++ padding_word },
      rw done refl,
      record {
        len_is = omega arith;
        bytes_are = omega (arith, length-append written padding_word);
      },
    )
pad_loop-rounds (suc k) (suc fuel) streamlen written whole short enough =
    let more : ((streamlen + 4) % 128 == 0) ≡ false = ground arith in
    let r =
      pad_loop-rounds k fuel (streamlen + 4) (written ++ padding_word) (omega arith) (omega arith)
        (omega arith) in
    (
      r.0,
      rw more r.1,
      record {
        len_is = omega (arith, r.2.len_is);
        bytes_are = omega (arith, r.2.bytes_are, length-append written padding_word);
      },
    )

-- From a stream whose length is a multiple of 4 the loop ends, at the next multiple of 128 behind it. It has
-- written twice as many bytes as it has counted, since a pointer to `unsigned long` moves by 8.
pub pad_lem :
    (streamlen : ℕ)
    → streamlen % 4 ≡ 0
    → (p : Padded) × (pad_stream streamlen ≡ some p)
      × (p.streamlen % 128 ≡ 0)
      × (streamlen < p.streamlen)
      × (p.streamlen ≤ streamlen + 128)
      × (length p.written ≡ 2 * (p.streamlen - streamlen))
unfolding pad_stream
pad_lem streamlen whole =
    let k = (124 - streamlen % 128) / 4 in
    let r = pad_loop-rounds k 32 streamlen [] (omega arith) (omega arith) (omega arith) in
    (
      r.0,
      r.1,
      omega (arith, r.2.len_is),
      omega (arith, r.2.len_is),
      omega (arith, r.2.len_is),
      omega (arith, r.2.len_is, r.2.bytes_are),
    )
