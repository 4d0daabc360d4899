-- ===== src/Bits/Write.antt =====
-- The two branches of `writebits` in libusbdisp/libenc/jpeg_enc.c: the word has room, or it is put out.
use native.Mathlib.Nat.{mod-lt, div-lt_iff_lt-mul}
use jpeg_study.Prelude.{
  ℕ, ◌+◌, ◌-◌, ◌*◌, ◌/◌, ◌%◌, ◌^◌, ◌≤◌, ◌<◌, ◌≡◌, sym, arith, false, ltb, lt→ltb,
}
use jpeg_study.Prelude.Bitwise.{pow_pos, pow_sum}
use jpeg_study.Bits.Writer.{BitWriter, put_word, writebits}
use jpeg_study.Bits.Fields.{
  bitstring, len_read, value_is, value_top, filling, leftover, word_shifted,
}

module _ (code len : ℕ) (short : len ≤ 16) (w : BitWriter)
    (narrow : w.wordnew < 2 ^ w.wordpos) where
  abbrev pub low : ℕ
  low = code % 2 ^ len

  pub low_lt : low < 2 ^ len
  low_lt = mod-lt code (pow_pos len)

  pub writebits_within :
      w.wordpos + len < 32
      → writebits (bitstring code len) w
        ≡ record w { wordnew = w.wordnew * 2 ^ len + low; wordpos = w.wordpos + len }
  unfolding writebits
  writebits_within h =
      let (merged, below) = word_shifted w.wordnew w.wordpos len low narrow low_lt (omega arith) in
      rw (
        len_read code len short,
        value_is code len short,
        value_top code len short,
        lt→ltb (w.wordpos + len) 32 h,
        merged,
      )

module _ (code shift over : ℕ) (short : shift + over ≤ 16) (w : BitWriter) (pos : 0 < shift)
    (narrow : w.wordnew < 2 ^ w.wordpos) (full : w.wordpos + shift ≡ 32) where
  abbrev pub taken : ℕ
  taken = code % 2 ^ (shift + over)

  pub taken_top_lt : taken / 2 ^ over < 2 ^ shift
  taken_top_lt =
      (div-lt_iff_lt-mul (pow_pos over)).1
        (rw (sym (pow_sum shift over)) (mod-lt code (pow_pos (shift + over))))

  pub writebits-over : writebits (bitstring code (shift + over)) w ≡ record {
    jpeg_stream = put_word 4 (w.wordnew * 2 ^ shift + taken / 2 ^ over) w.jpeg_stream;
    wordnew = taken % 2 ^ over;
    wordpos = over;
  }
  unfolding writebits
  writebits-over =
      let (merged, below) =
        word_shifted w.wordnew w.wordpos shift (taken / 2 ^ over) narrow taken_top_lt
          (omega arith) in
      let past : ltb (w.wordpos + (shift + over)) 32 ≡ false = ground arith in
      let room : 32 - w.wordpos ≡ shift = omega arith in
      let rest : shift + over - shift ≡ over = omega arith in
      let lt = mod-lt code (pow_pos (shift + over)) in
      rw (
        len_read code (shift + over) short,
        value_is code (shift + over) short,
        past,
        room,
        filling taken shift over short lt,
        merged,
        rest,
        leftover taken shift over short lt,
      )
