-- ===== src/Bits/Queue.antt =====
-- `writebits` of libusbdisp/libenc/jpeg_enc.c appends bits to a queue: the abstract state is a list of
-- bits, the concrete one a stuffed byte stream with an unfinished word.
use native.Mathlib.Nat.{div-add-mod', mod-lt}
use mathlib.Core.Path.{subst}
use mathlib.Core.List.{append_assoc}
use jpeg_study.Prelude.{ℕ, ◌+◌, ◌-◌, ◌*◌, ◌/◌, ◌%◌, ◌^◌, ◌≤◌, ◌<◌, ◌≡◌, ap, ◌∙◌, sym, arith}
use jpeg_study.Prelude.{Bool, List, ◌++◌, All, All-append, dec_lt}
use jpeg_study.Prelude.Bitwise.{pow_pos}
use jpeg_study.Stream.{ByteStream, IsByte}
use jpeg_study.Bits.Writer.{BitWriter, put_word, writebits}
use jpeg_study.Bits.Digits.{bits_of, bits_of_pair, bits_of_mod}
use jpeg_study.Bits.Fields.{bitstring, word_shifted}
use jpeg_study.Bits.Write.{taken_top_lt, writebits_within, writebits-over}
use jpeg_study.Bits.Stuffing.{
  stuff, stuff-append, bits_of_bytes, bits_of_bytes-append, word_bytes, word_bytes-IsByte,
  put_word-append, bits_of_bytes-word_bytes,
}

-- The writer has put `bits` behind the bytes `base`: whole bytes, stuffed, are in the stream, and the
-- last ones, fewer than 32, are in the word.
pub record Carries (base : ByteStream) (bits : List Bool) (w : BitWriter) : Type 0 where
  pub payload : List ℕ
  pub stream_is : w.jpeg_stream ≡ base ++ stuff payload
  pub bytes : All IsByte payload
  pub bits_are : bits_of_bytes payload ++ bits_of w.wordpos w.wordnew ≡ bits
  pub pos_lt : w.wordpos < 32
  pub word_lt : w.wordnew < 2 ^ w.wordpos

module _ (base : ByteStream) (bits : List Bool) (code : ℕ) (w : BitWriter)
    (c : Carries base bits w) where
  within :
      (len : ℕ)
      → w.wordpos + len < 32
      → Carries base
          (bits ++ bits_of len code)
          (record w { wordnew = w.wordnew * 2 ^ len + code % 2 ^ len; wordpos = w.wordpos + len })
  within len h = record {
    payload = c.payload;
    stream_is = c.stream_is;
    bytes = c.bytes;
    bits_are =
        ap (λ t. bits_of_bytes c.payload ++ t)
          (bits_of_pair w.wordpos len w.wordnew (code % 2 ^ len) (mod-lt code (pow_pos len))
            ∙ ap (λ t. bits_of w.wordpos w.wordnew ++ t) (bits_of_mod len code))
        ∙ sym (append_assoc (bits_of_bytes c.payload) _ _)
        ∙ ap (λ t. t ++ bits_of len code) c.bits_are;
    pos_lt = h;
    word_lt =
        (word_shifted w.wordnew w.wordpos len (code % 2 ^ len) c.word_lt (mod-lt code (pow_pos len))
          (omega arith)).1;
  }

  module _ (shift rest : ℕ) (full : w.wordpos + shift ≡ 32) (short : shift + rest ≤ 16)
      (pos : 0 < shift) where
    abbrev top : ℕ
    top = code % 2 ^ (shift + rest) / 2 ^ rest

    abbrev tail : ℕ
    tail = code % 2 ^ (shift + rest) % 2 ^ rest

    abbrev word : ℕ
    word = w.wordnew * 2 ^ shift + top

    word_bits : bits_of_bytes (word_bytes 4 word) ≡ bits_of w.wordpos w.wordnew ++ bits_of shift top
    word_bits =
        bits_of_bytes-word_bytes 4 word
        ∙ ap (λ (n : ℕ). bits_of n word) (sym full)
        ∙ bits_of_pair w.wordpos shift w.wordnew top
            (taken_top_lt code shift rest short w pos c.word_lt full)

    code_bits : bits_of (shift + rest) code ≡ bits_of shift top ++ bits_of rest tail
    code_bits =
        let taken = code % 2 ^ (shift + rest) in
        sym (bits_of_mod (shift + rest) code)
        ∙ ap (bits_of (shift + rest)) (sym (div-add-mod' taken (2 ^ rest)))
        ∙ bits_of_pair shift rest top tail (mod-lt taken (pow_pos rest))

    over :
        Carries base
          (bits ++ bits_of (shift + rest) code)
          (record { jpeg_stream = put_word 4 word w.jpeg_stream; wordnew = tail; wordpos = rest })
    over = record {
      payload = c.payload ++ word_bytes 4 word;
      stream_is =
          put_word-append 4 word w.jpeg_stream
          ∙ ap (λ t. t ++ stuff (word_bytes 4 word)) c.stream_is
          ∙ append_assoc base (stuff c.payload) _
          ∙ ap (λ t. base ++ t) (sym (stuff-append c.payload (word_bytes 4 word)));
      bytes = All-append IsByte c.payload (word_bytes 4 word) c.bytes (word_bytes-IsByte 4 word);
      bits_are =
          ap (λ t. t ++ bits_of rest tail)
            (bits_of_bytes-append c.payload (word_bytes 4 word)
              ∙ ap (λ t. bits_of_bytes c.payload ++ t) word_bits
              ∙ sym (append_assoc (bits_of_bytes c.payload) _ _)
              ∙ ap (λ t. t ++ bits_of shift top) c.bits_are)
          ∙ append_assoc bits (bits_of shift top) (bits_of rest tail)
          ∙ ap (λ t. bits ++ t) (sym code_bits);
      pos_lt = omega arith;
      word_lt = mod-lt _ (pow_pos rest);
    }

-- If the writer carries `bits`, then after `writebits` of the low `len` bits of a code, with `len` at
-- most 16, it carries `bits` and then those bits, whether or not the word is put out.
pub writebits-Carries :
    (base : ByteStream) (bits : List Bool) (code len : ℕ) (w : BitWriter)
    → len ≤ 16
    → Carries base bits w
    → Carries base (bits ++ bits_of len code) (writebits (bitstring code len) w)
writebits-Carries base bits code len w short c = elim (dec_lt (w.wordpos + len) 32) [
  | yes h ↦ rw (writebits_within code len short w c.word_lt h) (within base bits code w c len h)
  | no h ↦
      let shift = 32 - w.wordpos in
      let rest = w.wordpos + len - 32 in
      let split : shift + rest ≡ len = omega (arith, c.pos_lt) in
      let full : w.wordpos + shift ≡ 32 = omega (arith, c.pos_lt) in
      let pos : 0 < shift = omega (arith, c.pos_lt) in
      let fits : shift + rest ≤ 16 = omega (arith, c.pos_lt) in
      let put = writebits-over code shift rest fits w pos c.word_lt full in
      subst (λ n. Carries base (bits ++ bits_of n code) (writebits (bitstring code n) w)) split
        (rw put (over base bits code w c shift rest full fits pos))
]
