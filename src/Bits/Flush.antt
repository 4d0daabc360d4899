-- ===== src/Bits/Flush.antt =====
-- `flashbits` of libusbdisp/libenc/jpeg_enc.c puts the unfinished word out, padded with zero bits to
-- whole bytes.
use native.Mathlib.Nat.{zero-div}
use mathlib.Core.Path.{ap₂}
use mathlib.Core.List.{append_assoc, append-nil}
use jpeg_study.Prelude.{ℕ, zero, suc, ◌+◌, ◌-◌, ◌*◌, ◌/◌, ◌^◌, ◌<◌, ◌≡◌, refl, ap, ◌∙◌}
use jpeg_study.Prelude.{sym, arith, Bool, false, List, [], ◌∷◌, ◌++◌, All, All-append}
use jpeg_study.Prelude.{
  take, take-nil, take-append_add, take-replicate, replicate, length, u32, Bool-cases, inl, inr,
  lt→ltb, ◌==◌, dec_lt,
}
use jpeg_study.Prelude.Bitwise.{pow_pos}
use jpeg_study.Stream.{ByteStream, IsByte}
use jpeg_study.Bits.Writer.{BitWriter, put_stuffed, flash_loop, flashbits, byte_of}
use jpeg_study.Bits.Digits.{bits_of, bits_of_pair, length-bits_of}
use jpeg_study.Bits.Fields.{word_shifted}
use jpeg_study.Bits.Queue.{Carries}
use jpeg_study.Bits.Stuffing.{
  stuff, stuff-append, put_stuffed-append, bits_of_bytes, bits_of_bytes-append, word_bytes,
  word_bytes-IsByte, bits_of_bytes-word_bytes,
}

-- The bytes that hold `pos` bits.
abbrev pub rounds : ℕ → ℕ
rounds pos = (pos + 7) / 8

flash_loop_stop : (k d : ℕ) (s : ByteStream) → flash_loop k d 0 s ≡ s
unfolding flash_loop
flash_loop_stop zero d s = refl
flash_loop_stop (suc k) d s = refl

flash_loop_step :
    (k d pos : ℕ) (s : ByteStream)
    → 0 < pos
    → flash_loop (suc k) d pos s ≡ flash_loop k d (pos - 8) (put_stuffed s (byte_of d k))
unfolding flash_loop
flash_loop_step k d pos s h = rw (lt→ltb 0 pos h)

flash_loop-append :
    (k d pos : ℕ) (s : ByteStream)
    → flash_loop k d pos s ≡ s ++ stuff (take (rounds pos) (word_bytes k d))
flash_loop-append zero d pos s = rw take-nil (unfold flash_loop stuff in sym (append-nil s))
flash_loop-append (suc k) d pos s = elim (dec_lt 0 pos) [
  | no h ↦
      let none_left : pos ≡ 0 = omega arith in
      rw none_left (flash_loop_stop (suc k) d s ∙ unfold stuff in sym (append-nil s))
  | yes h ↦
      let more : rounds pos ≡ suc (rounds (pos - 8)) = omega arith in
      let behind = take (rounds (pos - 8)) (word_bytes k d) in
      flash_loop_step k d pos s h
      ∙ flash_loop-append k d (pos - 8) (put_stuffed s (byte_of d k))
      ∙ ap (λ t. t ++ stuff behind) (put_stuffed-append s (byte_of d k) (omega arith))
      ∙ append_assoc s (stuff (byte_of d k ∷ [])) (stuff behind)
      ∙ ap (λ t. s ++ t) (sym (stuff-append (byte_of d k ∷ []) behind))
      ∙ ap (λ n. s ++ stuff (take n (word_bytes (suc k) d))) (sym more)
]

bits_of_zero : (n : ℕ) → bits_of n 0 ≡ replicate n false
unfolding bits_of
bits_of_zero zero = refl
bits_of_zero (suc n) = rw zero-div (ap (◌∷◌ false) (bits_of_zero n))

bits_of_bytes-take :
    (n : ℕ) (bytes : List ℕ) → bits_of_bytes (take n bytes) ≡ take (8 * n) (bits_of_bytes bytes)
unfolding bits_of_bytes
bits_of_bytes-take zero bytes = refl
bits_of_bytes-take (suc n) [] = sym (take-nil (8 * suc n))
bits_of_bytes-take (suc n) (b ∷ bytes) =
    let e : 8 * suc n ≡ length (bits_of 8 b) + 8 * n = omega (arith, length-bits_of 8 b) in
    ap (λ t. bits_of 8 b ++ t) (bits_of_bytes-take n bytes)
    ∙ sym (take-append_add (bits_of 8 b) (bits_of_bytes bytes) (8 * n))
    ∙ ap (λ (m : ℕ). take m (bits_of 8 b ++ bits_of_bytes bytes)) (sym e)

All-take {κ} : (P : ℕ → Type κ) (n : ℕ) (xs : List ℕ) → All P xs → All P (take n xs)
All-take P zero xs h = tt
All-take P (suc n) [] h = tt
All-take P (suc n) (x ∷ xs) h = (h.0, All-take P n xs h.1)

-- The zero bits that fill the last byte.
abbrev pub padding : ℕ → ℕ
padding pos = 8 * rounds pos - pos

-- All bits have been put out, the last byte filled with fewer than 8 zero bits.
pub record Ends (base : ByteStream) (bits : List Bool) (w : BitWriter) : Type 0 where
  pub payload : List ℕ
  pub pad : ℕ
  pub stream_is : w.jpeg_stream ≡ base ++ stuff payload
  pub bytes : All IsByte payload
  pub bits_are : bits_of_bytes payload ≡ bits ++ replicate pad false
  pub pad_lt : pad < 8
  pub word_empty : (w.wordpos ≡ 0) × (w.wordnew ≡ 0)

add-zero' : (n : ℕ) → n ≡ n + 0
add-zero' n = omega arith

module _ (base : ByteStream) (bits : List Bool) (w : BitWriter) (c : Carries base bits w) where
  abbrev word : ℕ
  word = w.wordnew * 2 ^ (32 - w.wordpos)

  -- The bytes that `flashbits` takes off the word.
  abbrev last_bytes : List ℕ
  last_bytes = take (rounds w.wordpos) (word_bytes 4 word)

  whole : w.wordpos + (32 - w.wordpos) ≡ 32
  whole = omega (arith, c.pos_lt)

  word_fits : (u32 word ≡ word) × (word < 2 ^ 32)
  word_fits =
      let below =
        (word_shifted w.wordnew w.wordpos (32 - w.wordpos) 0 c.word_lt (pow_pos (32 - w.wordpos))
          (omega (arith, c.pos_lt))).1 in
      let fits : word < 2 ^ 32 = omega (arith, below, ap (λ (k : ℕ). 2 ^ k) whole) in
      (omega (arith, fits), fits)

  last_bits :
      bits_of_bytes last_bytes ≡ bits_of w.wordpos w.wordnew ++ replicate (padding w.wordpos) false
  last_bits =
      let left = 32 - w.wordpos in
      let front = bits_of w.wordpos w.wordnew in
      let size : 8 * rounds w.wordpos ≡ length front + padding w.wordpos =
        omega (arith, length-bits_of w.wordpos w.wordnew) in
      bits_of_bytes-take (rounds w.wordpos) (word_bytes 4 word)
      ∙ ap (take (8 * rounds w.wordpos)) (
          bits_of_bytes-word_bytes 4 word
          ∙ ap₂ bits_of (sym whole) (add-zero' word)
          ∙ bits_of_pair w.wordpos left w.wordnew 0 (pow_pos left)
          ∙ ap (λ t. front ++ t) (bits_of_zero left))
      ∙ ap (λ (n : ℕ). take n (front ++ replicate left false)) size
      ∙ take-append_add front (replicate left false) (padding w.wordpos)
      ∙ ap (λ t. front ++ t)
          (take-replicate (padding w.wordpos) left false (omega (arith, c.pos_lt)))

  put_out : (flashbits w).jpeg_stream ≡ w.jpeg_stream ++ stuff last_bytes
  unfolding flashbits
  put_out = elim (Bool-cases (w.wordpos == 0)) [
    | inl e ↦ rw e (
        let empty : rounds w.wordpos ≡ 0 = ground arith in
        rw empty (unfold stuff in sym (append-nil w.jpeg_stream)))
    | inr e ↦ rw (e, word_fits.0) (flash_loop-append 4 word w.wordpos w.jpeg_stream)
  ]

  emptied : ((flashbits w).wordpos ≡ 0) × ((flashbits w).wordnew ≡ 0)
  unfolding flashbits
  emptied = (refl, refl)

  -- If the writer carries `bits`, then after `flashbits` all of them are in the stream, stuffed, with
  -- fewer than 8 zero bits behind them, and the word is empty.
  pub flashbits-Ends : Ends base bits (flashbits w)
  flashbits-Ends = record {
    payload = c.payload ++ last_bytes;
    pad = padding w.wordpos;
    stream_is =
        put_out
        ∙ ap (λ t. t ++ stuff last_bytes) c.stream_is
        ∙ append_assoc base (stuff c.payload) (stuff last_bytes)
        ∙ ap (λ t. base ++ t) (sym (stuff-append c.payload last_bytes));
    bytes =
        All-append IsByte c.payload last_bytes c.bytes
          (All-take IsByte (rounds w.wordpos) (word_bytes 4 word) (word_bytes-IsByte 4 word));
    bits_are =
        bits_of_bytes-append c.payload last_bytes
        ∙ ap (λ t. bits_of_bytes c.payload ++ t) last_bits
        ∙ sym (append_assoc (bits_of_bytes c.payload) _ _)
        ∙ ap (λ t. t ++ replicate (padding w.wordpos) false) c.bits_are;
    pad_lt = omega (arith, c.pos_lt);
    word_empty = emptied;
  }
