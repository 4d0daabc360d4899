-- ===== src/Bits/Writer.antt =====
-- `writebits` and `flashbits` of libusbdisp/libenc/jpeg_enc.c, for the 32-bit buffer (`_64_BIT_` is not
-- defined by the makefile, so `BUF_BITS` is 32). The writer's state is the part of `cinfo_t` that
-- the two functions touch.
use jpeg_study.Prelude.{ℕ, zero, suc, ◌+◌, ◌-◌, ◌*◌, ◌/◌, ◌%◌, ◌^◌, bit_and, bit_or}
use jpeg_study.Prelude.{ltb, ◌==◌, if◌then◌else◌, u16, u32}
use jpeg_study.Stream.{ByteStream, writebyte}

pub record BitWriter : Type 0 where
  pub jpeg_stream : ByteStream
  pub wordnew : ℕ
  pub wordpos : ℕ

-- `writebyte(&cinfo->jpeg_stream, *p); if (*p-- == 0xFF) writebyte(&cinfo->jpeg_stream, 0x00)`
unfoldable pub put_stuffed : ByteStream → ℕ → ByteStream
unfolding writebyte
put_stuffed s b = let s' = writebyte s b in if b == 0xff then writebyte s' 0 else s'

-- Byte `k` of a little-endian `DWORD`.
abbrev pub byte_of : ℕ → ℕ → ℕ
byte_of data_word k = data_word / 2 ^ (8 * k) % 2 ^ 8

-- The bytes of `data`, from byte `k - 1` down to byte 0.
unfoldable pub put_word : ℕ → ℕ → ByteStream → ByteStream
unfolding put_stuffed
put_word zero data_word s = s
put_word (suc k) data_word s = put_word k data_word (put_stuffed s (byte_of data_word k))

-- `bs` holds the bits, aligned at bit 16, and their number in its low byte.
unfoldable pub writebits : ℕ → BitWriter → BitWriter
writebits bs w =
    let len = bit_and bs 0xff in
    let value = u16 (bs / 2 ^ len) in
    let shift = 32 - w.wordpos in
    let data_word = bit_or (u32 (w.wordnew * 2 ^ shift)) (value / 2 ^ (16 - shift)) in
    let rest = u16 (value * 2 ^ shift) in
    if ltb (w.wordpos + len) 32
    then record w {
      wordnew = bit_or (u32 (w.wordnew * 2 ^ len)) (value / 2 ^ (16 - len));
      wordpos = w.wordpos + len;
    }
    else record {
      jpeg_stream = put_word 4 data_word w.jpeg_stream;
      wordnew = rest / 2 ^ (16 - (len - shift));
      wordpos = len - shift;
    }

-- The loop of `flashbits`: `p` stands at byte `k - 1`. At most four rounds are made, since `wordpos`
-- is below 32; the subtraction that would go below 0 ends the loop as the one that reaches 0 does.
unfoldable pub flash_loop : ℕ → ℕ → ℕ → ByteStream → ByteStream
unfolding put_stuffed
flash_loop zero data_word wordpos s = s
flash_loop (suc k) data_word wordpos s =
    let rest = flash_loop k data_word (wordpos - 8) (put_stuffed s (byte_of data_word k)) in
    if ltb 0 wordpos then rest else s

unfoldable pub flashbits : BitWriter → BitWriter
flashbits w =
    let len = 32 - w.wordpos in
    let data_word = u32 (w.wordnew * 2 ^ len) in
    let flushed = flash_loop 4 data_word w.wordpos w.jpeg_stream in
    record {
      jpeg_stream = if w.wordpos == 0 then w.jpeg_stream else flushed;
      wordnew = 0;
      wordpos = 0;
    }
