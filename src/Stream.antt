-- ===== src/Stream.antt =====
-- `jpeg_stream_t` of libusbdisp/libenc/jpeg_enc.h and its two macros. The stream is the list of the
-- bytes `pbitstream[0 .. pos)`: each write goes to `pbitstream[pos]` and moves `pos` by one. The code
-- never checks the room that is left in the buffer, so the list has no bound.
use mathlib.Core.List.{append-nil, append_assoc}
use jpeg_study.Prelude.{ℕ, zero, suc, ◌/◌, ◌%◌, ◌^◌, ◌<◌, ◌≡◌, ◌∙◌, arith, u8}
use jpeg_study.Prelude.{List, [], ◌∷◌, ◌++◌, map, range_from}

abbrev pub ByteStream : Type 0
ByteStream = List ℕ

abbrev pub IsByte : ℕ → Type 0
IsByte b = b < 256

unfoldable pub writebyte : ByteStream → ℕ → ByteStream
writebyte stream b = stream ++ (u8 b ∷ [])

unfoldable pub writeword : ByteStream → ℕ → ByteStream
unfolding writebyte
writeword stream w = writebyte (writebyte stream (w / 256)) (w % 256)

-- `for (i = start; i < start + n; i++) writebyte(stream, entry(i))`.
unfoldable pub writeloop : (ℕ → ℕ) → ℕ → ℕ → ByteStream → ByteStream
unfolding writebyte
writeloop entry zero i stream = stream
writeloop entry (suc n) i stream = writeloop entry n (suc i) (writebyte stream (entry i))

pub writeloop-append :
    (entry : ℕ → ℕ) (n i : ℕ) (stream : ByteStream)
    → writeloop entry n i stream ≡ stream ++ map (λ j. u8 (entry j)) (range_from n i)
unfolding writeloop
writeloop-append entry zero i stream = rw append-nil
writeloop-append entry (suc n) i stream =
    writeloop-append entry n (suc i) (stream ++ (u8 (entry i) ∷ []))
    ∙ append_assoc stream (u8 (entry i) ∷ []) _

pub writeword-append :
    (stream : ByteStream) (w : ℕ)
    → w < 2 ^ 16
    → writeword stream w ≡ stream ++ (w / 256 ∷ w % 256 ∷ [])
unfolding writeword
writeword-append stream w h =
    let hi : u8 (w / 256) ≡ w / 256 = omega arith in
    let lo : u8 (w % 256) ≡ w % 256 = omega arith in rw (hi, lo) (append_assoc stream _ _)
