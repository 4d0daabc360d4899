-- ===== src/Tests/Bits.antt =====
-- The theorems on the bit writer of libusbdisp/libenc/jpeg_enc.c, and runs of it.
use jpeg_study.Prelude.{◌≡◌, refl, arith, Bool, true, false}
use jpeg_study.Prelude.{List, [], ◌∷◌, ◌++◌}
use jpeg_study.Stream.{writebyte}
use jpeg_study.Bits.Writer.{writebits, flashbits, put_word, put_stuffed, flash_loop}
use jpeg_study.Bits.Digits.{bits_of}
use jpeg_study.Bits.Fields.{bitstring}
use jpeg_study.Bits.Queue.{Carries, writebits-Carries}
use jpeg_study.Bits.Flush.{Ends, flashbits-Ends}
use jpeg_study.Tests.Data.{blank_writer, begun_writer, begun-Carries}

abbrev begun : List Bool
begun = true ∷ false ∷ true ∷ false ∷ true ∷ []

writebits-Carries_example :
    Carries (0x12 ∷ []) (begun ++ bits_of 9 0x1fe) (writebits (bitstring 0x1fe 9) begun_writer)
writebits-Carries_example =
    writebits-Carries (0x12 ∷ []) begun 0x1fe 9 begun_writer (omega arith) begun-Carries

flashbits-Ends_example : Ends (0x12 ∷ []) begun (flashbits begun_writer)
flashbits-Ends_example = flashbits-Ends (0x12 ∷ []) begun begun_writer begun-Carries

-- 16 ones and 16 zeros: two bytes 0xff are stuffed.
writebits_test :
    (writebits (bitstring 0 16) (writebits (bitstring 0xffff 16) blank_writer)).jpeg_stream
    ≡ 0xff ∷ 0 ∷ 0xff ∷ 0 ∷ 0 ∷ 0 ∷ []
unfolding writebits put_word put_stuffed writebyte
writebits_test = refl

-- Five bits are filled with three zeros.
flashbits_test : (flashbits begun_writer).jpeg_stream ≡ 0x12 ∷ 0xa8 ∷ []
unfolding flashbits flash_loop put_stuffed writebyte
flashbits_test = refl
