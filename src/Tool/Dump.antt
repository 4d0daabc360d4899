-- ===== src/Tool/Dump.antt =====
-- The mode `-f` of `main` in libusbdisp/jpegenc.c: a binary file becomes the text of a C array, behind the header
-- of a packet. Text is the list of its ASCII codes.
use jpeg_study.Prelude.{ℕ, zero, suc, ◌+◌, ◌-◌, ◌/◌, ◌%◌, ◌^◌, ltb, ◌==◌, if◌then◌else◌, u8, u32}
use jpeg_study.Prelude.{List, [], ◌∷◌, ◌++◌, length}

-- A digit of `%x`.
unfoldable pub hex_digit : ℕ → ℕ
hex_digit n = if ltb n 10 then b'0' + n else b'a' + n - 10

-- `fprintf(fo, "0x%02x, ", b)` for a byte.
unfoldable pub print_byte : ℕ → List ℕ
print_byte b = b'0' ∷ b'x' ∷ hex_digit (b / 16 % 16) ∷ hex_digit (b % 16) ∷ b',' ∷ b' ' ∷ []

-- `for(int i=0; i<4; i++) { fprintf(fo, "0x%02x, ", word & 0xFF); word = word >> 8; }`
unfoldable pub print_word : ℕ → ℕ → List ℕ
print_word zero word = []
print_word (suc left) word = print_byte (u8 word) ++ print_word left (word / 2 ^ 8)

-- The loop for `decoder_type`: the variable is not used, and the last byte breaks the loop.
unfoldable pub print_type : ℕ → ℕ → List ℕ
print_type zero i = []
print_type (suc left) i =
    let further = print_type left (suc i) in
    if i == 3 then print_byte 0x80 else print_byte 0 ++ further

-- The loop over the bytes of the file, with a new line behind every sixteenth.
unfoldable pub print_bytes : ℕ → List ℕ → List ℕ
print_bytes i [] = []
print_bytes i (b ∷ bs) =
    print_byte b ++ ((if (i + 1) % 16 == 0 then 0x0a ∷ [] else []) ++ print_bytes (suc i) bs)

-- The text for a file that could be read: ID, decoder type, count and length, then the file. Its size is taken to be
-- below 2^31, so that it fits the `int` in which the code keeps it.
unfoldable pub dump : List ℕ → List ℕ
dump file =
    print_word 4 0x53525053
    ++ (print_type 4 0
        ++ (print_word 4 0
            ++ (print_word 4 (u32 (length file / 4)) ++ (0x0a ∷ [] ++ print_bytes 0 file))))
