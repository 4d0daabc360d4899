-- ===== src/Tool/Dumped.antt =====
-- What a reader of C arrays finds in the text that the mode `-f` of libusbdisp/jpegenc.c writes.
use mathlib.Core.List.{append_assoc}
use jpeg_study.Prelude.{ℕ, zero, suc, ◌+◌, ◌-◌, ◌*◌, ◌/◌, ◌%◌, ◌^◌, ◌<◌, ◌≡◌, refl, ap, ◌∙◌, arith}
use jpeg_study.Prelude.{ltb, ◌==◌, ◌&&◌, Bool, true, false, if◌then◌else◌, u8, u32}
use jpeg_study.Prelude.{List, [], ◌∷◌, ◌++◌, length, All, Option, none, some, ◌>>=◌}
use jpeg_study.Tool.Dump.{hex_digit, print_byte, print_word, print_type, print_bytes, dump}

-- A hexadecimal digit in lower case.
unfoldable pub digit_value : ℕ → Option ℕ
digit_value c =
    if ltb c b'0'
    then none
    else if ltb c 0x3a
    then some (c - b'0')
    else if ltb c b'a'
    then none
    else if ltb c b'g'
    then some (c - b'a' + 10)
    else none

-- An entry `0x12, `.
abbrev pub read_entry : ℕ → ℕ → ℕ → ℕ → ℕ → ℕ → Option ℕ
read_entry a b c d e f =
    if a == b'0' && b == b'x' && e == b',' && f == b' '
    then (do high ← digit_value c; low ← digit_value d; some (high * 16 + low))
    else none

unfoldable pub read_entries : List ℕ → Option (List ℕ)
read_entries [] = some []
read_entries (a ∷ b ∷ c ∷ d ∷ e ∷ f ∷ rest) = do
  byte ← read_entry a b c d e f
  bytes ← read_entries rest
  some (byte ∷ bytes)
read_entries _ = none

unfoldable pub without_new_lines : List ℕ → List ℕ
without_new_lines [] = []
without_new_lines (c ∷ text) =
    let rest = without_new_lines text in if c == 0x0a then rest else c ∷ rest

-- The bytes of a list of entries in lines.
unfoldable pub read_array : List ℕ → Option (List ℕ)
read_array text = read_entries (without_new_lines text)

digit_value-hex_digit : (n : ℕ) → n < 16 → digit_value (hex_digit n) ≡ some n
unfolding digit_value hex_digit
digit_value-hex_digit n h = ground arith

digit_not_new_line : (n : ℕ) → n < 16 → (hex_digit n == 0x0a) ≡ false
unfolding hex_digit
digit_not_new_line n h = ground arith

-- An entry is read back.
read_array-print_byte :
    (b : ℕ) (text bytes : List ℕ)
    → b < 256
    → read_array text ≡ some bytes
    → read_array (print_byte b ++ text) ≡ some (b ∷ bytes)
unfolding read_array read_entries without_new_lines print_byte
read_array-print_byte b text bytes small rest =
    let value : b / 16 % 16 * 16 + b % 16 ≡ b = omega arith in
    let high : b / 16 % 16 < 16 = omega arith in
    let low : b % 16 < 16 = omega arith in
    rw (digit_not_new_line (b / 16 % 16) high, digit_not_new_line (b % 16) low)
      (rw
        (digit_value-hex_digit (b / 16 % 16) high, digit_value-hex_digit (b % 16) low, rest, value)
        refl)

-- The bytes of a word, low byte first.
unfoldable pub le_word : ℕ → ℕ → List ℕ
le_word zero word = []
le_word (suc left) word = u8 word ∷ le_word left (word / 2 ^ 8)

read_array-print_word :
    (n word : ℕ) (text bytes : List ℕ)
    → read_array text ≡ some bytes
    → read_array (print_word n word ++ text) ≡ some (le_word n word ++ bytes)
unfolding print_word le_word
read_array-print_word zero word text bytes rest = rest
read_array-print_word (suc n) word text bytes rest =
    ap read_array (append_assoc (print_byte (u8 word)) (print_word n (word / 2 ^ 8)) text)
    ∙ read_array-print_byte (u8 word) _ _ (omega arith)
        (read_array-print_word n (word / 2 ^ 8) text bytes rest)

read_array-print_type :
    (text bytes : List ℕ)
    → read_array text ≡ some bytes
    → read_array (print_type 4 0 ++ text) ≡ some (0 ∷ 0 ∷ 0 ∷ 0x80 ∷ bytes)
unfolding print_type print_byte
read_array-print_type text bytes rest = read_array-print_byte 0 _ _ (omega arith) (
    read_array-print_byte 0 _ _ (omega arith) (
      read_array-print_byte 0 _ _ (omega arith)
        (read_array-print_byte 0x80 text bytes (omega arith) rest)))

read_array-new_line :
    (b : Bool) (text : List ℕ)
    → read_array ((if b then 0x0a ∷ [] else []) ++ text) ≡ read_array text
unfolding read_array without_new_lines
read_array-new_line true text = refl
read_array-new_line false text = refl

read_array-print_bytes :
    (i : ℕ) (file : List ℕ) → All (λ b. b < 256) file → read_array (print_bytes i file) ≡ some file
unfolding print_bytes
read_array-print_bytes i [] h = unfold read_array read_entries without_new_lines in refl
read_array-print_bytes i (b ∷ bs) h = read_array-print_byte b _ bs h.0 (
    read_array-new_line ((i + 1) % 16 == 0) (print_bytes (suc i) bs)
    ∙ read_array-print_bytes (suc i) bs h.1)

-- A reader of C arrays finds in the text that the mode `-f` writes for a file the header of a packet, with the
-- ID, the decoder type 0x80000000, the count 0 and the length of the file in words, each low byte first, and
-- then the bytes of the file.
pub read_array-dump :
    (file : List ℕ)
    → All (λ b. b < 256) file
    → read_array (dump file)
      ≡ some (
          le_word 4 0x53525053
          ++ (0 ∷ 0 ∷ 0 ∷ 0x80 ∷ (le_word 4 0 ++ (le_word 4 (u32 (length file / 4)) ++ file))))
unfolding dump
read_array-dump file h = read_array-print_word 4 0x53525053 _ _ (
    read_array-print_type _ _ (
      read_array-print_word 4 0 _ _ (
        read_array-print_word 4 (u32 (length file / 4)) _ _
          (read_array-new_line true (print_bytes 0 file) ∙ read_array-print_bytes 0 file h))))
