-- ===== src/Bits/Stuffing.antt =====
-- Byte stuffing: what `writebits` and `flashbits` of libusbdisp/libenc/jpeg_enc.c do with bytes 0xFF,
-- and a reader of entropy-coded data up to the next marker (annex B), written independently.
use native.Mathlib.Nat.{div-add-mod', mod-lt}
use mathlib.Core.Path.{ap₂}
use mathlib.Core.List.{append_assoc, append-nil}
use jpeg_study.Prelude.{ℕ, zero, suc, ◌+◌, ◌*◌, ◌/◌, ◌%◌, ◌^◌, ◌<◌, ◌==◌, ◌≡◌, refl, ap, ◌∙◌, sym}
use jpeg_study.Prelude.{arith, Bool, true, false, Option, none, some, List, [], ◌∷◌, ◌++◌, All}
use jpeg_study.Prelude.{if◌then◌else◌, u8, Bool-cases, inl, inr}
use jpeg_study.Stream.{ByteStream, IsByte}
use jpeg_study.Bits.Writer.{put_stuffed, put_word, byte_of}
use jpeg_study.Bits.Digits.{bits_of, bits_of_pair, bits_of_mod}
use jpeg_study.Prelude.Bitwise.{pow_pos}

unfoldable pub stuff : List ℕ → List ℕ
stuff [] = []
stuff (b ∷ bytes) = if b == 0xff then b ∷ 0 ∷ stuff bytes else b ∷ stuff bytes

pub stuff-append : (xs ys : List ℕ) → stuff (xs ++ ys) ≡ stuff xs ++ stuff ys
unfolding stuff
stuff-append [] ys = refl
stuff-append (b ∷ xs) ys = ground (arith, stuff-append xs ys)

-- The data bytes and what follows the 0xFF of the next marker. The flag says that 0xFF was just read.
unfoldable pub read_scan : Bool → List ℕ → Option (List ℕ × List ℕ)
read_scan held [] = none
read_scan false (b ∷ rest) = elim (b == 0xff) [
  | true ↦ read_scan true rest
  | false ↦ elim (read_scan false rest) [
    | none ↦ none
    | some (bytes, behind) ↦ some (b ∷ bytes, behind)
  ]
]
read_scan true (b ∷ rest) = elim (b == 0) [
  | true ↦ elim (read_scan false rest) [
    | none ↦ none
    | some (bytes, behind) ↦ some (0xff ∷ bytes, behind)
  ]
  | false ↦ some ([], b ∷ rest)
]

-- Stuffed data is read back whole, up to the marker behind it.
pub read_scan-stuff :
    (bytes : List ℕ) (code : ℕ) (rest : List ℕ)
    → 0 < code
    → read_scan false (stuff bytes ++ (0xff ∷ code ∷ rest)) ≡ some (bytes, code ∷ rest)
unfolding read_scan stuff
read_scan-stuff [] code rest h = ground arith
read_scan-stuff (b ∷ bytes) code rest h = ground (arith, read_scan-stuff bytes code rest h)

pub put_stuffed-append : (s : ByteStream) (b : ℕ) → IsByte b → put_stuffed s b ≡ s ++ stuff (b ∷ [])
unfolding put_stuffed stuff
put_stuffed-append s b h =
    let uncut : u8 b ≡ b = omega arith in
    elim (Bool-cases (b == 0xff)) [
      | inl e ↦ rw (e, uncut) (append_assoc s (b ∷ []) (0 ∷ []))
      | inr e ↦ rw (e, uncut)
    ]

-- The bytes of `data`, from byte `k - 1` down.
abbrev pub word_bytes : ℕ → ℕ → List ℕ
word_bytes zero data_word = []
word_bytes (suc k) data_word = byte_of data_word k ∷ word_bytes k data_word

pub word_bytes-IsByte : (k data_word : ℕ) → All IsByte (word_bytes k data_word)
word_bytes-IsByte zero data_word = tt
word_bytes-IsByte (suc k) data_word = (omega arith, word_bytes-IsByte k data_word)

put_word-suc :
    (k data_word : ℕ) (s : ByteStream)
    → put_word (suc k) data_word s ≡ put_word k data_word (put_stuffed s (byte_of data_word k))
unfolding put_word
put_word-suc k data_word s = refl

pub put_word-append :
    (k data_word : ℕ) (s : ByteStream)
    → put_word k data_word s ≡ s ++ stuff (word_bytes k data_word)
put_word-append zero data_word s = unfold put_word stuff in sym (append-nil s)
put_word-append (suc k) data_word s =
    let b = byte_of data_word k in
    put_word-suc k data_word s
    ∙ put_word-append k data_word (put_stuffed s b)
    ∙ ap (λ t. t ++ stuff (word_bytes k data_word)) (put_stuffed-append s b (omega arith))
    ∙ append_assoc s (stuff (b ∷ [])) _
    ∙ ap (λ t. s ++ t) (sym (stuff-append (b ∷ []) (word_bytes k data_word)))

unfoldable pub bits_of_bytes : List ℕ → List Bool
bits_of_bytes [] = []
bits_of_bytes (b ∷ bytes) = bits_of 8 b ++ bits_of_bytes bytes

pub bits_of_bytes-append :
    (xs ys : List ℕ) → bits_of_bytes (xs ++ ys) ≡ bits_of_bytes xs ++ bits_of_bytes ys
unfolding bits_of_bytes
bits_of_bytes-append [] ys = refl
bits_of_bytes-append (b ∷ xs) ys =
    ap (λ t. bits_of 8 b ++ t) (bits_of_bytes-append xs ys) ∙ sym (append_assoc (bits_of 8 b) _ _)

bits_of_bytes_cons :
    (b : ℕ) (bytes : List ℕ) → bits_of_bytes (b ∷ bytes) ≡ bits_of 8 b ++ bits_of_bytes bytes
unfolding bits_of_bytes
bits_of_bytes_cons b bytes = refl

pub bits_of_bytes-word_bytes :
    (k data_word : ℕ) → bits_of_bytes (word_bytes k data_word) ≡ bits_of (8 * k) data_word
bits_of_bytes-word_bytes zero data_word = unfold bits_of_bytes bits_of in refl
bits_of_bytes-word_bytes (suc k) data_word =
    let hi = data_word / 2 ^ (8 * k) in
    let lo = data_word % 2 ^ (8 * k) in
    let whole : hi * 2 ^ (8 * k) + lo ≡ data_word = div-add-mod' data_word (2 ^ (8 * k)) in
    let width : 8 + 8 * k ≡ 8 * suc k = omega arith in
    bits_of_bytes_cons (hi % 2 ^ 8) (word_bytes k data_word)
    ∙ ap₂ ◌++◌ (bits_of_mod 8 hi)
        (bits_of_bytes-word_bytes k data_word ∙ sym (bits_of_mod (8 * k) data_word))
    ∙ sym (bits_of_pair 8 (8 * k) hi lo (mod-lt data_word (pow_pos (8 * k))))
    ∙ ap₂ bits_of width whole
