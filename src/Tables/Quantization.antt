-- ===== src/Tables/Quantization.antt =====
-- The zigzag order and the quantization tables of libusbdisp/libenc/jpeg_enc.c.
use jpeg_study.Prelude.{ℕ, List, [], ◌∷◌}

-- `zigzag[i]` is the place in the zigzag scan of the coefficient `i` of a block in row order.
unfoldable pub zigzag : List ℕ
zigzag =
    0 ∷ 1 ∷ 5 ∷ 6 ∷ 14 ∷ 15 ∷ 27 ∷ 28 ∷ 2 ∷ 4 ∷ 7 ∷ 13 ∷ 16 ∷ 26 ∷ 29 ∷ 42 ∷ 3 ∷ 8 ∷ 12 ∷ 17 ∷ 25
    ∷ 30 ∷ 41 ∷ 43 ∷ 9 ∷ 11 ∷ 18 ∷ 24 ∷ 31 ∷ 40 ∷ 44 ∷ 53 ∷ 10 ∷ 19 ∷ 23 ∷ 32 ∷ 39 ∷ 45 ∷ 52 ∷ 54
    ∷ 20 ∷ 22 ∷ 33 ∷ 38 ∷ 46 ∷ 51 ∷ 55 ∷ 60 ∷ 21 ∷ 34 ∷ 37 ∷ 47 ∷ 50 ∷ 56 ∷ 59 ∷ 61 ∷ 35 ∷ 36 ∷ 48
    ∷ 49 ∷ 57 ∷ 58 ∷ 62 ∷ 63 ∷ []

-- The sample quantization tables of section K.1, in row order.
unfoldable pub std_luminance_qt : List ℕ
std_luminance_qt =
    16 ∷ 11 ∷ 10 ∷ 16 ∷ 24 ∷ 40 ∷ 51 ∷ 61 ∷ 12 ∷ 12 ∷ 14 ∷ 19 ∷ 26 ∷ 58 ∷ 60 ∷ 55 ∷ 14 ∷ 13 ∷ 16
    ∷ 24 ∷ 40 ∷ 57 ∷ 69 ∷ 56 ∷ 14 ∷ 17 ∷ 22 ∷ 29 ∷ 51 ∷ 87 ∷ 80 ∷ 62 ∷ 18 ∷ 22 ∷ 37 ∷ 56 ∷ 68 ∷ 109
    ∷ 103 ∷ 77 ∷ 24 ∷ 35 ∷ 55 ∷ 64 ∷ 81 ∷ 104 ∷ 113 ∷ 92 ∷ 49 ∷ 64 ∷ 78 ∷ 87 ∷ 103 ∷ 121 ∷ 120 ∷ 101
    ∷ 72 ∷ 92 ∷ 95 ∷ 98 ∷ 112 ∷ 100 ∷ 103 ∷ 99 ∷ []

unfoldable pub std_chrominance_qt : List ℕ
std_chrominance_qt =
    17 ∷ 18 ∷ 24 ∷ 47 ∷ 99 ∷ 99 ∷ 99 ∷ 99 ∷ 18 ∷ 21 ∷ 26 ∷ 66 ∷ 99 ∷ 99 ∷ 99 ∷ 99 ∷ 24 ∷ 26 ∷ 56
    ∷ 99 ∷ 99 ∷ 99 ∷ 99 ∷ 99 ∷ 47 ∷ 66 ∷ 99 ∷ 99 ∷ 99 ∷ 99 ∷ 99 ∷ 99 ∷ 99 ∷ 99 ∷ 99 ∷ 99 ∷ 99 ∷ 99
    ∷ 99 ∷ 99 ∷ 99 ∷ 99 ∷ 99 ∷ 99 ∷ 99 ∷ 99 ∷ 99 ∷ 99 ∷ 99 ∷ 99 ∷ 99 ∷ 99 ∷ 99 ∷ 99 ∷ 99 ∷ 99 ∷ 99
    ∷ 99 ∷ 99 ∷ 99 ∷ 99 ∷ 99 ∷ 99 ∷ 99 ∷ []

-- The scale factors of the AAN transform, scaled up by 14 bits (a static table of `prepare_quant_tables`).
unfoldable pub aanscales : List ℕ
aanscales =
    16384 ∷ 22725 ∷ 21407 ∷ 19266 ∷ 16384 ∷ 12873 ∷ 8867 ∷ 4520 ∷ 22725 ∷ 31521 ∷ 29692 ∷ 26722
    ∷ 22725 ∷ 17855 ∷ 12299 ∷ 6270 ∷ 21407 ∷ 29692 ∷ 27969 ∷ 25172 ∷ 21407 ∷ 16819 ∷ 11585 ∷ 5906
    ∷ 19266 ∷ 26722 ∷ 25172 ∷ 22654 ∷ 19266 ∷ 15137 ∷ 10426 ∷ 5315 ∷ 16384 ∷ 22725 ∷ 21407 ∷ 19266
    ∷ 16384 ∷ 12873 ∷ 8867 ∷ 4520 ∷ 12873 ∷ 17855 ∷ 16819 ∷ 15137 ∷ 12873 ∷ 10114 ∷ 6967 ∷ 3552
    ∷ 8867 ∷ 12299 ∷ 11585 ∷ 10426 ∷ 8867 ∷ 6967 ∷ 4799 ∷ 2446 ∷ 4520 ∷ 6270 ∷ 5906 ∷ 5315 ∷ 4520
    ∷ 3552 ∷ 2446 ∷ 1247 ∷ []
