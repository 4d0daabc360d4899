-- ===== src/Header/Chip.antt =====
-- `GetDQTinfo` of libusbdisp/libenc/jpeg_enc.c, which writes the quantization tables in the format of
-- the display chip.
use mathlib.Core.Path.{ap₂}
use mathlib.Core.List.{append_assoc}
use jpeg_study.Prelude.{ℕ, ◌+◌, ◌<◌, ◌≡◌, ap, arith, u8, ◌∙◌}
use jpeg_study.Prelude.{List, [], ◌∷◌, ◌++◌, map, range_from, get_or, length}
use jpeg_study.Prelude.{map-range_ext, length-append}
use jpeg_study.Tables.Quantization.{std_luminance_qt, std_chrominance_qt}
use jpeg_study.Stream.{ByteStream, writebyte, writeword, writeloop, writeloop-append}
use jpeg_study.Header.Infos.{DqtInfo}
use jpeg_study.Header.Writers.{get_dqt_info}
use jpeg_study.Quant.Tables.{quant_entry, scale_of_quality, set_quant_table, set_dqt_info}
use jpeg_study.Quant.Scaling.{quant_entry_bounds, set_quant_table_lem}
use jpeg_study.Quant.Zigzag.{place}

-- A table in row order, scaled for the quality.
abbrev pub row_table : List ℕ → ℕ → List ℕ
row_table basic quality =
    map (λ i. quant_entry (get_or basic i 0) (scale_of_quality quality)) (range_from 64 0)

abbrev pub chip_format : List ℕ → List ℕ → List ℕ
chip_format y cb = (0xff ∷ 0xdb ∷ 0 ∷ 67 ∷ 0 ∷ y) ++ (0xff ∷ 0xdb ∷ 0 ∷ 67 ∷ 1 ∷ cb)

abbrev unscanned : List ℕ → List ℕ
unscanned table = map (λ i. u8 (get_or table (place i) 0)) (range_from 64 0)

-- One of the two parts: marker, length, number of the table, and `count` entries.
part-append :
    (entry : ℕ → ℕ) (n count : ℕ) (s : ByteStream)
    → writeloop entry count 0 (writebyte (writeword (writeword s 0xffdb) 67) n)
      ≡ s ++ (0xff ∷ 0xdb ∷ 0 ∷ 67 ∷ u8 n ∷ map (λ i. u8 (entry i)) (range_from count 0))
part-append entry n count s = writeloop-append entry count 0 _ ∙ rw front (append_assoc s _ _)
  where
    front :
        writebyte (writeword (writeword s 0xffdb) 67) n ≡ s ++ (0xff ∷ 0xdb ∷ 0 ∷ 67 ∷ u8 n ∷ [])
    front = unfold writebyte writeword in simp append_assoc

get_dqt_info-append :
    (dqt : DqtInfo) (s : ByteStream)
    → get_dqt_info dqt s ≡ s ++ chip_format (unscanned dqt.y_table) (unscanned dqt.cb_table)
unfolding get_dqt_info
get_dqt_info-append dqt s =
    part-append (λ i. get_or dqt.cb_table (place i) 0) 1 64 _
    ∙ ap (λ t. t ++ (0xff ∷ 0xdb ∷ 0 ∷ 67 ∷ 1 ∷ unscanned dqt.cb_table))
        (part-append (λ i. get_or dqt.y_table (place i) 0) 0 64 s)
    ∙ append_assoc s _ _

unscanned-set_quant_table :
    (basic : List ℕ) (quality : ℕ) (t : List ℕ)
    → length t ≡ 64
    → unscanned (set_quant_table basic (scale_of_quality quality) t) ≡ row_table basic quality
unscanned-set_quant_table basic quality t l = map-range_ext _ _ 64 0 (λ i p q. entry i q)
  where
    entry :
        (i : ℕ)
        → i < 64
        → u8 (get_or (set_quant_table basic (scale_of_quality quality) t) (place i) 0)
          ≡ quant_entry (get_or basic i 0) (scale_of_quality quality)
    entry i q =
        rw (set_quant_table_lem basic (scale_of_quality quality) t i l q)
          (omega (arith, quant_entry_bounds (get_or basic i 0) (scale_of_quality quality)))

-- After `set_DQTinfo` for any quality, on tables of 64 entries, the chip's format holds both scaled
-- tables in row order: the reordering of `set_quant_table` is undone. What was in the stream stays in
-- front, and 138 bytes are added.
pub get_dqt_info-set_dqt_info :
    (quality : ℕ) (dqt : DqtInfo) (s : ByteStream)
    → length dqt.y_table ≡ 64
    → length dqt.cb_table ≡ 64
    → (get_dqt_info (set_dqt_info quality dqt) s
        ≡ s
          ++ chip_format
              (row_table std_luminance_qt quality)
              (row_table std_chrominance_qt quality))
      × (length (get_dqt_info (set_dqt_info quality dqt) s) ≡ length s + 138)
unfolding set_dqt_info
get_dqt_info-set_dqt_info quality dqt s ly lcb =
    (written, rw (written, length-append) (omega arith))
  where
    written :
        get_dqt_info (set_dqt_info quality dqt) s
        ≡ s
          ++ chip_format (row_table std_luminance_qt quality) (row_table std_chrominance_qt quality)
    written =
        get_dqt_info-append _ s
        ∙ ap₂ (λ y cb. s ++ chip_format y cb)
            (unscanned-set_quant_table std_luminance_qt quality dqt.y_table ly)
            (unscanned-set_quant_table std_chrominance_qt quality dqt.cb_table lcb)
