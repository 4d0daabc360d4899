-- ===== src/Sse2/Load.antt =====
-- `load_data_units_from_buffer` of libusbdisp/libenc/Optimize_SSE2.h, against the plain one of
-- libusbdisp/libenc/jpeg_enc.c.
use mathlib.Core.List.{map-append}
use jpeg_study.Prelude.{ℕ, zero, suc, ◌+◌, ◌*◌, ◌^◌, ◌<◌, ◌≡◌, refl, sym, arith}
use jpeg_study.Prelude.{u16, u32}
use jpeg_study.Prelude.{List, [], ◌∷◌, ◌++◌, map, get_or, replicate}
use jpeg_study.Prelude.Int.{ℤ, from_u16}
use jpeg_study.Encoder.Cinfo.{Cinfo}
use jpeg_study.Encoder.Load.{
  move_row, move_rows, level_shift, load_component, load_data_units_from_buffer,
}
use jpeg_study.Sse2.Intrinsics.{
  loadu_si128, bytes_of, interleave, unpacklo_epi8, add_set1_epi16, sra16, srai_epi16,
}

-- One row of one component: `_mm_loadu_si128`, `_mm_unpacklo_epi8(r2,r3)`, `_mm_add_epi16(r1,r2)` and
-- `_mm_srai_epi16(r1,8)`, where every lane of `r2` is 0x8000.
unfoldable pub load_row_sse2 : List ℕ → ℕ → List ℤ
unfolding loadu_si128 bytes_of unpacklo_epi8 add_set1_epi16 srai_epi16
load_row_sse2 buffer location =
    let r2 = bytes_of (replicate 8 0x8000) in
    srai_epi16 8 (add_set1_epi16 0x8000 (unpacklo_epi8 r2 (loadu_si128 buffer location)))

-- The loop for one component, `location += cinfo->Ximage` on a `DWORD`.
unfoldable pub load_rows_sse2 : ℕ → List ℕ → ℕ → ℕ → List ℤ
load_rows_sse2 zero buffer ximage location = []
load_rows_sse2 (suc left) buffer ximage location =
    load_row_sse2 buffer location ++ load_rows_sse2 left buffer ximage (u32 (location + ximage))

unfoldable pub load_data_units_sse2 : ℕ → ℕ → Cinfo → Cinfo
load_data_units_sse2 xpos ypos cinfo =
    let location = u32 (ypos * cinfo.ximage + xpos) in
    record cinfo {
      du_dct_y = load_rows_sse2 8 cinfo.y_buffer cinfo.ximage location;
      du_dct_cb = load_rows_sse2 8 cinfo.cb_buffer cinfo.ximage location;
      du_dct_cr = load_rows_sse2 8 cinfo.cr_buffer cinfo.ximage location;
    }

-- A lane: the sample in the high byte above 0x00 or 0x80, plus 0x8000, shifted back.
lane-level_shift :
    (low p : ℕ) → low < 256 → sra16 8 (from_u16 (u16 (low + 2 ^ 8 * p + 0x8000))) ≡ level_shift p
unfolding sra16 level_shift
lane-level_shift low p h = ground arith

load_row_sse2-move_row :
    (buffer : List ℕ) (location : ℕ)
    → load_row_sse2 buffer location ≡ map (λ p. level_shift p) (move_row buffer location)
unfolding load_row_sse2 loadu_si128 bytes_of unpacklo_epi8 interleave add_set1_epi16 srai_epi16
    move_row
load_row_sse2-move_row buffer location =
    let even = λ (i : ℕ). lane-level_shift 0 (get_or buffer i 0) (omega arith) in
    let odd = λ (i : ℕ). lane-level_shift 128 (get_or buffer i 0) (omega arith) in
    λ j.
      even location j
      ∷ odd (suc location) j
      ∷ even (suc (suc location)) j
      ∷ odd (suc (suc (suc location))) j
      ∷ even (suc (suc (suc (suc location)))) j
      ∷ odd (suc (suc (suc (suc (suc location))))) j
      ∷ even (suc (suc (suc (suc (suc (suc location)))))) j
      ∷ odd (suc (suc (suc (suc (suc (suc (suc location))))))) j
      ∷ []

load_rows_sse2-move_rows :
    (left : ℕ) (buffer : List ℕ) (ximage location : ℕ)
    → load_rows_sse2 left buffer ximage location
      ≡ map (λ p. level_shift p) (move_rows left buffer ximage location)
unfolding load_rows_sse2 move_rows
load_rows_sse2-move_rows zero buffer ximage location = refl
load_rows_sse2-move_rows (suc left) buffer ximage location =
    rw
      (
        load_row_sse2-move_row buffer location,
        load_rows_sse2-move_rows left buffer ximage (u32 (location + ximage)),
      )
      (sym (map-append (λ p. level_shift p) (move_row buffer location) _))

-- For any position, the SSE2 version of `load_data_units_from_buffer`, which reads 16 bytes for a row and
-- shifts the samples in 16-bit lanes, loads the three blocks that the plain version loads.
pub load_data_units_sse2_lem :
    (xpos ypos : ℕ) (cinfo : Cinfo)
    → load_data_units_sse2 xpos ypos cinfo ≡ load_data_units_from_buffer xpos ypos cinfo
unfolding load_data_units_sse2 load_data_units_from_buffer load_component
load_data_units_sse2_lem xpos ypos cinfo =
    let same = λ (buffer : List ℕ).
      load_rows_sse2-move_rows 8 buffer cinfo.ximage (u32 (ypos * cinfo.ximage + xpos)) in
    λ i. record cinfo {
      du_dct_y = same cinfo.y_buffer i;
      du_dct_cb = same cinfo.cb_buffer i;
      du_dct_cr = same cinfo.cr_buffer i;
    }
