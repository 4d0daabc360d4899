-- ===== src/Encoder/Load.antt =====
-- `load_data_units_from_buffer` of libusbdisp/libenc/jpeg_enc.c.
use mathlib.Core.List.{map}
use native.Mathlib.Nat.{mul-le-mul_right}
use jpeg_study.Prelude.{ℕ, zero, suc, ◌+◌, ◌-◌, ◌*◌, ◌^◌, ◌≤◌, ◌<◌, ◌≡◌, refl, ap, ◌∙◌, arith}
use jpeg_study.Prelude.{ltb, if◌then◌else◌, u8, u32}
use jpeg_study.Prelude.{
  All, All-get_or, List, [], ◌++◌, get_or, length, length-append, length-map, get_or-map_in,
  range_from, get_or-range_from, get_or-append_left, get_or-append_right,
}
use jpeg_study.Prelude.Int.{ℤ, pos, negsuc, ◌-ℤ◌, magnitude}
use jpeg_study.Encoder.Cinfo.{Cinfo}

-- The move of 8 bytes at once. A read behind the end of the buffer, which C leaves undefined, gives 0.
unfoldable pub move_row : List ℕ → ℕ → List ℕ
move_row buffer location = map (λ i. get_or buffer i 0) (range_from 8 location)

-- The first loop for one component: `location += cinfo->Ximage` on a `DWORD`.
unfoldable pub move_rows : ℕ → List ℕ → ℕ → ℕ → List ℕ
move_rows zero buffer ximage location = []
move_rows (suc left) buffer ximage location =
    move_row buffer location ++ move_rows left buffer ximage (u32 (location + ximage))

-- `(SWORD)((SBYTE)(YDU[i]+128))`, for the `SBYTE` with bit pattern `p`: the sum is an `int`, of which
-- the conversion keeps the low byte.
unfoldable pub level_shift : ℕ → ℤ
level_shift p =
    let sample = u8 (p + 128) in if ltb sample 128 then pos sample else negsuc (256 - sample - 1)

unfoldable pub load_component : List ℕ → ℕ → ℕ → ℕ → List ℤ
load_component buffer ximage xpos ypos =
    map (λ p. level_shift p) (move_rows 8 buffer ximage (u32 (ypos * ximage + xpos)))

unfoldable pub load_data_units_from_buffer : ℕ → ℕ → Cinfo → Cinfo
load_data_units_from_buffer xpos ypos cinfo = record cinfo {
  du_dct_y = load_component cinfo.y_buffer cinfo.ximage xpos ypos;
  du_dct_cb = load_component cinfo.cb_buffer cinfo.ximage xpos ypos;
  du_dct_cr = load_component cinfo.cr_buffer cinfo.ximage xpos ypos;
}

-- The level shift of the standard: a sample from 0 to 255 less 128.
pub level_shift_lem : (p : ℕ) → p < 256 → level_shift p ≡ pos p -ℤ pos 128
unfolding level_shift ◌-ℤ◌
level_shift_lem p h = ground arith

pub level_shift_bounds : (p : ℕ) → magnitude (level_shift p) ≤ 128
unfolding level_shift
level_shift_bounds p = ground arith

module _ (buffer : List ℕ) where
  pub length-move_rows :
      (left ximage location : ℕ) → length (move_rows left buffer ximage location) ≡ 8 * left
  unfolding move_rows move_row
  length-move_rows zero ximage location = refl
  length-move_rows (suc left) ximage location =
      length-append (move_row buffer location)
        (move_rows left buffer ximage (u32 (location + ximage)))
      ∙ omega (arith, length-move_rows left ximage (u32 (location + ximage)))

  get_or-move_row :
      (location c : ℕ)
      → c < 8
      → get_or (move_row buffer location) c 0 ≡ get_or buffer (location + c) 0
  unfolding move_row
  get_or-move_row location c h =
      get_or-map_in (λ (i : ℕ). get_or buffer i 0) (range_from 8 location) c 0 0 h
      ∙ ap (λ (i : ℕ). get_or buffer i 0) (get_or-range_from 8 location c 0 h)

  -- While the location does not wrap, byte `8 * r + c` is the one `c` places behind the start of row `r`.
  get_or-move_rows :
      (left ximage location r c : ℕ)
      → r < left
      → c < 8
      → location + r * ximage < 2 ^ 32
      → get_or (move_rows left buffer ximage location) (8 * r + c) 0
        ≡ get_or buffer (location + r * ximage + c) 0
  unfolding move_rows move_row
  get_or-move_rows zero ximage location r c hr hc small = absurd (omega arith)
  get_or-move_rows (suc left) ximage location zero c hr hc small =
      let first : 8 * 0 + c ≡ c = omega arith in
      let start : location + 0 * ximage + c ≡ location + c = omega arith in
      rw (first, start)
        (get_or-append_left (move_row buffer location) _ c 0 hc ∙ get_or-move_row location c hc)
  get_or-move_rows (suc left) ximage location (suc r) c hr hc small =
      let behind : 8 * suc r + c ≡ length (move_row buffer location) + (8 * r + c) = omega arith in
      let next : u32 (location + ximage) ≡ location + ximage = omega arith in
      let same : location + ximage + r * ximage + c ≡ location + suc r * ximage + c = omega arith in
      ap
        (λ (k : ℕ).
          get_or
            (move_row buffer location ++ move_rows left buffer ximage (u32 (location + ximage))) k
            0)
        behind
      ∙ get_or-append_right (move_row buffer location) _ (8 * r + c) 0
      ∙ rw next
          (get_or-move_rows left ximage (location + ximage) r c (omega arith) hc (omega arith))
      ∙ ap (λ (k : ℕ). get_or buffer k 0) same

  pub length-load_component :
      (ximage xpos ypos : ℕ) → length (load_component buffer ximage xpos ypos) ≡ 64
  unfolding load_component
  length-load_component ximage xpos ypos =
      length-map _ (move_rows 8 buffer ximage (u32 (ypos * ximage + xpos)))
      ∙ length-move_rows 8 ximage (u32 (ypos * ximage + xpos))

  -- For a block inside an image of fewer than 2^32 samples whose bytes fill the buffer, and `r` and `c`
  -- below 8, coefficient `8 * r + c` is the sample of row `ypos + r` and column `xpos + c` less 128, and
  -- the read stays inside the buffer.
  pub load_component-sample :
      (ximage yimage xpos ypos r c : ℕ)
      → length buffer ≡ yimage * ximage
      → All (λ p. p < 256) buffer
      → xpos + 8 ≤ ximage
      → ypos + 8 ≤ yimage
      → yimage * ximage < 2 ^ 32
      → r < 8
      → c < 8
      → (get_or (load_component buffer ximage xpos ypos) (8 * r + c) (pos 0)
          ≡ pos (get_or buffer ((ypos + r) * ximage + (xpos + c)) 0) -ℤ pos 128)
        × ((ypos + r) * ximage + (xpos + c) < length buffer)
  unfolding load_component
  load_component-sample ximage yimage xpos ypos r c sized bytes inside_x inside_y small hr hc =
      let start = ypos * ximage + xpos in
      let fits : (ypos + r + 1) * ximage ≤ yimage * ximage =
        mul-le-mul_right ximage (omega arith) in
      let room : start + r * ximage < 2 ^ 32 = omega (arith, fits) in
      let no_wrap : u32 start ≡ start = omega arith in
      let place : start + r * ximage + c ≡ (ypos + r) * ximage + (xpos + c) = omega arith in
      let short : 8 * r + c < length (move_rows 8 buffer ximage start) =
        omega (arith, length-move_rows 8 ximage start) in
      let bound : get_or buffer ((ypos + r) * ximage + (xpos + c)) 0 < 256 =
        All-get_or (λ (p : ℕ). p < 256) buffer ((ypos + r) * ximage + (xpos + c)) 0 bytes
          (omega arith) in
      (
        rw no_wrap (
            get_or-map_in (λ (p : ℕ). level_shift p) (move_rows 8 buffer ximage start) (8 * r + c) 0
              (pos 0) short
            ∙ ap (λ (p : ℕ). level_shift p)
                (get_or-move_rows 8 ximage start r c hr hc room
                  ∙ ap (λ (k : ℕ). get_or buffer k 0) place)
            ∙ level_shift_lem _ bound),
        omega (arith, fits),
      )
