-- ===== src/Bmp/Accepts.antt =====
-- Which files `load_bmp` of libusbdisp/jpegenc.c loads, and which it refuses.
use jpeg_study.Prelude.{ℕ, ◌*◌, ◌^◌, ◌<◌, ◌≤◌, ◌≡◌, refl, ◌∙◌, arith}
use jpeg_study.Prelude.{
  Bool, true, false, ltb, lt→ltb, ltb→lt, ◌==◌, not, ◌&&◌, Bool-cases, ◌⊎◌, inl, inr, if◌then◌else◌,
}
use jpeg_study.Prelude.{List, length, some}
use jpeg_study.Prelude.Int.{magnitude}
use jpeg_study.Bmp.Blocks.{length-filled}
use jpeg_study.Bmp.Headers.{file_header, info_header}
use jpeg_study.Bmp.Load.{
  Bitmap, refused, loaded, is_top_down, pixel24, pixel32, copy24, copy32, copy_rows, copy_pixels,
  check_headers, load_bmp,
}

-- The sizes for which no `int` overflows.
pub record IsSmall (width height : ℕ) : Type 0 where
  pub width_lt : width < 2 ^ 31
  pub height_lt : height < 2 ^ 31
  pub pixels_lt : width * height * 4 < 2 ^ 31
  pub row_lt : width * 4 < 2 ^ 31

-- The kinds of file that are supported, with the memory to load them.
pub record IsSupported (memory : ℕ → Bool) (file : List ℕ) : Type 0 where
  pub has_headers : 54 ≤ length file
  pub file_memory : memory (length file) ≡ true
  pub type_is : (file_header file).bf_type ≡ 0x4D42
  pub uncompressed : (info_header file).bi_compression ≡ 0
  pub depth_is : ((info_header file).bi_bit_count ≡ 24) ⊎ ((info_header file).bi_bit_count ≡ 32)
  pub small :
      IsSmall (magnitude ((info_header file).bi_width)) (magnitude ((info_header file).bi_height))
  pub pixel_memory :
      memory
        (magnitude ((info_header file).bi_width) * magnitude ((info_header file).bi_height) * 4)
      ≡ true

module _ (file : List ℕ) (psrc : ℕ) (top_down : Bool) (width height : ℕ) where
  length-copy24 : length (copy24 file psrc top_down width height) ≡ width * height * 4
  unfolding copy24 pixel24
  length-copy24 =
      length-filled (width * 4) _ height 0 (λ i h l. length-filled 4 _ width 0 (λ j p q. refl))
      ∙ grind arith

  length-copy32 : length (copy32 file psrc top_down width height) ≡ width * height * 4
  unfolding copy32 pixel32
  length-copy32 =
      length-filled (width * 4) _ height 0 (λ i h l. length-filled 4 _ width 0 (λ j p q. refl))
      ∙ grind arith

-- A bitmap of the size that the headers give.
abbrev pub Loaded : (ℕ → Bool) → List ℕ → Type 0
Loaded memory file =
    (b : Bitmap) × (load_bmp memory (some file) ≡ loaded b)
    × (b.width ≡ magnitude ((info_header file).bi_width))
    × (b.height ≡ magnitude ((info_header file).bi_height))
    × (length b.pixels ≡ b.width * b.height * 4)

module _ (memory : ℕ → Bool) (file : List ℕ) where
  IsSupported-Loaded : IsSupported memory file → Loaded memory file
  unfolding load_bmp check_headers copy_pixels copy_rows
  IsSupported-Loaded s =
      let width = magnitude ((info_header file).bi_width) in
      let height = magnitude ((info_header file).bi_height) in
      let psrc = (file_header file).bf_off_bits in
      let top_down = is_top_down ((info_header file).bi_height) in
      let bitmap : List ℕ → Bitmap =
        λ pixels. record { width = width; height = height; pixels = pixels } in
      let long : ltb (length file) 54 ≡ false = ground (arith, s.has_headers) in
      let w = lt→ltb _ _ s.small.width_lt in
      let h = lt→ltb _ _ s.small.height_lt in
      let p = lt→ltb _ _ s.small.pixels_lt in
      let r = lt→ltb _ _ s.small.row_lt in
      elim s.depth_is [
        | inl d ↦ (
          bitmap (copy24 file psrc top_down width height),
          rw (long, s.file_memory, s.type_is, s.uncompressed, d, w, h, p, s.pixel_memory, r) refl,
          refl,
          refl,
          length-copy24 file psrc top_down width height,
        )
        | inr d ↦ (
          bitmap (copy32 file psrc top_down width height),
          rw (long, s.file_memory, s.type_is, s.uncompressed, d, w, h, p, s.pixel_memory, r) refl,
          refl,
          refl,
          length-copy32 file psrc top_down width height,
        )
      ]

  -- Each check that fails makes the result another one.
  small_case :
      (b : Bitmap)
      → copy_pixels memory file (file_header file) (info_header file) ≡ loaded b
      → let width = magnitude ((info_header file).bi_width) in
        let height = magnitude ((info_header file).bi_height) in
        IsSmall width height × (memory (width * height * 4) ≡ true)
  unfolding copy_pixels copy_rows
  small_case b h =
      let width = magnitude ((info_header file).bi_width) in
      let height = magnitude ((info_header file).bi_height) in
      elim (Bool-cases (ltb width (2 ^ 31))) [
        | inr wide ↦ let e = rw wide at h in cc
        | inl w ↦ elim (Bool-cases (ltb height (2 ^ 31))) [
          | inr high ↦ let e = rw (w, high) at h in cc
          | inl l ↦ elim (Bool-cases (ltb (width * height * 4) (2 ^ 31))) [
            | inr large ↦ let e = rw (w, l, large) at h in cc
            | inl p ↦ elim (Bool-cases (memory (width * height * 4))) [
              | inr full ↦ let e = rw (w, l, p, full) at h in cc
              | inl room ↦ elim (Bool-cases (ltb (width * 4) (2 ^ 31))) [
                | inr long ↦ let e = rw (w, l, p, room, long) at h in cc
                | inl r ↦ (
                  record {
                    width_lt = ltb→lt _ _ w;
                    height_lt = ltb→lt _ _ l;
                    pixels_lt = ltb→lt _ _ p;
                    row_lt = ltb→lt _ _ r;
                  },
                  room,
                )
              ]
            ]
          ]
        ]
      ]

  depth_case :
      (b : Bitmap)
      → (if not ((info_header file).bi_bit_count == 24)
            && not ((info_header file).bi_bit_count == 32)
          then refused
          else copy_pixels memory file (file_header file) (info_header file))
        ≡ loaded b
      → (((info_header file).bi_bit_count ≡ 24) ⊎ ((info_header file).bi_bit_count ≡ 32))
        × (copy_pixels memory file (file_header file) (info_header file) ≡ loaded b)
  depth_case b h = elim (Bool-cases ((info_header file).bi_bit_count == 24)) [
    | inl d ↦ (inl (ground arith), rw d at h)
    | inr d ↦ elim (Bool-cases ((info_header file).bi_bit_count == 32)) [
      | inl d' ↦ (inr (ground arith), rw (d, d') at h)
      | inr d' ↦ let e = rw (d, d') at h in cc
    ]
  ]

  Loaded-IsSupported :
      (b : Bitmap) → load_bmp memory (some file) ≡ loaded b → IsSupported memory file
  unfolding load_bmp check_headers
  Loaded-IsSupported b h = elim (Bool-cases (ltb (length file) 54)) [
    | inl short ↦ let e = rw short at h in cc
    | inr long ↦ elim (Bool-cases (memory (length file))) [
      | inr full ↦ let e = rw (long, full) at h in cc
      | inl room ↦ elim (Bool-cases ((file_header file).bf_type == 0x4D42)) [
        | inr other ↦ let e = rw (long, room, other) at h in cc
        | inl type_is ↦ elim (Bool-cases ((info_header file).bi_compression == 0)) [
          | inr packed ↦ let e = rw (long, room, type_is, packed) at h in cc
          | inl plain ↦
              let e = rw (long, room, type_is, plain) at h in
              let depth = depth_case b e in
              let rest = small_case b depth.1 in
              record {
                has_headers = ground arith;
                file_memory = room;
                type_is = ground arith;
                uncompressed = ground arith;
                depth_is = depth.0;
                small = rest.0;
                pixel_memory = rest.1;
              }
        ]
      ]
    ]
  ]

-- `load_bmp` loads a file that could be read exactly if it has at least 54 bytes, the signature BM, no
-- compression and 24 or 32 bits for a pixel, both calls of `malloc` succeed, and no `int` overflows: width and height
-- without their signs, four times the width, and four times their product are below 2^31. The bitmap then has that
-- width and height and four bytes for each pixel.
pub load_bmp-IsSupported :
    (memory : ℕ → Bool) (file : List ℕ)
    → (IsSupported memory file → Loaded memory file)
      × ((b : Bitmap) → load_bmp memory (some file) ≡ loaded b → IsSupported memory file)
load_bmp-IsSupported memory file = (IsSupported-Loaded memory file, Loaded-IsSupported memory file)
