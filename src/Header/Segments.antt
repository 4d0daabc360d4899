-- ===== src/Header/Segments.antt =====
-- A reader of the marker syntax of JPEG files (annex B), written without regard to the encoder, for
-- what libusbdisp/libenc/jpeg_enc.c writes.
use jpeg_study.Prelude.{ℕ, zero, suc, ◌+◌, ◌-◌, ◌*◌, ◌==◌, ltb, leb, if◌then◌else◌, ◌&&◌}
use jpeg_study.Prelude.{List, [], ◌∷◌, ◌++◌, Option, none, some, length, take, drop, get_or}
pub mod WriteHeader

-- A segment without its length: the second byte of the marker, and what follows the length.
pub record Segment : Type 0 where
  pub code : ℕ
  pub body : List ℕ

-- The segments read so far and the bytes behind them.
abbrev pub Parsed : Type 0
Parsed = Option (List Segment × List ℕ)

abbrev cons_segment : Segment → Parsed → Parsed
cons_segment s none = none
cons_segment s (some (more, rest)) = some (s ∷ more, rest)

-- The first `n` bytes and the rest, if there are so many.
unfoldable pub split_bytes : ℕ → List ℕ → Option (List ℕ × List ℕ)
split_bytes zero bytes = some ([], bytes)
split_bytes (suc n) [] = none
split_bytes (suc n) (b ∷ bytes) = elim (split_bytes n bytes) [
  | none ↦ none
  | some (front, rest) ↦ some (b ∷ front, rest)
]

-- Reads segments up to the start of scan, at most `fuel` of them. A length counts its own two bytes.
unfoldable pub read_segments : ℕ → List ℕ → Parsed
unfolding split_bytes
read_segments zero bytes = none
read_segments (suc fuel) (mark ∷ code ∷ hi ∷ lo ∷ rest) =
    elim (split_bytes (hi * 256 + lo - 2) rest) [
      | none ↦ none
      | some (body, behind) ↦
          let s : Segment = record { code = code; body = body } in
          let more = cons_segment s (read_segments fuel behind) in
          let next = if code == 0xda then some (s ∷ [], behind) else more in
          if (mark == 0xff) && ltb 1 (hi * 256 + lo) then next else none
    ]
read_segments (suc fuel) bytes = none

-- A file starts with the marker SOI.
unfoldable pub read_header : ℕ → List ℕ → Parsed
unfolding read_segments
read_header fuel (mark ∷ code ∷ rest) =
    if (mark == 0xff) && (code == 0xd8) then read_segments fuel rest else none
read_header fuel bytes = none

-- Height and width of the image, as a frame header's body states them.
unfoldable pub frame_height : List ℕ → ℕ
frame_height body = get_or body 1 0 * 256 + get_or body 2 0

unfoldable pub frame_width : List ℕ → ℕ
frame_width body = get_or body 3 0 * 256 + get_or body 4 0
