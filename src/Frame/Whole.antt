-- ===== src/Frame/Whole.antt =====
-- The first frame that `getBufFormBmp` of libusbdisp/jpegenc.c sends: all blocks, row by row.
use mathlib.Core.Path.{subst}
use mathlib.Core.List.{append_assoc, append-nil}
use jpeg_study.Prelude.{ℕ, zero, suc, ◌+◌, ◌*◌, ◌/◌, ◌<◌, ◌≡◌, refl, ap, ◌∙◌, sym, arith}
use jpeg_study.Prelude.{
  Bool, true, false, ◌==◌, ◌&&◌, not, if◌then◌else◌, List, [], ◌∷◌, ◌++◌, length, length-append,
  some,
}
use jpeg_study.Bmp.Blocks.{filled, length-filled}
use jpeg_study.Quant.Tables.{Divisors}
use jpeg_study.Frame.Sent.{CanCode, Holds, send_block-Sent}
use jpeg_study.Frame.Blocks.{
  same_bytes, copy_bytes, block_size, CodedBlock, Frame, Setting, send_block, frame_block, x_blocks,
  y_blocks, frame_blocks,
}

-- The places of the blocks of a frame, row by row.
abbrev pub block_row : ℕ → ℕ → ℕ → List (ℕ × ℕ)
block_row blk_y left blk_x = filled left blk_x (λ x. (blk_y, x) ∷ [])

abbrev pub block_places : ℕ → ℕ → ℕ → List (ℕ × ℕ)
block_places w left blk_y = filled left blk_y (λ y. block_row y w 0)

sum_row : (y w : ℕ) → suc y * w ≡ y * w + w
sum_row y w = grind arith

abbrev pub columns : Setting → ℕ
columns s = s.width8 / 32

abbrev pub rows : Setting → ℕ
rows s = s.height8 / 8

module _ (s : Setting) (d : Divisors) where
  abbrev pub HoldsPlace : ℕ × ℕ → CodedBlock → Type 0
  HoldsPlace (y, x) b =
      Holds s d (y * (s.width8 * 4 * 8) + x * 32 * 4) (y * columns s + x)
        (if x + 1 == columns s && y + 1 == rows s then 1 else 0) b

  abbrev pub HoldAll : List (ℕ × ℕ) → List CodedBlock → Type 0
  HoldAll [] [] = Unit {0}
  HoldAll [] (b ∷ bs) = ⊥
  HoldAll (p ∷ ps) [] = ⊥
  HoldAll (p ∷ ps) (b ∷ bs) = HoldsPlace p b × HoldAll ps bs

  HoldAll-append :
      (ps qs : List (ℕ × ℕ)) (bs cs : List CodedBlock)
      → HoldAll ps bs
      → HoldAll qs cs
      → HoldAll (ps ++ qs) (bs ++ cs)
  HoldAll-append [] qs [] cs m n = n
  HoldAll-append [] qs (b ∷ bs) cs m n = elim m [ ]
  HoldAll-append (p ∷ ps) qs [] cs m n = elim m [ ]
  HoldAll-append (p ∷ ps) qs (b ∷ bs) cs m n = (m.0, HoldAll-append ps qs bs cs m.1 n)

module _ (s : Setting) (d : Divisors) (first_frame : s.first ≡ true) where
  -- Nothing is compared in a first frame.
  frame_block-first :
      (row y x : ℕ) (f : Frame)
      → frame_block s row y x f
        ≡ send_block s (row + x * 32 * 4) (x + 1 == (columns s) && y + 1 == (rows s)) f
  unfolding frame_block
  frame_block-first row y x f =
      let at = row + x * 32 * 4 in
      ap
        (λ (first : Bool).
          if not first && same_bytes block_size at f.old_buffer s.raw
          then some (record f { blk_cnt = f.blk_cnt + 1 })
          else send_block s at (x + 1 == (columns s) && y + 1 == (rows s)) (record f {
            old_buffer =
                if first then f.old_buffer else copy_bytes block_size at f.old_buffer s.raw;
          }))
        first_frame

  -- A part of the loops: the blocks that it adds, and what the rest goes on with.
  record Adds (places : List (ℕ × ℕ)) (f f' : Frame) (more : Type 0) : Type 0 where
    added : List CodedBlock
    hold : HoldAll s d places added
    appended : f'.bitstream ≡ f.bitstream ++ added
    counted : f'.blk_cnt ≡ f.blk_cnt + length places
    unmarked : more → f'.mark ≡ 0
    still : CanCode s d f'.cinfo

  frame_block-Adds :
      (y x : ℕ) (f : Frame)
      → f.mark ≡ 0
      → f.blk_cnt ≡ y * (columns s) + x
      → CanCode s d f.cinfo
      → (f' : Frame) × (frame_block s (y * (s.width8 * 4 * 8)) y x f ≡ some f')
        × Adds ((y, x) ∷ []) f f' ((x + 1 == (columns s) && y + 1 == (rows s)) ≡ false)
  frame_block-Adds y x f unmarked count can =
      let last = x + 1 == (columns s) && y + 1 == (rows s) in
      let r = send_block-Sent s d (y * (s.width8 * 4 * 8) + x * 32 * 4) last f can in
      let at = y * (s.width8 * 4 * 8) + x * 32 * 4 in
      let mark_is = ap (λ (m : ℕ). if last then 1 else m) unmarked in
      (
        r.0,
        frame_block-first (y * (s.width8 * 4 * 8)) y x f ∙ r.1,
        record {
          added = r.2.block ∷ [];
          hold = (
            subst (λ (k : ℕ). Holds s d at k (if last then 1 else 0) r.2.block) count
                (subst (λ (m : ℕ). Holds s d at f.blk_cnt m r.2.block) mark_is r.2.holds),
            tt,
          );
          appended = r.2.appended;
          counted = r.2.counted;
          unmarked = λ other. r.2.marked ∙ mark_is ∙ ap (λ (b : Bool). if b then 1 else 0) other;
          still = r.2.still;
        },
      )

  -- `rest` behind `part`.
  Adds-then :
      (ps qs : List (ℕ × ℕ)) (f f' f'' : Frame) (more more' : Type 0)
      → Adds ps f f' more
      → Adds qs f' f'' more'
      → Adds (ps ++ qs) f f'' more'
  Adds-then ps qs f f' f'' more more' a b = record {
    added = a.added ++ b.added;
    hold = HoldAll-append s d ps qs a.added b.added a.hold b.hold;
    appended =
        b.appended ∙ ap (λ bs. bs ++ b.added) a.appended ∙ append_assoc f.bitstream a.added b.added;
    counted = omega (arith, a.counted, b.counted, length-append ps qs);
    unmarked = b.unmarked;
    still = b.still;
  }

  not_last_column :
      (x y : ℕ) → x + 1 < (columns s) → (x + 1 == (columns s) && y + 1 == (rows s)) ≡ false
  not_last_column x y l = let other : (x + 1 == (columns s)) ≡ false = ground arith in rw other refl

  not_last_row : (x y : ℕ) → y + 1 < (rows s) → (x + 1 == (columns s) && y + 1 == (rows s)) ≡ false
  not_last_row x y l = ground arith

  x_blocks-Adds :
      (left y x : ℕ) (f : Frame)
      → x + left ≡ (columns s)
      → (0 < left → f.mark ≡ 0)
      → (y + 1 < (rows s) → f.mark ≡ 0)
      → f.blk_cnt ≡ y * (columns s) + x
      → CanCode s d f.cinfo
      → (f' : Frame) × (x_blocks s left (y * (s.width8 * 4 * 8)) y x f ≡ some f')
        × Adds (block_row y left x) f f' (y + 1 < (rows s))
  unfolding x_blocks
  x_blocks-Adds zero y x f sum here later count can = (
    f,
    refl,
    record {
      added = [];
      hold = tt;
      appended = sym (append-nil f.bitstream);
      counted = omega arith;
      unmarked = later;
      still = can;
    },
  )
  x_blocks-Adds (suc left) y x f sum here later count can =
      let one = frame_block-Adds y x f (here (omega arith)) count can in
      let rest =
        x_blocks-Adds left y (suc x) one.0 (omega arith)
          (λ l. one.2.unmarked (not_last_column x y (omega arith)))
          (λ l. one.2.unmarked (not_last_row x y l)) (omega (arith, one.2.counted)) one.2.still in
      (
        rest.0,
        rw (one.1) rest.1,
        Adds-then ((y, x) ∷ []) (block_row y left (suc x)) f one.0 rest.0 _ _ one.2 rest.2,
      )

  y_blocks-Adds :
      (left y : ℕ) (f : Frame)
      → y + left ≡ (rows s)
      → (0 < left → f.mark ≡ 0)
      → f.blk_cnt ≡ y * (columns s)
      → CanCode s d f.cinfo
      → (f' : Frame) × (y_blocks s left (y * (s.width8 * 4 * 8)) y f ≡ some f')
        × Adds (block_places (columns s) left y) f f' ⊥
  unfolding y_blocks
  y_blocks-Adds zero y f sum here count can = (
    f,
    refl,
    record {
      added = [];
      hold = tt;
      appended = sym (append-nil f.bitstream);
      counted = omega arith;
      unmarked = λ never. absurd never;
      still = can;
    },
  )
  y_blocks-Adds (suc left) y f sum here count can =
      let one =
        x_blocks-Adds (columns s) y 0 f (omega arith) (λ l. here (omega arith))
          (λ l. here (omega arith)) (omega arith) can in
      let next : y * (s.width8 * 4 * 8) + s.width8 * 4 * 8 ≡ suc y * (s.width8 * 4 * 8) =
        grind arith in
      let row_length : length (block_row y (columns s) 0) ≡ (columns s) * 1 =
        length-filled 1 (λ x. (y, x) ∷ []) (columns s) 0 (λ k l m. refl) in
      let count' : one.0.blk_cnt ≡ suc y * (columns s) =
        omega (arith, one.2.counted, row_length, sum_row y (columns s)) in
      let rest =
        y_blocks-Adds left (suc y) one.0 (omega arith) (λ l. one.2.unmarked (omega arith)) count'
          one.2.still in
      (
        rest.0,
        rw (one.1, next) rest.1,
        Adds-then (block_row y (columns s) 0) (block_places (columns s) left (suc y)) f one.0 rest.0
            _ _ one.2 rest.2,
      )

-- With nothing to compare with, with the standard tables in the static variables and with a transform that
-- gives baseline coefficients, the loops over a frame end and have coded every block of 32 by 8 pixels, row
-- by row. Each stands behind a header with its index and its length, the last one with the mark, and holds
-- the scan data of its pixels, from which a decoder reads the transformed blocks back.
pub frame_blocks-HoldAll :
    (s : Setting) (d : Divisors) (f : Frame)
    → s.first ≡ true
    → f.mark ≡ 0
    → f.blk_cnt ≡ 0
    → f.bitstream ≡ []
    → CanCode s d f.cinfo
    → (f' : Frame) × (frame_blocks s f ≡ some f')
      × HoldAll s d (block_places (columns s) (rows s) 0) f'.bitstream
unfolding frame_blocks
frame_blocks-HoldAll s d f first unmarked none_yet empty can =
    let r = y_blocks-Adds s d first (rows s) 0 f (omega arith) (λ l. unmarked) (omega arith) can in
    let start : 0 ≡ 0 * (s.width8 * 4 * 8) = omega arith in
    let all : r.0.bitstream ≡ r.2.added = r.2.appended ∙ ap (λ bs. bs ++ r.2.added) empty in
    (
      r.0,
      ap (λ (row : ℕ). y_blocks s (rows s) row 0 f) start ∙ r.1,
      subst (λ bs. HoldAll s d (block_places (columns s) (rows s) 0) bs) (sym all) r.2.hold,
    )
