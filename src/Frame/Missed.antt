-- ===== src/Frame/Missed.antt =====
-- Blocks that `getBufFormBmp` of libusbdisp/jpegenc.c leaves out although they have changed: when it sends a
-- block it copies BLOCK_SIZE bytes that follow each other into the frame that it keeps, and with them the
-- first row of the five blocks to the right.
use jpeg_study.Prelude.{ℕ, zero, suc, ◌+◌, ◌-◌, ◌*◌, ◌/◌, ◌<◌, ◌≤◌, ◌≡◌, refl, ap, ◌∙◌, arith}
use jpeg_study.Prelude.{
  Bool, false, ◌==◌, ◌&&◌, not, if◌then◌else◌, dec_lt, inr, List, [], ◌∷◌, ◌++◌, get_or, length,
  some,
}
use jpeg_study.Quant.Tables.{Divisors}
use jpeg_study.Frame.Blocks.{
  same_bytes, copy_bytes, block_size, CodedBlock, Frame, Setting, send_block, frame_block, x_blocks,
  y_blocks, frame_blocks,
}
use jpeg_study.Frame.Skips.{copy_bytes-Agree, copy_bytes_outside, x_blocks-skip, y_blocks-skip}
use jpeg_study.Frame.Sent.{CanCode, Holds, send_block-Sent}
use jpeg_study.Frame.Whole.{columns, rows}

-- Two buffers agree in every byte.
abbrev pub SameBytes : List ℕ → List ℕ → Type 0
SameBytes a b = (k : ℕ) → get_or a k 0 ≡ get_or b k 0

-- The first block of a frame is sent, and the others are passed over.
pub record OnlyFirst (s : Setting) (d : Divisors) (f f' : Frame) : Type 0 where
  pub block : CodedBlock
  pub mark : ℕ
  pub holds : Holds s d 0 f.blk_cnt mark block
  pub sent : f'.bitstream ≡ f.bitstream ++ (block ∷ [])
  pub counted : f'.blk_cnt ≡ f.blk_cnt + rows s * columns s
  pub same : SameBytes f'.old_buffer s.raw

count_all : (n r c : ℕ) → 0 < r → 0 < c → n + 1 + (c - 1) + (r - 1) * c ≡ n + r * c
count_all n zero c hr hc = absurd (omega arith)
count_all n (suc r) zero hr hc = absurd (omega arith)
count_all n (suc r) (suc c) hr hc = let less : suc r - 1 ≡ r = omega arith in rw less (grind arith)

module _ (s : Setting) (d : Divisors) (later_frame : s.first ≡ false) where
  -- Nothing is left to send where the frame kept is the new one.
  x_blocks-rest :
      (left row y : ℕ) (f f' : Frame)
      → 0 < left
      → frame_block s row y 0 f ≡ some f'
      → SameBytes f'.old_buffer s.raw
      → x_blocks s left row y 0 f ≡ some (record f' { blk_cnt = f'.blk_cnt + (left - 1) })
  unfolding x_blocks
  x_blocks-rest zero row y f f' some_left first same = absurd (omega arith)
  x_blocks-rest (suc left) row y f f' some_left first same = rw first (
      x_blocks-skip s later_frame left row y 1 f' (λ x l m k p q. same k)
      ∙ ap (λ (n : ℕ). some (record f' { blk_cnt = f'.blk_cnt + n })) (omega arith))

  y_blocks-rest :
      (left row y : ℕ) (f f' : Frame)
      → 0 < left
      → x_blocks s (columns s) row y 0 f ≡ some f'
      → SameBytes f'.old_buffer s.raw
      → y_blocks s left row y f ≡ some (record f' { blk_cnt = f'.blk_cnt + (left - 1) * columns s })
  unfolding y_blocks
  y_blocks-rest zero row y f f' some_left first same = absurd (omega arith)
  y_blocks-rest (suc left) row y f f' some_left first same =
      let less : suc left - 1 ≡ left = omega arith in
      rw (first, less)
        (y_blocks-skip s later_frame left (row + s.width8 * 4 * 8) (suc y) f'
          (λ y x l m k p q. same k))

  -- The first block differs: it is sent and copied.
  copied : Frame → Frame
  copied f = record f { old_buffer = copy_bytes block_size 0 f.old_buffer s.raw }

  last_test : Bool
  last_test = 0 + 1 == s.width8 / 32 && 0 + 1 == s.height8 / 8

  frame_block-differs :
      (f : Frame)
      → same_bytes block_size 0 f.old_buffer s.raw ≡ false
      → frame_block s 0 0 0 f ≡ send_block s 0 last_test (copied f)
  unfolding frame_block copied last_test
  frame_block-differs f differs =
      ap
        (λ (first : Bool).
          if not first && same_bytes block_size 0 f.old_buffer s.raw
          then some (record f { blk_cnt = f.blk_cnt + 1 })
          else send_block s 0 last_test (record f {
            old_buffer = if first then f.old_buffer else copy_bytes block_size 0 f.old_buffer s.raw;
          }))
        later_frame
      ∙ rw differs refl

  copied_same :
      (f : Frame)
      → block_size ≤ length f.old_buffer
      → ((k : ℕ) → block_size ≤ k → get_or f.old_buffer k 0 ≡ get_or s.raw k 0)
      → SameBytes ((copied f).old_buffer) s.raw
  unfolding copied
  copied_same f room behind k = elim (dec_lt k block_size) [
    | yes inside ↦
        copy_bytes-Agree block_size 0 f.old_buffer s.raw room k (omega arith) (omega arith)
    | no outside ↦
        copy_bytes_outside block_size 0 f.old_buffer s.raw k (inr (omega arith))
        ∙ behind k (omega arith)
  ]

-- A frame that differs from the one before only in its first 768 bytes, the first row of its first six
-- blocks, is sent as its first block alone, whichever of the six have changed, and is kept as if all had
-- been sent. This is so for any frame of at least one block, with the standard tables in the static
-- variables and a transform that gives baseline coefficients.
pub frame_blocks-OnlyFirst :
    (s : Setting) (d : Divisors) (f : Frame)
    → s.first ≡ false
    → 0 < columns s
    → 0 < rows s
    → block_size ≤ length f.old_buffer
    → same_bytes block_size 0 f.old_buffer s.raw ≡ false
    → ((k : ℕ) → block_size ≤ k → get_or f.old_buffer k 0 ≡ get_or s.raw k 0)
    → CanCode s d f.cinfo
    → (f' : Frame) × (frame_blocks s f ≡ some f') × OnlyFirst s d f f'
unfolding frame_blocks copied
frame_blocks-OnlyFirst s d f later wide high room differs behind can =
    let r = send_block-Sent s d 0 (last_test s d later) (copied s d later f) can in
    let first = frame_block-differs s d later f differs ∙ r.1 in
    let same =
      λ (k : ℕ). ap (λ old. get_or old k 0) r.2.old_kept ∙ copied_same s d later f room behind k in
    let row = x_blocks-rest s d later (columns s) 0 0 f r.0 wide first same in
    let all = y_blocks-rest s d later (rows s) 0 0 f _ high row same in
    (
      _,
      all,
      record {
        block = r.2.block;
        mark = _;
        holds = r.2.holds;
        sent = r.2.appended;
        counted =
            ap (λ (n : ℕ). n + (columns s - 1) + (rows s - 1) * columns s) r.2.counted
            ∙ count_all f.blk_cnt (rows s) (columns s) high wide;
        same = same;
      },
    )
