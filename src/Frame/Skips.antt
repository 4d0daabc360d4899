-- ===== src/Frame/Skips.antt =====
-- The blocks that the loops of `getBufFormBmp` of libusbdisp/jpegenc.c pass over.
use mathlib.Core.Path.{subst}
use jpeg_study.Prelude.{ℕ, zero, suc, ◌+◌, ◌*◌, ◌/◌, ◌<◌, ◌≤◌, ◌≡◌, refl, ap, ◌∙◌, arith}
use jpeg_study.Prelude.{
  inl, inr, ◌⊎◌, ◌≢◌, dec_lt, Bool-cases, true, false, ◌==◌, List, get_or, set, length,
}
use jpeg_study.Prelude.{get_or-set_self, get_or-set_ne, length-set, some}
use jpeg_study.Frame.Blocks.{
  same_bytes, copy_bytes, block_size, Frame, Setting, frame_block, x_blocks, y_blocks,
}

-- Two buffers agree on the `n` bytes from `p` on.
abbrev pub Agree : ℕ → ℕ → List ℕ → List ℕ → Type 0
Agree n p a b = (k : ℕ) → p ≤ k → k < p + n → get_or a k 0 ≡ get_or b k 0

pub same_bytes-Agree : (n p : ℕ) (a b : List ℕ) → Agree n p a b → same_bytes n p a b ≡ true
unfolding same_bytes
same_bytes-Agree zero p a b h = refl
same_bytes-Agree (suc n) p a b h =
    let here : (get_or a p 0 == get_or b p 0) ≡ true = ground (arith, h p) in
    rw here (same_bytes-Agree n (suc p) a b (λ k l m. h k (omega arith) (omega arith)))

pub Agree-same_bytes : (n p : ℕ) (a b : List ℕ) → same_bytes n p a b ≡ true → Agree n p a b
unfolding same_bytes
Agree-same_bytes zero p a b h k l m = absurd (omega arith)
Agree-same_bytes (suc n) p a b h k l m = elim (Bool-cases (get_or a p 0 == get_or b p 0)) [
  | inr differs ↦ let e = rw differs at h in cc
  | inl equal ↦
      let rest = rw equal at h in
      elim (dec_lt p k) [
        | yes later ↦ Agree-same_bytes n (suc p) a b rest k (omega arith) (omega arith)
        | no here ↦ let same : k ≡ p = omega arith in rw same (ground arith)
      ]
]

pub length-copy_bytes : (n p : ℕ) (to from : List ℕ) → length (copy_bytes n p to from) ≡ length to
unfolding copy_bytes
length-copy_bytes zero p to from = refl
length-copy_bytes (suc n) p to from =
    length-copy_bytes n (suc p) (set to p (get_or from p 0)) from
    ∙ length-set to p (get_or from p 0)

-- The other bytes stay.
pub copy_bytes_outside :
    (n p : ℕ) (to from : List ℕ) (k : ℕ)
    → (k < p) ⊎ (p + n ≤ k)
    → get_or (copy_bytes n p to from) k 0 ≡ get_or to k 0
unfolding copy_bytes
copy_bytes_outside zero p to from k h = refl
copy_bytes_outside (suc n) p to from k h =
    let away : p ≢ k =
      λ e. elim h [ inl l ↦ absurd (omega arith) | inr l ↦ absurd (omega arith) ] in
    copy_bytes_outside n (suc p) (set to p (get_or from p 0)) from k
      (elim h [ inl l ↦ inl (omega arith) | inr l ↦ inr (omega arith) ])
    ∙ get_or-set_ne to p k (get_or from p 0) 0 away

-- The copied bytes are those of the source, where the target has room.
pub copy_bytes-Agree :
    (n p : ℕ) (to from : List ℕ) → p + n ≤ length to → Agree n p (copy_bytes n p to from) from
unfolding copy_bytes
copy_bytes-Agree zero p to from room k l m = absurd (omega arith)
copy_bytes-Agree (suc n) p to from room k l m = elim (dec_lt p k) [
  | yes later ↦
      copy_bytes-Agree n (suc p) (set to p (get_or from p 0)) from
        (omega (arith, length-set to p (get_or from p 0))) k (omega arith) (omega arith)
  | no here ↦
      let same : k ≡ p = omega arith in
      rw same (
        copy_bytes_outside n (suc p) (set to p (get_or from p 0)) from p (inl (omega arith))
        ∙ get_or-set_self to p (get_or from p 0) 0 (omega arith))
]

next_row : (row y p x : ℕ) → row + suc y * p + x ≡ row + p + y * p + x
next_row row y p x = grind arith

sum_row : (n w left : ℕ) → n + w + left * w ≡ n + suc left * w
sum_row n w left = grind arith

module _ (s : Setting) (later_frame : s.first ≡ false) where
  pub frame_block-skip :
      (row blk_y blk_x : ℕ) (f : Frame)
      → Agree block_size (row + blk_x * 32 * 4) f.old_buffer s.raw
      → frame_block s row blk_y blk_x f ≡ some (record f { blk_cnt = f.blk_cnt + 1 })
  unfolding frame_block
  frame_block-skip row blk_y blk_x f same =
      let equal = same_bytes-Agree block_size (row + blk_x * 32 * 4) f.old_buffer s.raw same in
      rw (later_frame, equal) refl

  pub x_blocks-skip :
      (left row blk_y blk_x : ℕ) (f : Frame)
      → ((x : ℕ)
          → blk_x ≤ x
          → x < blk_x + left
          → Agree block_size (row + x * 32 * 4) f.old_buffer s.raw)
      → x_blocks s left row blk_y blk_x f ≡ some (record f { blk_cnt = f.blk_cnt + left })
  unfolding x_blocks
  x_blocks-skip zero row blk_y blk_x f same =
      ap (λ (n : ℕ). some (record f { blk_cnt = n })) (omega arith)
  x_blocks-skip (suc left) row blk_y blk_x f same =
      rw (frame_block-skip row blk_y blk_x f (same blk_x (omega arith) (omega arith))) (
        x_blocks-skip left row blk_y (suc blk_x) (record f { blk_cnt = f.blk_cnt + 1 })
          (λ x l m. same x (omega arith) (omega arith))
        ∙ ap (λ (n : ℕ). some (record f { blk_cnt = n })) (omega arith))

  pub y_blocks-skip :
      (left row blk_y : ℕ) (f : Frame)
      → ((y x : ℕ)
          → y < left
          → x < s.width8 / 32
          → Agree block_size (row + y * (s.width8 * 4 * 8) + x * 32 * 4) f.old_buffer s.raw)
      → y_blocks s left row blk_y f
        ≡ some (record f { blk_cnt = f.blk_cnt + left * (s.width8 / 32) })
  unfolding y_blocks
  y_blocks-skip zero row blk_y f same =
      ap (λ (n : ℕ). some (record f { blk_cnt = n })) (omega arith)
  y_blocks-skip (suc left) row blk_y f same =
      let w = s.width8 / 32 in
      rw
        (x_blocks-skip w row blk_y 0 f (λ x l m.
          subst (λ (p : ℕ). Agree block_size p f.old_buffer s.raw) (omega arith)
            (same 0 x (omega arith) (omega arith))))
        (y_blocks-skip left (row + s.width8 * 4 * 8) (suc blk_y)
            (record f { blk_cnt = f.blk_cnt + w })
            (λ y x l m.
              subst (λ (p : ℕ). Agree block_size p f.old_buffer s.raw)
                (next_row row y (s.width8 * 4 * 8) (x * 32 * 4)) (same (suc y) x (omega arith) m))
          ∙ ap (λ (n : ℕ). some (record f { blk_cnt = n })) (sum_row f.blk_cnt w left))
