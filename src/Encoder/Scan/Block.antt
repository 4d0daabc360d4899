-- ===== src/Encoder/Scan/Block.antt =====
-- One block of a scan that `main_encoder` of libusbdisp/libenc/jpeg_enc.c writes.
use jpeg_study.Prelude.{ℕ, ◌≤◌, ◌<◌, ◌^◌, ◌≡◌, arith}
use jpeg_study.Prelude.{Bool, List, ◌++◌, get_or, All-map}
use jpeg_study.Prelude.{some}
use jpeg_study.Prelude.Int.{ℤ, pos, negsuc, magnitude, ◌-ℤ◌}
use jpeg_study.Stream.{ByteStream}
use jpeg_study.Huffman.Codes.{HuffmanTable}
use jpeg_study.Huffman.Tables.{CodeTable, IsComplete}
use jpeg_study.Bits.Writer.{BitWriter}
use jpeg_study.Bits.Queue.{Carries}
use jpeg_study.Entropy.Block.{process_du}
use jpeg_study.Entropy.Code.{in_scan_order}
use jpeg_study.Entropy.Process.{IsCodable}
use jpeg_study.Entropy.Decode.{decode_block}
use jpeg_study.Entropy.Decode.Block.{process_du-Decodes}
use jpeg_study.Encoder.Load.{load_component, level_shift, level_shift_bounds, length-load_component}
use jpeg_study.Encoder.Main.{Jsimd}
use jpeg_study.Encoder.Scan.{IsDc, IsBaseline, IsTransform, transformed}

difference_bound : (a b : ℤ) → IsDc a → IsDc b → magnitude (a -ℤ b) < 2 ^ 11
unfolding ◌-ℤ◌
difference_bound (pos a) (pos b) p q = ground arith
difference_bound (pos a) (negsuc b) p q = ground arith
difference_bound (negsuc a) (pos b) p q = ground arith
difference_bound (negsuc a) (negsuc b) p q = ground arith

IsBaseline-IsCodable :
    (du : List ℤ) (previous : ℤ) → IsBaseline du → IsDc previous → IsCodable previous du
IsBaseline-IsCodable du previous b p = record {
  dc_small = difference_bound (get_or du 0 (pos 0)) previous b.dc_range p;
  ac_small = b.ac_small;
}

pub transformed-IsBaseline :
    (j : Jsimd) (divisors buffer : List ℕ) (ximage : ℕ) (p : ℕ × ℕ)
    → IsTransform j divisors
    → IsBaseline (transformed j divisors buffer ximage p)
unfolding transformed load_component
transformed-IsBaseline j divisors buffer ximage (ypos, xpos) h =
    h (load_component buffer ximage xpos ypos) (length-load_component buffer ximage xpos ypos)
      (All-map (λ z. magnitude z ≤ 128) (λ p. level_shift p) _ level_shift_bounds)

-- Behind `bits` the writer carries a code that a decoder reads back as a block.
abbrev pub Appended : ByteStream → List Bool → CodeTable → ℤ → List ℤ → BitWriter → Type 0
Appended base bits t previous du w =
    (coded : List Bool) × Carries base (bits ++ coded) w
    × ((more : List Bool) → decode_block t previous (coded ++ more) ≡ some (in_scan_order du, more))

-- `process_du-Decodes`, for a table that is known to be that of `t`.
pub process_du_with :
    (t : CodeTable) (ht : HuffmanTable) (base : ByteStream) (bits : List Bool) (w : BitWriter)
    (du : List ℤ) (previous : ℤ)
    → IsComplete t
    → ht ≡ t.ht
    → IsBaseline du
    → IsDc previous
    → Carries base bits w
    → Appended base bits t previous du ((process_du du previous ht w).writer)
process_du_with t ht base bits w du previous complete same b p c =
    rw same (
      process_du-Decodes t complete base bits w du previous (IsBaseline-IsCodable du previous b p)
        c)
