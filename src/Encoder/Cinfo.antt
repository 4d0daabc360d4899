-- ===== src/Encoder/Cinfo.antt =====
-- `cinfo_t`, the static variables and `Initialize` of libusbdisp/libenc/jpeg_enc.c.
use mathlib.Core.Path.{subst}
use jpeg_study.Prelude.{
  ap, ◌∙◌, sym, ℕ, Bool, true, false, if◌then◌else◌, ◌≡◌, refl, List, Bool-cases, inl, inr,
}
use jpeg_study.Prelude.Int.{ℤ}
use jpeg_study.Header.Infos.{DqtInfo, DhtInfo}
use jpeg_study.Header.Writers.{set_dht_info}
use jpeg_study.Quant.Tables.{Divisors, set_dqt_info, prepare_quant_tables}
use jpeg_study.Huffman.Codes.{
  HuffmanTable, y_ht, cb_ht, zero_ht, init_y_ht, init_cb_ht, init_y_ht-zero, init_cb_ht-zero,
}
use jpeg_study.Bits.Writer.{BitWriter}

-- The fields that the functions without SSE2 use. A buffer of samples is the list of its bytes.
pub record Cinfo : Type 0 where
  pub divisors : Divisors
  pub du_dct_y : List ℤ
  pub du_dct_cb : List ℤ
  pub du_dct_cr : List ℤ
  pub writer : BitWriter
  pub ximage : ℕ
  pub yimage : ℕ
  pub y_buffer : List ℕ
  pub cb_buffer : List ℕ
  pub cr_buffer : List ℕ
  pub quality_factor : ℕ
  pub dqt_info : DqtInfo

-- `initialized`, `DHTinfo`, `Y_HT` and `Cb_HT`.
pub record Globals : Type 0 where
  pub initialized : Bool
  pub dht_info : DhtInfo
  pub luminance_ht : HuffmanTable
  pub chrominance_ht : HuffmanTable

-- `set_DHTinfo` and `init_Huffman_tables`, once.
unfoldable pub initialize_globals : Globals → Globals
initialize_globals g = if g.initialized then g else record {
  initialized = true;
  dht_info = set_dht_info;
  luminance_ht = init_y_ht g.luminance_ht;
  chrominance_ht = init_cb_ht g.chrominance_ht;
}

-- `Initialize`, on `cinfo`.
unfoldable pub initialize : ℕ → Cinfo → Cinfo
initialize scalefactor cinfo =
    let dqt = set_dqt_info scalefactor cinfo.dqt_info in
    record cinfo {
      quality_factor = scalefactor;
      dqt_info = dqt;
      divisors = prepare_quant_tables dqt cinfo.divisors;
    }

-- What holds of the static variables after every call of `Initialize`.
abbrev pub IsReady : Globals → Type 0
IsReady g =
    (g.initialized ≡ true)
    × (g.dht_info ≡ set_dht_info)
    × (g.luminance_ht ≡ y_ht)
    × (g.chrominance_ht ≡ cb_ht)

-- What holds of them before and after: `initialized` is set only with the tables, which C starts as zeros.
pub record IsStatic (g : Globals) : Type 0 where
  pub ready : g.initialized ≡ true → IsReady g
  pub luminance_zero : g.initialized ≡ false → g.luminance_ht ≡ zero_ht
  pub chrominance_zero : g.initialized ≡ false → g.chrominance_ht ≡ zero_ht

-- Later calls leave the static variables alone.
initialize_globals_again : (g : Globals) → g.initialized ≡ true → initialize_globals g ≡ g
unfolding initialize_globals
initialize_globals_again g done = rw done refl

initialize_globals_first :
    (g : Globals)
    → g.initialized ≡ false
    → g.luminance_ht ≡ zero_ht
    → g.chrominance_ht ≡ zero_ht
    → IsReady (initialize_globals g)
unfolding initialize_globals
initialize_globals_first g not_yet y cb =
    rw not_yet (refl, refl, ap init_y_ht y ∙ init_y_ht-zero, ap init_cb_ht cb ∙ init_cb_ht-zero)

pub initialize_globals-IsReady : (g : Globals) → IsStatic g → IsReady (initialize_globals g)
initialize_globals-IsReady g h = elim (Bool-cases g.initialized) [
  | inl done ↦ subst IsReady (sym (initialize_globals_again g done)) (h.ready done)
  | inr not_yet ↦
      initialize_globals_first g not_yet (h.luminance_zero not_yet) (h.chrominance_zero not_yet)
]
