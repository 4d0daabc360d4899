-- ===== src/Header/Infos.antt =====
-- The structs of libusbdisp/libenc/jpeg_enc.h that hold marker segments, with the initial values that
-- libusbdisp/libenc/jpeg_enc.c gives the three static ones. A `WORD` or `BYTE` field is a number.
use jpeg_study.Prelude.{ℕ, List, [], ◌∷◌}

pub record App0Info : Type 0 where
  pub marker : ℕ
  pub len : ℕ
  pub jfif_signature : List ℕ
  pub versionhi : ℕ
  pub versionlo : ℕ
  pub xyunits : ℕ
  pub xdensity : ℕ
  pub ydensity : ℕ
  pub thumbnwidth : ℕ
  pub thumbnheight : ℕ

pub record Sof0Info : Type 0 where
  pub marker : ℕ
  pub len : ℕ
  pub precision : ℕ
  pub height : ℕ
  pub width : ℕ
  pub nrofcomponents : ℕ
  pub id_y : ℕ
  pub hv_y : ℕ
  pub qt_y : ℕ
  pub id_cb : ℕ
  pub hv_cb : ℕ
  pub qt_cb : ℕ
  pub id_cr : ℕ
  pub hv_cr : ℕ
  pub qt_cr : ℕ

pub record SosInfo : Type 0 where
  pub marker : ℕ
  pub len : ℕ
  pub nrofcomponents : ℕ
  pub id_y : ℕ
  pub ht_y : ℕ
  pub id_cb : ℕ
  pub ht_cb : ℕ
  pub id_cr : ℕ
  pub ht_cr : ℕ
  pub ss : ℕ
  pub se : ℕ
  pub bf : ℕ

pub record DqtInfo : Type 0 where
  pub marker : ℕ
  pub len : ℕ
  pub qt_y_info : ℕ
  pub y_table : List ℕ
  pub qt_cb_info : ℕ
  pub cb_table : List ℕ

pub record DhtInfo : Type 0 where
  pub marker : ℕ
  pub len : ℕ
  pub ht_y_dc_info : ℕ
  pub y_dc_nrcodes : List ℕ
  pub y_dc_values : List ℕ
  pub ht_y_ac_info : ℕ
  pub y_ac_nrcodes : List ℕ
  pub y_ac_values : List ℕ
  pub ht_cb_dc_info : ℕ
  pub cb_dc_nrcodes : List ℕ
  pub cb_dc_values : List ℕ
  pub ht_cb_ac_info : ℕ
  pub cb_ac_nrcodes : List ℕ
  pub cb_ac_values : List ℕ

unfoldable pub app0_info : App0Info
app0_info = record {
  marker = 0xffe0;
  len = 16;
  jfif_signature = b'J' ∷ b'F' ∷ b'I' ∷ b'F' ∷ 0 ∷ [];
  versionhi = 1;
  versionlo = 1;
  xyunits = 0;
  xdensity = 1;
  ydensity = 1;
  thumbnwidth = 0;
  thumbnheight = 0;
}

unfoldable pub sof0_info : Sof0Info
sof0_info = record {
  marker = 0xffc0;
  len = 17;
  precision = 8;
  height = 0;
  width = 0;
  nrofcomponents = 3;
  id_y = 1;
  hv_y = 0x11;
  qt_y = 0;
  id_cb = 2;
  hv_cb = 0x11;
  qt_cb = 1;
  id_cr = 3;
  hv_cr = 0x11;
  qt_cr = 1;
}

unfoldable pub sos_info : SosInfo
sos_info = record {
  marker = 0xffda;
  len = 12;
  nrofcomponents = 3;
  id_y = 1;
  ht_y = 0;
  id_cb = 2;
  ht_cb = 0x11;
  id_cr = 3;
  ht_cr = 0x11;
  ss = 0;
  se = 0x3f;
  bf = 0;
}
