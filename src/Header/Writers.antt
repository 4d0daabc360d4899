-- ===== src/Header/Writers.antt =====
-- The functions of libusbdisp/libenc/jpeg_enc.c that write marker segments. Each takes the stream and
-- returns it; the lengths that `write_DQTinfo`, `GetDQTinfo` and `write_DHTinfo` return are the growth
-- of the stream, `stream->pos - len`.
use jpeg_study.Prelude.{ℕ, zero, suc, ◌+◌, ◌==◌, if◌then◌else◌, u16, List, [], ◌∷◌, get_or}
use jpeg_study.Tables.Quantization.{zigzag}
use jpeg_study.Tables.Codes.{
  std_dc_luminance_nrcodes, std_dc_luminance_values, std_dc_chrominance_nrcodes,
  std_dc_chrominance_values, std_ac_luminance_nrcodes, std_ac_luminance_values,
  std_ac_chrominance_nrcodes, std_ac_chrominance_values,
}
use jpeg_study.Stream.{ByteStream, writebyte, writeword, writeloop}
use jpeg_study.Header.Infos.{Sof0Info, DqtInfo, DhtInfo, app0_info, sof0_info, sos_info}

unfoldable pub write_app0_info : ByteStream → ByteStream
unfolding app0_info writebyte writeword
write_app0_info s =
    let s = writeword s app0_info.marker in
    let s = writeword s app0_info.len in
    let s = writebyte s b'J' in
    let s = writebyte s b'F' in
    let s = writebyte s b'I' in
    let s = writebyte s b'F' in
    let s = writebyte s 0 in
    let s = writebyte s app0_info.versionhi in
    let s = writebyte s app0_info.versionlo in
    let s = writebyte s app0_info.xyunits in
    let s = writeword s app0_info.xdensity in
    let s = writeword s app0_info.ydensity in
    let s = writebyte s app0_info.thumbnwidth in writebyte s app0_info.thumbnheight

-- `sof` is the static `SOF0info`, whose width and height `WriteHeader` has set.
unfoldable pub write_sof0_info : Sof0Info → ByteStream → ByteStream
unfolding writebyte writeword
write_sof0_info sof s =
    let s = writeword s sof.marker in
    let s = writeword s sof.len in
    let s = writebyte s sof.precision in
    let s = writeword s sof.height in
    let s = writeword s sof.width in
    let s = writebyte s sof.nrofcomponents in
    let s = writebyte s sof.id_y in
    let s = writebyte s sof.hv_y in
    let s = writebyte s sof.qt_y in
    let s = writebyte s sof.id_cb in
    let s = writebyte s sof.hv_cb in
    let s = writebyte s sof.qt_cb in
    let s = writebyte s sof.id_cr in let s = writebyte s sof.hv_cr in writebyte s sof.qt_cr

unfoldable pub write_sos_info : ByteStream → ByteStream
unfolding sos_info writebyte writeword
write_sos_info s =
    let s = writeword s sos_info.marker in
    let s = writeword s sos_info.len in
    let s = writebyte s sos_info.nrofcomponents in
    let s = writebyte s sos_info.id_y in
    let s = writebyte s sos_info.ht_y in
    let s = writebyte s sos_info.id_cb in
    let s = writebyte s sos_info.ht_cb in
    let s = writebyte s sos_info.id_cr in
    let s = writebyte s sos_info.ht_cr in
    let s = writebyte s sos_info.ss in let s = writebyte s sos_info.se in writebyte s sos_info.bf

-- `for (length = 0; comment[length] != 0;) length++`: a C string up to its terminator. The list
-- stands for the memory from `comment` on; `length` is a `WORD`.
pub comment_length : List ℕ → ℕ → ℕ
comment_length [] len = len
comment_length (c ∷ rest) len =
    let more = comment_length rest (u16 (len + 1)) in if c == 0 then len else more

unfoldable pub write_comment : List ℕ → ByteStream → ByteStream
unfolding writeword writeloop comment_length
write_comment comment s =
    let len = comment_length comment 0 in
    let s = writeword s 0xfffe in
    let s = writeword s (len + 2) in writeloop (λ i. get_or comment i 0) len 0 s

unfoldable pub write_dqt_info : DqtInfo → ByteStream → ByteStream
unfolding writebyte writeword writeloop
write_dqt_info dqt s =
    let s = writeword s dqt.marker in
    let s = writeword s 67 in
    let s = writebyte s dqt.qt_y_info in
    let s = writeloop (λ i. get_or dqt.y_table i 0) 64 0 s in
    let s = writeword s dqt.marker in
    let s = writeword s 67 in
    let s = writebyte s dqt.qt_cb_info in writeloop (λ i. get_or dqt.cb_table i 0) 64 0 s

-- The table in the format of the display chip.
unfoldable pub get_dqt_info : DqtInfo → ByteStream → ByteStream
get_dqt_info dqt s =
    let s = writeword s 0xffdb in
    let s = writeword s 67 in
    let s = writebyte s 0 in
    let s = writeloop (λ i. get_or dqt.y_table (get_or zigzag i 0) 0) 64 0 s in
    let s = writeword s 0xffdb in
    let s = writeword s 67 in
    let s = writebyte s 1 in writeloop (λ i. get_or dqt.cb_table (get_or zigzag i 0) 0) 64 0 s

unfoldable pub write_dht_info : DhtInfo → ByteStream → ByteStream
unfolding writebyte writeword writeloop
write_dht_info dht s =
    let s = writeword s dht.marker in
    let s = writeword s dht.len in
    let s = writebyte s dht.ht_y_dc_info in
    let s = writeloop (λ i. get_or dht.y_dc_nrcodes i 0) 16 0 s in
    let s = writeloop (λ i. get_or dht.y_dc_values i 0) 12 0 s in
    let s = writebyte s dht.ht_y_ac_info in
    let s = writeloop (λ i. get_or dht.y_ac_nrcodes i 0) 16 0 s in
    let s = writeloop (λ i. get_or dht.y_ac_values i 0) 162 0 s in
    let s = writebyte s dht.ht_cb_dc_info in
    let s = writeloop (λ i. get_or dht.cb_dc_nrcodes i 0) 16 0 s in
    let s = writeloop (λ i. get_or dht.cb_dc_values i 0) 12 0 s in
    let s = writebyte s dht.ht_cb_ac_info in
    let s = writeloop (λ i. get_or dht.cb_ac_nrcodes i 0) 16 0 s in
    writeloop (λ i. get_or dht.cb_ac_values i 0) 162 0 s

-- `for (i = start; i < start + n; i++) dest[i] = entry(i)` into an array of `n` entries.
unfoldable pub fill : (ℕ → ℕ) → ℕ → ℕ → List ℕ
fill entry zero i = []
fill entry (suc n) i = entry i ∷ fill entry n (suc i)

unfoldable pub set_dht_info : DhtInfo
unfolding fill std_dc_luminance_nrcodes std_dc_luminance_values std_ac_luminance_nrcodes
    std_ac_luminance_values std_dc_chrominance_nrcodes std_dc_chrominance_values
    std_ac_chrominance_nrcodes std_ac_chrominance_values
set_dht_info = record {
  marker = 0xffc4;
  len = 0x01a2;
  ht_y_dc_info = 0;
  y_dc_nrcodes = fill (λ i. get_or std_dc_luminance_nrcodes (i + 1) 0) 16 0;
  y_dc_values = fill (λ i. get_or std_dc_luminance_values i 0) 12 0;
  ht_y_ac_info = 0x10;
  y_ac_nrcodes = fill (λ i. get_or std_ac_luminance_nrcodes (i + 1) 0) 16 0;
  y_ac_values = fill (λ i. get_or std_ac_luminance_values i 0) 162 0;
  ht_cb_dc_info = 1;
  cb_dc_nrcodes = fill (λ i. get_or std_dc_chrominance_nrcodes (i + 1) 0) 16 0;
  cb_dc_values = fill (λ i. get_or std_dc_chrominance_values i 0) 12 0;
  ht_cb_ac_info = 0x11;
  cb_ac_nrcodes = fill (λ i. get_or std_ac_chrominance_nrcodes (i + 1) 0) 16 0;
  cb_ac_values = fill (λ i. get_or std_ac_chrominance_values i 0) 162 0;
}

-- `WriteHeader`: the casts to `WORD` are those of the assignments to `SOF0info`.
unfoldable pub write_header : DqtInfo → DhtInfo → ℕ → ℕ → ByteStream → ByteStream
unfolding writeword write_app0_info write_dqt_info write_sof0_info write_dht_info write_sos_info
    sof0_info
write_header dqt dht width height s =
    let sof : Sof0Info = record sof0_info { width = u16 width; height = u16 height } in
    let s = writeword s 0xffd8 in
    let s = write_app0_info s in
    let s = write_dqt_info dqt s in
    let s = write_sof0_info sof s in let s = write_dht_info dht s in write_sos_info s
