-- ===== src/Usb/Commands.antt =====
-- `jpgGetStatus`, `jpgSetResolution`, `jpgSetQuantTable` and `pictureFrameCmd` of libusbdisp/jpegenc.c. The
-- device is a list of its replies to `libusb_control_transfer`; what is sent is recorded.
use jpeg_study.Prelude.{ℕ, zero, suc, ◌/◌, ◌%◌, ◌==◌, Bool, true, false, ◌&&◌, ltb, if◌then◌else◌}
use jpeg_study.Prelude.{List, [], ◌∷◌, ◌++◌, length, Option, none, some, ◌>>=◌}
use jpeg_study.Prelude.Int.{ℤ, pos, negsuc}

-- The arguments of a transfer; `wIndex` is always 0 and the time limit always 500. `bytes` is the buffer
-- of a command to the device, and empty for a request.
pub record Transfer : Type 0 where
  pub request_type : ℕ
  pub request : ℕ
  pub value : ℕ
  pub bytes : List ℕ
  pub len : ℕ

-- `actlen` is the result, negative for an error; `word` is the buffer of a request behind it, as a
-- little-endian number.
pub record Reply : Type 0 where
  pub actlen : ℤ
  pub word : ℕ

-- `actlen > 0`.
abbrev pub succeeded : Reply → Bool
succeeded r = elim r.actlen [ pos n ↦ ltb 0 n | negsuc n ↦ false ]

-- The replies to come and the transfers made, in order.
pub record Wire : Type 0 where
  pub replies : List Reply
  pub sent : List Transfer

-- `none` if the device has no reply to give.
unfoldable pub reply_of : List Reply → List Transfer → Option (Reply × Wire)
reply_of [] sent = none
reply_of (r ∷ replies) sent = some (r, record { replies = replies; sent = sent })

unfoldable pub control_transfer : Transfer → Wire → Option (Reply × Wire)
unfolding reply_of
control_transfer t w = reply_of w.replies (w.sent ++ (t ∷ []))

abbrev pub status_request : Transfer
status_request = record { request_type = 0xc1; request = 0x40; value = 0; bytes = []; len = 2 }

-- The result and `*status`, which a failed transfer leaves as it was but for the mask.
unfoldable pub jpg_get_status : ℕ → Wire → Option (Bool × ℕ × Wire)
jpg_get_status status w = do
  (r, w) ← control_transfer status_request w
  some (succeeded r, (if succeeded r then r.word else status) % 256, w)

-- `while (status)`: false if a request fails. Every round takes a reply.
unfoldable pub wait_ready : ℕ → ℕ → Wire → Option (Bool × Wire)
wait_ready zero status w = none
wait_ready (suc fuel) status w =
    let round = (do
      (answered, status, w) ← jpg_get_status status w
      let further = wait_ready fuel status w
      if answered then further else some (false, w)) in
    if status == 0 then some (true, w) else round

-- One round more than there are replies.
abbrev pub rounds : Wire → ℕ
rounds w = suc (suc (length w.replies))

-- The two bytes of an `unsigned short`, the low one first.
abbrev pub le_bytes : ℕ → List ℕ
le_bytes n = n % 256 ∷ n / 256 % 256 ∷ []

abbrev pub resolution_command : ℕ → ℕ → Transfer
resolution_command width height = record {
  request_type = 0x41;
  request = 0x81;
  value = 0;
  bytes = le_bytes width ++ le_bytes height;
  len = 4;
}

-- The command, and the second loop.
unfoldable pub send_resolution : ℕ → ℕ → Wire → Option (Bool × Wire)
send_resolution width height w = do
  (r, w) ← control_transfer (resolution_command width height) w
  (ready, w) ← wait_ready (rounds w) 1 w
  some (ready && succeeded r, w)

unfoldable pub jpg_set_resolution : ℕ → ℕ → Wire → Option (Bool × Wire)
jpg_set_resolution width height w = do
  (ready, w) ← wait_ready (rounds w) 1 w
  let command = send_resolution width height w
  if ready then command else some (false, w)

unfoldable pub jpg_set_quant_table : List ℕ → ℕ → ℕ → Wire → Option (Bool × Wire)
jpg_set_quant_table table len index w = do
  (r, w) ←
      control_transfer
        (record { request_type = 0x41; request = 0x83; value = index; bytes = table; len = len }) w
  some (succeeded r, w)

unfoldable pub picture_frame_cmd : ℕ → Wire → Option (Bool × Wire)
picture_frame_cmd cmd w = do
  (r, w) ←
      control_transfer
        (record { request_type = 0x41; request = 0x90; value = 0; bytes = le_bytes cmd; len = 2 }) w
  some (succeeded r, w)
