-- ===== src/Usb/PictureFrame.antt =====
-- `SendPicFrameUsbCmd` of libusbdisp/jpegenc.c. What libusb reports of the devices is an argument; a device keeps the
-- transfers made to it.
use jpeg_study.Prelude.{ℕ, ◌<◌, ◌==◌, ◌&&◌, not, ◌≡◌, refl, arith}
use jpeg_study.Prelude.{Bool, true, false, Bool-cases, inl, inr, if◌then◌else◌}
use jpeg_study.Prelude.{List, [], ◌∷◌, ◌++◌, All, foldl, map, length, Option, none, some, ◌>>=◌}
use jpeg_study.Prelude.Int.{ℤ, pos, negsuc, is_zero}
use jpeg_study.Usb.Commands.{
  Transfer, Reply, succeeded, Wire, reply_of, control_transfer, le_bytes, picture_frame_cmd,
}

-- The results of `libusb_get_device_descriptor` and `libusb_open`, the descriptor, and the line to the device.
pub record UsbDevice : Type 0 where
  pub described : ℤ
  pub id_vendor : ℕ
  pub id_product : ℕ
  pub opened : ℤ
  pub wire : Wire

-- `r < 0`.
abbrev pub is_negative : ℤ → Bool
is_negative z = elim z [ pos n ↦ false | negsuc n ↦ true ]

abbrev pub is_display : UsbDevice → Bool
is_display d = d.id_vendor == 0x34c7 && d.id_product == 0x2114

-- The command to one display. Where it cannot be opened the code goes on with a handle that was never set, and
-- the model has no result.
unfoldable pub command_display : ℕ → UsbDevice → Option (Bool × UsbDevice)
command_display cmd d =
    let sending = (do (res, w) ← picture_frame_cmd cmd d.wire; some (res, record d { wire = w })) in
    if is_zero d.opened then sending else none

-- The loop over the devices. `res` is the variable of the result, which nothing sets before the loop.
unfoldable pub command_displays : ℕ → List UsbDevice → Bool → Option (Bool × List UsbDevice)
command_displays cmd [] res = some (res, [])
command_displays cmd (d ∷ devs) res =
    let commanded = command_display cmd d in
    let further = (do
      (res, d) ← if is_display d then commanded else some (res, d)
      (res, devs) ← command_displays cmd devs res
      some (res, d ∷ devs)) in
    if is_negative d.described then some (res, d ∷ devs) else further

-- `init` and `cnt` are the results of `libusb_init` and `libusb_get_device_list`; a negative one is returned as a
-- `bool`.
unfoldable pub send_pic_frame_usb_cmd :
    ℕ → ℤ → ℤ → List UsbDevice → Bool → Option (Bool × List UsbDevice)
send_pic_frame_usb_cmd cmd init cnt devs res =
    if is_negative init
    then some (not (is_zero init), devs)
    else if is_negative cnt
    then some (not (is_zero cnt), devs)
    else command_displays cmd devs res

-- A device after the command, as it should be: a display has got the two bytes and has given a reply.
abbrev pub after_command : ℕ → UsbDevice → UsbDevice
after_command cmd d =
    if is_display d
    then record d {
      wire = record {
        replies = elim d.wire.replies [ [] ↦ [] | r ∷ rs ↦ rs ];
        sent =
            d.wire.sent
            ++ (record {
              request_type = 0x41;
              request = 0x90;
              value = 0;
              bytes = le_bytes cmd;
              len = 2;
            }
                ∷ []);
      };
    }
    else d

-- The answer of a display replaces the one before.
abbrev pub answer : Bool → UsbDevice → Bool
answer res d =
    if is_display d then elim d.wire.replies [ [] ↦ false | r ∷ rs ↦ succeeded r ] else res

-- A device with a descriptor and, if it is a display, with a line that opens and replies.
abbrev pub Answers : UsbDevice → Type 0
Answers d =
    (is_negative d.described ≡ false)
    × (is_display d ≡ true → (is_zero d.opened ≡ true) × (0 < length d.wire.replies))

-- The loop ends before these devices.
abbrev pub Stops : List UsbDevice → Type 0
Stops [] = Unit
Stops (d ∷ devs) = is_negative d.described ≡ true

picture_frame_cmd-reply :
    (cmd : ℕ) (replies : List Reply) (sent : List Transfer)
    → 0 < length replies
    → picture_frame_cmd cmd (record { replies = replies; sent = sent })
      ≡ some (
        elim replies [ [] ↦ false | r ∷ rs ↦ succeeded r ],
        record {
          replies = elim replies [ [] ↦ [] | r ∷ rs ↦ rs ];
          sent =
              sent
              ++ (record {
                request_type = 0x41;
                request = 0x90;
                value = 0;
                bytes = le_bytes cmd;
                len = 2;
              }
                  ∷ []);
        },
      )
unfolding picture_frame_cmd control_transfer reply_of
picture_frame_cmd-reply cmd [] sent ready = ground arith
picture_frame_cmd-reply cmd (r ∷ rs) sent ready = refl

command_display-Answers :
    (cmd : ℕ) (d : UsbDevice) (res : Bool)
    → Answers d
    → (if is_display d then command_display cmd d else some (res, d))
      ≡ some (answer res d, after_command cmd d)
unfolding command_display
command_display-Answers cmd d res answers = elim (Bool-cases (is_display d)) [
  | inl display ↦
      let open_line = answers.1 display in
      rw (display, open_line.0, picture_frame_cmd-reply cmd d.wire.replies d.wire.sent open_line.1)
        refl
  | inr other ↦ rw other refl
]

-- Let libusb start, every device before some point have a descriptor, every display among them open and
-- have a reply ready, and the list end there or with a device whose descriptor cannot be read. Then
-- `SendPicFrameUsbCmd` sends the two bytes of the command once to every display before that point and
-- nothing to any other device, and returns what the last of these displays answered; without a display it
-- returns the value that the variable had.
pub send_pic_frame_usb_cmd_lem :
    (cmd init cnt : ℕ) (devs rest : List UsbDevice) (res : Bool)
    → All Answers devs
    → Stops rest
    → send_pic_frame_usb_cmd cmd (pos init) (pos cnt) (devs ++ rest) res
      ≡ some (foldl answer res devs, map (after_command cmd) devs ++ rest)
unfolding send_pic_frame_usb_cmd command_displays
send_pic_frame_usb_cmd_lem cmd init cnt [] [] res answers stops = refl
send_pic_frame_usb_cmd_lem cmd init cnt [] (d ∷ rest) res answers stops = rw stops refl
send_pic_frame_usb_cmd_lem cmd init cnt (d ∷ devs) rest res answers stops =
    rw
      (
        answers.0.0,
        command_display-Answers cmd d res answers.0,
        send_pic_frame_usb_cmd_lem cmd init cnt devs rest (answer res d) answers.1 stops,
      )
      refl
