-- ===== src/Tests/Usb.antt =====
-- The theorems on the USB commands of libusbdisp/jpegenc.c, with a device that is busy once and idle
-- then.
use jpeg_study.Prelude.{◌≡◌, refl, arith, false, [], ◌∷◌, ◌++◌, foldl, map, some}
use jpeg_study.Prelude.Int.{pos, negsuc}
use jpeg_study.Usb.Commands.{
  Reply, succeeded, status_request, resolution_command, jpg_set_resolution,
}
use jpeg_study.Usb.PictureFrame.{
  UsbDevice, answer, after_command, send_pic_frame_usb_cmd, send_pic_frame_usb_cmd_lem,
}
use jpeg_study.Usb.Order.{polls, jpg_set_resolution-ready}

abbrev busy : Reply
busy = record { actlen = pos 2; word = 0x101 }

abbrev idle : Reply
idle = record { actlen = pos 2; word = 0x100 }

abbrev taken : Reply
taken = record { actlen = pos 4; word = 0 }

jpg_set_resolution-ready_example :
    jpg_set_resolution 1920 1080
      (record { replies = (busy ∷ []) ++ (idle ∷ taken ∷ ([] ++ (idle ∷ []))); sent = [] })
    ≡ some (
      succeeded taken,
      record {
        replies = [];
        sent =
            polls (busy ∷ [])
            ++ (status_request ∷ [])
            ++ (resolution_command 1920 1080 ∷ [])
            ++ polls []
            ++ (status_request ∷ []);
      },
    )
jpg_set_resolution-ready_example =
    jpg_set_resolution-ready 1920 1080 (busy ∷ []) ((refl, omega arith), tt) idle taken idle [] []
      (refl, refl) tt (refl, refl)

abbrev mouse : UsbDevice
mouse = record {
  described = pos 0;
  id_vendor = 0x46d;
  id_product = 0xc077;
  opened = negsuc 2;
  wire = record { replies = []; sent = [] };
}

abbrev display : UsbDevice
display = record {
  described = pos 0;
  id_vendor = 0x34c7;
  id_product = 0x2114;
  opened = pos 0;
  wire = record { replies = taken ∷ []; sent = [] };
}

abbrev unreadable : UsbDevice
unreadable = record {
  described = negsuc 0;
  id_vendor = 0;
  id_product = 0;
  opened = negsuc 0;
  wire = record { replies = []; sent = [] };
}

-- `--next` with a mouse, a display and a device without a descriptor.
send_pic_frame_usb_cmd_lem_example :
    send_pic_frame_usb_cmd 1010 (pos 0) (pos 3) ((mouse ∷ display ∷ []) ++ (unreadable ∷ [])) false
    ≡ some (
      foldl answer false (mouse ∷ display ∷ []),
      map (after_command 1010) (mouse ∷ display ∷ []) ++ (unreadable ∷ []),
    )
send_pic_frame_usb_cmd_lem_example =
    send_pic_frame_usb_cmd_lem 1010 0 3 (mouse ∷ display ∷ []) (unreadable ∷ []) false
      ((refl, λ h. ground arith), ((refl, λ h. (refl, omega arith)), tt)) refl
