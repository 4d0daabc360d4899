-- ===== src/Tests/Hotplug.antt =====
-- The theorems on the daemon libusbdisp/main.c, at one display, and at two of which one leaves.
use jpeg_study.Prelude.{false, ◌+◌, ◌≡◌, List, [], ◌∷◌, ◌++◌, some}
use jpeg_study.Hotplug.Daemon.{
  Device, Daemon, HotplugEvent, device_arrived, device_left, run, start_daemon,
}
use jpeg_study.Hotplug.Calls.{service_after, run-service_after}
use jpeg_study.Hotplug.Frames.{frames, run-arrived, run-left}

abbrev mouse : Device
mouse = record { id_vendor = 0x46d; id_product = 0xc077 }

abbrev display : Device
display = record { id_vendor = 0x34c7; id_product = 0x2105 }

abbrev idle : Daemon
idle = record { attached = false; detached = false; calls = [] }

abbrev schedule : List (List HotplugEvent)
schedule =
    [] ∷ (device_left display ∷ []) ∷ (device_arrived display ∷ device_left display ∷ []) ∷ []

run-service_after_example :
    service_after (run (start_daemon (some mouse ∷ some display ∷ [])) schedule).calls
    ≡ some (run (start_daemon (some mouse ∷ some display ∷ [])) schedule).attached
run-service_after_example = run-service_after (some mouse ∷ some display ∷ []) schedule

run-arrived_example :
    frames
      (run idle
        (((device_left display ∷ []) ++ (device_arrived display ∷ [])) ∷ [] ∷ [] ∷ [])).calls
    ≡ frames (idle.calls) + 1 + 2
run-arrived_example =
    run-arrived idle (device_left display ∷ []) display ([] ∷ [] ∷ []) (tt, (tt, tt))

-- Two displays arrive, and one of them leaves.
run-left_example :
    frames
      (run idle (
        ((device_arrived display ∷ device_arrived display ∷ []) ++ (device_left display ∷ []))
        ∷ []
        ∷ [])).calls
    ≡ frames (idle.calls)
run-left_example =
    run-left idle (device_arrived display ∷ device_arrived display ∷ []) display ([] ∷ []) (tt, tt)
