-- ===== src/Hotplug/Daemon.antt =====
-- The hotplug callbacks and the loop of `main` in libusbdisp/main.c. The calls of `usbservice`, another part of
-- the program, are recorded in their order; what libusb reports is an argument.
use jpeg_study.Prelude.{
  ℕ, ◌==◌, ◌&&◌, Bool, true, false, if◌then◌else◌, List, [], ◌∷◌, ◌++◌, foldl, Option, none, some,
}

-- A device, as `libusb_get_device_descriptor` describes it.
pub record Device : Type 0 where
  pub id_vendor : ℕ
  pub id_product : ℕ

-- The methods of `UsbDisplay` that are called.
pub data Call : Type 0 where
  jx_init : Device → Call
  jx_delete : Call
  jx_start_encode : Call

-- `attached_DISP`, `detached_DISP` and the calls so far. `handle` is not kept: nothing ever assigns it, so that it
-- stays NULL.
pub record Daemon : Type 0 where
  pub attached : Bool
  pub detached : Bool
  pub calls : List Call

abbrev pub call : Call → Daemon → Daemon
call c d = record d { calls = d.calls ++ (c ∷ []) }

-- What the callback for an arrival, and `check_devs` where it finds a device, do.
unfoldable pub hotplug_callback : Device → Daemon → Daemon
hotplug_callback dev d = record (call (jx_init dev) d) { attached = true; detached = false }

unfoldable pub hotplug_callback_detach : Daemon → Daemon
hotplug_callback_detach d = record (if d.attached then call jx_delete d else d) {
  attached = false;
  detached = true;
}

-- The list of devices, with `none` where the descriptor cannot be read. The result is that of the function.
unfoldable pub check_devs : List (Option Device) → Daemon → Daemon × Bool
check_devs [] d = (d, false)
check_devs (none ∷ devs) d = (d, false)
check_devs (some dev ∷ devs) d =
    let further = check_devs devs d in
    if dev.id_vendor == 0x34c7 && dev.id_product == 0x2105
    then (hotplug_callback dev d, true)
    else further

-- The two events that are registered.
pub data HotplugEvent : Type 0 where
  device_arrived : Device → HotplugEvent
  device_left : Device → HotplugEvent

unfoldable pub handle_event : Daemon → HotplugEvent → Daemon
handle_event d (device_arrived dev) = hotplug_callback dev d
handle_event d (device_left dev) = hotplug_callback_detach d

-- A round of the loop: the events that `libusb_handle_events_timeout` delivers, then a frame. The screenshot
-- is left out.
unfoldable pub round : Daemon → List HotplugEvent → Daemon
round d events =
    let d = foldl handle_event d events in if d.attached then call jx_start_encode d else d

-- Before the loop.
unfoldable pub start_daemon : List (Option Device) → Daemon
start_daemon devs =
    let (d, found) = check_devs devs (record { attached = false; detached = false; calls = [] }) in
    if found then record d { attached = true } else d

unfoldable pub run : Daemon → List (List HotplugEvent) → Daemon
run d rounds = foldl round d rounds
