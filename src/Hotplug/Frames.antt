-- ===== src/Hotplug/Frames.antt =====
-- The frames that the loop of libusbdisp/main.c sends.
use jpeg_study.Prelude.{
  ℕ, suc, ◌+◌, ◌≡◌, refl, ap, ◌∙◌, arith, true, false, if◌then◌else◌, Bool-cases, inl, inr,
}
use jpeg_study.Prelude.{List, [], ◌∷◌, ◌++◌, All, foldl, foldl-append, length}
use jpeg_study.Hotplug.Daemon.{
  Device, Call, jx_init, jx_delete, jx_start_encode, Daemon, call, hotplug_callback,
  hotplug_callback_detach, HotplugEvent, device_arrived, device_left, handle_event, round, run,
}

-- The number of frames that were encoded.
unfoldable pub frames : List Call → ℕ
frames [] = 0
frames (jx_init dev ∷ calls) = frames calls
frames (jx_delete ∷ calls) = frames calls
frames (jx_start_encode ∷ calls) = suc (frames calls)

frames-append : (cs ds : List Call) → frames (cs ++ ds) ≡ frames cs + frames ds
unfolding frames
frames-append [] ds = omega arith
frames-append (jx_init dev ∷ cs) ds = frames-append cs ds
frames-append (jx_delete ∷ cs) ds = frames-append cs ds
frames-append (jx_start_encode ∷ cs) ds = omega (arith, frames-append cs ds)

-- Events of one kind only.
abbrev pub IsArrival : HotplugEvent → Type 0
IsArrival (device_arrived dev) = Unit {0}
IsArrival (device_left dev) = ⊥

abbrev pub IsDeparture : HotplugEvent → Type 0
IsDeparture (device_arrived dev) = ⊥
IsDeparture (device_left dev) = Unit {0}

handle_event-frames :
    (d : Daemon) (e : HotplugEvent) → frames (handle_event d e).calls ≡ frames d.calls
unfolding handle_event hotplug_callback hotplug_callback_detach frames
handle_event-frames d (device_arrived dev) = frames-append d.calls (jx_init dev ∷ []) ∙ omega arith
handle_event-frames d (device_left dev) = elim (Bool-cases d.attached) [
  | inl on ↦
      ap (λ b. frames (if b then call jx_delete d else d).calls) on
      ∙ frames-append d.calls (jx_delete ∷ [])
      ∙ omega arith
  | inr off ↦ ap (λ b. frames (if b then call jx_delete d else d).calls) off
]

events-frames :
    (d : Daemon) (events : List HotplugEvent)
    → frames (foldl handle_event d events).calls ≡ frames d.calls
events-frames d [] = refl
events-frames d (e ∷ events) = events-frames (handle_event d e) events ∙ handle_event-frames d e

-- A round sends a frame if a display counts as attached behind its events.
round_on :
    (d : Daemon) (events : List HotplugEvent)
    → (foldl handle_event d events).attached ≡ true
    → (frames (round d events).calls ≡ frames d.calls + 1) × ((round d events).attached ≡ true)
unfolding round frames
round_on d events on =
    let d' = foldl handle_event d events in
    (
      ap (λ b. frames (if b then call jx_start_encode d' else d').calls) on
          ∙ frames-append d'.calls (jx_start_encode ∷ [])
          ∙ omega (arith, events-frames d events),
      ap (λ b. (if b then call jx_start_encode d' else d').attached) on ∙ on,
    )

round_off :
    (d : Daemon) (events : List HotplugEvent)
    → (foldl handle_event d events).attached ≡ false
    → (frames (round d events).calls ≡ frames d.calls) × ((round d events).attached ≡ false)
unfolding round frames
round_off d events off =
    let d' = foldl handle_event d events in
    (
      ap (λ b. frames (if b then call jx_start_encode d' else d').calls) off
          ∙ events-frames d events,
      ap (λ b. (if b then call jx_start_encode d' else d').attached) off ∙ off,
    )

arrivals_on :
    (d : Daemon) (events : List HotplugEvent)
    → All IsArrival events
    → d.attached ≡ true
    → (foldl handle_event d events).attached ≡ true
unfolding handle_event hotplug_callback
arrivals_on d [] h on = on
arrivals_on d (device_arrived dev ∷ events) h on =
    arrivals_on (hotplug_callback dev d) events h.1 refl
arrivals_on d (device_left dev ∷ events) h on = elim h.0 [ ]

departures_off :
    (d : Daemon) (events : List HotplugEvent)
    → All IsDeparture events
    → d.attached ≡ false
    → (foldl handle_event d events).attached ≡ false
unfolding handle_event hotplug_callback_detach
departures_off d [] h off = off
departures_off d (device_arrived dev ∷ events) h off = elim h.0 [ ]
departures_off d (device_left dev ∷ events) h off =
    departures_off (hotplug_callback_detach d) events h.1 refl

run_on :
    (d : Daemon) (rounds : List (List HotplugEvent))
    → All (λ events. All IsArrival events) rounds
    → d.attached ≡ true
    → frames (run d rounds).calls ≡ frames d.calls + length rounds
unfolding run
run_on d [] h on = omega arith
run_on d (events ∷ rounds) h on =
    let r = round_on d events (arrivals_on d events h.0 on) in
    omega (arith, r.0, run_on (round d events) rounds h.1 r.1)

run_off :
    (d : Daemon) (rounds : List (List HotplugEvent))
    → All (λ events. All IsDeparture events) rounds
    → d.attached ≡ false
    → frames (run d rounds).calls ≡ frames d.calls
unfolding run
run_off d [] h off = refl
run_off d (events ∷ rounds) h off =
    let r = round_off d events (departures_off d events h.0 off) in
    omega (arith, r.0, run_off (round d events) rounds h.1 r.1)

last_event :
    (d : Daemon) (before : List HotplugEvent) (e : HotplugEvent)
    → foldl handle_event d (before ++ (e ∷ [])) ≡ handle_event (foldl handle_event d before) e
last_event d before e = foldl-append handle_event d before (e ∷ [])

-- From a round on whose last event is an arrival, every round sends a frame, as long as no device leaves: the
-- round of the arrival and each one behind it, from any state and whatever happened before.
pub run-arrived :
    (d : Daemon) (before : List HotplugEvent) (dev : Device) (rounds : List (List HotplugEvent))
    → All (λ events. All IsArrival events) rounds
    → frames (run d ((before ++ (device_arrived dev ∷ [])) ∷ rounds)).calls
      ≡ frames d.calls + 1 + length rounds
unfolding run handle_event hotplug_callback
run-arrived d before dev rounds h =
    let events = before ++ (device_arrived dev ∷ []) in
    let r =
      round_on d events
        (ap (λ (s : Daemon). s.attached) (last_event d before (device_arrived dev))) in
    omega (arith, r.0, run_on (round d events) rounds h r.1)

-- From a round on whose last event is a departure, no round sends a frame until a device arrives, also if
-- another display is still connected: any number of devices may have arrived before.
pub run-left :
    (d : Daemon) (before : List HotplugEvent) (dev : Device) (rounds : List (List HotplugEvent))
    → All (λ events. All IsDeparture events) rounds
    → frames (run d ((before ++ (device_left dev ∷ [])) ∷ rounds)).calls ≡ frames d.calls
unfolding run handle_event hotplug_callback_detach
run-left d before dev rounds h =
    let events = before ++ (device_left dev ∷ []) in
    let r =
      round_off d events
        (ap (λ (s : Daemon). s.attached) (last_event d before (device_left dev))) in
    omega (arith, r.0, run_off (round d events) rounds h r.1)
