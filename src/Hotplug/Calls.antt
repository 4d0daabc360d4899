-- ===== src/Hotplug/Calls.antt =====
-- The order of the calls that libusbdisp/main.c makes of the service.
use mathlib.Core.Path.{subst}
use jpeg_study.Prelude.{
  sym, ◌==◌, ◌&&◌, ◌≡◌, refl, ap, ◌∙◌, Bool, true, false, Bool-cases, inl, inr, if◌then◌else◌,
}
use jpeg_study.Prelude.{List, [], ◌∷◌, ◌++◌, foldl, foldl-append, Option, none, some}
use jpeg_study.Hotplug.Daemon.{
  Device, Call, jx_init, jx_delete, jx_start_encode, Daemon, call, hotplug_callback,
  hotplug_callback_detach, check_devs, HotplugEvent, device_arrived, device_left, handle_event,
  round, start_daemon, run,
}

-- A service is open from `jxInit` to `jxDelete`. It must be open where it encodes or is deleted; a call out of
-- turn gives `none`.
unfoldable pub serve : Option Bool → Call → Option Bool
serve none c = none
serve (some open_now) (jx_init dev) = some true
serve (some open_now) jx_delete = if open_now then some false else none
serve (some open_now) jx_start_encode = if open_now then some true else none

unfoldable pub service_after : List Call → Option Bool
service_after calls = foldl serve (some false) calls

-- The calls are in turn, and the service is open exactly while a display counts as attached.
IsInTurn : Daemon → Type 0
IsInTurn d = service_after d.calls ≡ some d.attached

service_after-call :
    (calls : List Call) (c : Call)
    → service_after (calls ++ (c ∷ [])) ≡ serve (service_after calls) c
unfolding service_after
service_after-call calls c = foldl-append serve (some false) calls (c ∷ [])

hotplug_callback-IsInTurn :
    (dev : Device) (d : Daemon) → IsInTurn d → IsInTurn (hotplug_callback dev d)
unfolding IsInTurn hotplug_callback serve
hotplug_callback-IsInTurn dev d h =
    service_after-call d.calls (jx_init dev) ∙ ap (λ s. serve s (jx_init dev)) h

handle_event-IsInTurn : (d : Daemon) (e : HotplugEvent) → IsInTurn d → IsInTurn (handle_event d e)
unfolding IsInTurn handle_event hotplug_callback_detach serve
handle_event-IsInTurn d (device_arrived dev) h = hotplug_callback-IsInTurn dev d h
handle_event-IsInTurn d (device_left dev) h = elim (Bool-cases d.attached) [
  | inl open_now ↦
      ap (λ b. service_after (if b then call jx_delete d else d).calls) open_now
      ∙ service_after-call d.calls jx_delete
      ∙ ap (λ s. serve s jx_delete) (h ∙ ap (λ b. some b) open_now)
  | inr closed ↦
      ap (λ b. service_after (if b then call jx_delete d else d).calls) closed
      ∙ h
      ∙ ap (λ b. some b) closed
]

events-IsInTurn :
    (d : Daemon) (events : List HotplugEvent) → IsInTurn d → IsInTurn (foldl handle_event d events)
events-IsInTurn d [] h = h
events-IsInTurn d (e ∷ events) h =
    events-IsInTurn (handle_event d e) events (handle_event-IsInTurn d e h)

frame-IsInTurn :
    (d : Daemon) → IsInTurn d → IsInTurn (if d.attached then call jx_start_encode d else d)
unfolding IsInTurn serve
frame-IsInTurn d h = elim (Bool-cases d.attached) [
  | inl open_now ↦
      subst (λ b. IsInTurn (if b then call jx_start_encode d else d)) (sym open_now)
        (service_after-call d.calls jx_start_encode
          ∙ ap (λ s. serve s jx_start_encode) (h ∙ ap (λ b. some b) open_now)
          ∙ ap (λ b. some b) (sym open_now))
  | inr closed ↦ subst (λ b. IsInTurn (if b then call jx_start_encode d else d)) (sym closed) h
]

run-IsInTurn :
    (d : Daemon) (rounds : List (List HotplugEvent)) → IsInTurn d → IsInTurn (run d rounds)
unfolding run round
run-IsInTurn d [] h = h
run-IsInTurn d (events ∷ rounds) h =
    run-IsInTurn (round d events) rounds
      (frame-IsInTurn (foldl handle_event d events) (events-IsInTurn d events h))

check_devs-IsInTurn :
    (devs : List (Option Device)) (d : Daemon)
    → IsInTurn d
    → IsInTurn (check_devs devs d).0
      × ((check_devs devs d).1 ≡ true → (check_devs devs d).0.attached ≡ true)
unfolding check_devs
check_devs-IsInTurn [] d h = (h, λ e. cc)
check_devs-IsInTurn (none ∷ devs) d h = (h, λ e. cc)
check_devs-IsInTurn (some dev ∷ devs) d h =
    elim (Bool-cases (dev.id_vendor == 0x34c7 && dev.id_product == 0x2105)) [
      | inl display ↦
          rw display (hotplug_callback-IsInTurn dev d h, λ e. unfold hotplug_callback in refl)
      | inr other ↦ rw other (check_devs-IsInTurn devs d h)
    ]

start_daemon-IsInTurn : (devs : List (Option Device)) → IsInTurn (start_daemon devs)
unfolding start_daemon IsInTurn
start_daemon-IsInTurn devs =
    let d0 : Daemon = record { attached = false; detached = false; calls = [] } in
    let r = check_devs-IsInTurn devs d0 (unfold service_after in refl) in
    elim (Bool-cases (check_devs devs d0).1) [
      | inl found ↦ rw found (r.0 ∙ ap (λ b. some b) (r.1 found))
      | inr not_found ↦ rw not_found (r.0)
    ]

-- Whatever devices are there at the start and whatever events each round of the loop brings, the service is
-- deleted, and a frame encoded, only while it is open: behind an initialization and before the next deletion.
-- It is open at the end exactly if a display counts as attached.
pub run-service_after :
    (devs : List (Option Device)) (rounds : List (List HotplugEvent))
    → service_after (run (start_daemon devs) rounds).calls
      ≡ some (run (start_daemon devs) rounds).attached
unfolding IsInTurn
run-service_after devs rounds = run-IsInTurn (start_daemon devs) rounds (start_daemon-IsInTurn devs)
