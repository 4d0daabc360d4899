-- ===== src/Tests/Event.antt =====
-- The theorems on the event of libusbdisp/libenc/event.c: a thread sets it and another waits.
use jpeg_study.Prelude.{ℕ, ◌+◌, ◌*◌, ◌≤◌, ◌<◌, ◌≡◌, inr, refl, arith, true, false, some}
use jpeg_study.Event.Deadline.{Timespec, deadline, nanoseconds, deadline_lem, deadline_refused}
use jpeg_study.Event.Steps.{
  Event, init_event, setting, outside, testing, lock, unlock, move, Reachable, start, next,
  set_lock, set_flag, wait_lock, wait_pass,
}
use jpeg_study.Event.Exclusion.{bit, threads_apart, passes_bounded}

abbrev setter : ℕ
setter = 1

-- Thread 1 is in `set_event`.
abbrev in_set : Event
in_set = lock 1 setting init_event

in_set-Reachable : Reachable in_set
in_set-Reachable = next start (set_lock refl refl)

-- It has set the flag, and thread 2 has waited for it.
abbrev flag_set : Event
flag_set = unlock 1 outside (record in_set { flag = true; sets = 1 })

abbrev in_wait : Event
in_wait = lock 2 (testing false) flag_set

abbrev passed : Event
passed = unlock 2 outside (record in_wait { flag = false; passes = 1 })

passed-Reachable : Reachable passed
unfolding move
passed-Reachable =
    next (next (next in_set-Reachable (set_flag refl)) (wait_lock false refl refl))
      (wait_pass false refl refl)

threads_apart_example : setter ≡ setter
unfolding move
threads_apart_example = threads_apart in_set setter setter in_set-Reachable refl refl

passes_bounded_example : passed.passes + bit passed.flag ≤ passed.sets
passes_bounded_example = passes_bounded passed passed-Reachable

deadline_lem_example :
    (ts : Timespec) × (deadline 7 900000 500 ≡ some ts)
    × (nanoseconds ts ≡ 7 * 1000000000 + 900000 * 1000 + 500 * 1000000)
    × (ts.tv_nsec < 1000000000)
deadline_lem_example = deadline_lem 7 900000 500 (omega arith) (omega arith)

deadline_refused_example :
    (ts : Timespec) × (deadline 7 900000 3000 ≡ some ts) × (1000000000 ≤ ts.tv_nsec)
deadline_refused_example = deadline_refused 7 900000 3000 (omega arith) (inr (omega arith))
