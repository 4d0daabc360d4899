-- ===== src/Event/Deadline.antt =====
-- The absolute time that `time_wait_event` of libusbdisp/libenc/event.c computes for
-- `pthread_cond_timedwait`, which refuses a number of nanoseconds of 10^9 or more.
use jpeg_study.Prelude.{
  ℕ, ◌+◌, ◌-◌, ◌*◌, ◌^◌, ◌≤◌, ◌<◌, ◌≡◌, ◌≢◌, ◌⊎◌, inl, inr, ltb, if◌then◌else◌, arith, refl, true,
}
use jpeg_study.Prelude.{Option, none, some}

-- `struct timespec`.
pub record Timespec : Type 0 where
  pub tv_sec : ℕ
  pub tv_nsec : ℕ

-- `ts`, from `tv.tv_sec` and the first value of `ts.tv_nsec`.
unfoldable pub carried : ℕ → ℕ → Timespec
carried tv_sec tv_nsec =
    if ltb 1000000000 tv_nsec
    then record { tv_sec = tv_sec + 1; tv_nsec = tv_nsec - 1000000000 }
    else record { tv_sec = tv_sec; tv_nsec = tv_nsec }

-- From the time of day in seconds and microseconds. `ms*1000` is a product of two `int`s; where it overflows,
-- which C leaves undefined, there is no result. The rest is computed in `long`, of 64 bits, and fits.
unfoldable pub deadline : ℕ → ℕ → ℕ → Option Timespec
deadline tv_sec tv_usec ms =
    if ltb (ms * 1000) (2 ^ 31) then some (carried tv_sec ((tv_usec + ms * 1000) * 1000)) else none

abbrev pub nanoseconds : Timespec → ℕ
nanoseconds ts = ts.tv_sec * 1000000000 + ts.tv_nsec

-- If the microseconds of the time of day and the wait make less than two seconds and not exactly one,
-- the deadline is the time of day and the wait together, and its nanoseconds are in range.
pub deadline_lem :
    (tv_sec tv_usec ms : ℕ)
    → tv_usec + ms * 1000 < 2000000
    → tv_usec + ms * 1000 ≢ 1000000
    → (ts : Timespec) × (deadline tv_sec tv_usec ms ≡ some ts)
      × (nanoseconds ts ≡ tv_sec * 1000000000 + tv_usec * 1000 + ms * 1000000)
      × (ts.tv_nsec < 1000000000)
unfolding deadline carried
deadline_lem tv_sec tv_usec ms h ne =
    let fits : ltb (ms * 1000) (2 ^ 31) ≡ true = ground arith in
    (carried tv_sec ((tv_usec + ms * 1000) * 1000), rw fits refl, ground arith, ground arith)

carried_late :
    (tv_sec usec : ℕ)
    → (usec ≡ 1000000) ⊎ (2000000 ≤ usec)
    → 1000000000 ≤ (carried tv_sec (usec * 1000)).tv_nsec
unfolding carried
carried_late tv_sec usec (inl h) = ground arith
carried_late tv_sec usec (inr h) = ground arith

-- If the wait in microseconds fits an `int`, and with the microseconds of the time of day makes exactly one second,
-- or two seconds or more, the deadline is one that `pthread_cond_timedwait` refuses: one second at most is
-- carried, and only past the full second.
pub deadline_refused :
    (tv_sec tv_usec ms : ℕ)
    → ms * 1000 < 2 ^ 31
    → (tv_usec + ms * 1000 ≡ 1000000) ⊎ (2000000 ≤ tv_usec + ms * 1000)
    → (ts : Timespec) × (deadline tv_sec tv_usec ms ≡ some ts) × (1000000000 ≤ ts.tv_nsec)
unfolding deadline
deadline_refused tv_sec tv_usec ms small h =
    let fits : ltb (ms * 1000) (2 ^ 31) ≡ true = ground arith in
    (
      carried tv_sec ((tv_usec + ms * 1000) * 1000),
      rw fits refl,
      carried_late tv_sec (tv_usec + ms * 1000) h,
    )
