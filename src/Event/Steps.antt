-- ===== src/Event/Steps.antt =====
-- `set_event`, `wait_event` and `time_wait_event` of libusbdisp/libenc/event.c, run by any number of
-- threads: each step is what a thread does between two operations on the mutex or the condition.
use jpeg_study.Prelude.{ℕ, suc, ◌≡◌, ◌==◌, Bool, true, false, if◌then◌else◌, Option, none, some}

-- Where a thread is: outside; in `set_event` behind the lock; in a wait behind the lock, in front of the
-- test of the flag; in `pthread_cond_wait` or `pthread_cond_timedwait`; and behind the latter when it has
-- reported the end of the time, with the lock. A wait is `timed` in `time_wait_event`.
pub data Place : Type 0 where
  outside setting expired : Place
  testing : Bool → Place
  sleeping : Bool → Place

-- `event_t`, with the owner of the mutex, and the threads. Two counters record how often `set_event` and a
-- wait have gone through.
pub record Event : Type 0 where
  pub flag : Bool
  pub mutex : Option ℕ
  pub place : ℕ → Place
  pub sets : ℕ
  pub passes : ℕ

-- `init_event`, before any thread uses the event.
abbrev pub init_event : Event
init_event = record { flag = false; mutex = none; place = λ t. outside; sets = 0; passes = 0 }

-- Thread `t` goes to `p`.
unfoldable pub move : ℕ → Place → (ℕ → Place) → ℕ → Place
move t p place u = if u == t then p else place u

abbrev pub lock : ℕ → Place → Event → Event
lock t p e = record e { mutex = some t; place = move t p e.place }

abbrev pub unlock : ℕ → Place → Event → Event
unlock t p e = record e { mutex = none; place = move t p e.place }

-- A step of thread `t`. The mutex is taken only while it is free. `pthread_cond_wait` gives the mutex back
-- and may return at any time, signalled or not; a wait with a time limit may also end without the flag,
-- which is then left as it is.
pub data Step (t : ℕ) : Event → Event → Type 0 where
  set_lock : {e : Event} → e.mutex ≡ none → e.place t ≡ outside → Step t e (lock t setting e)
  set_flag :
      {e : Event}
      → e.place t ≡ setting
      → Step t e (unlock t outside (record e { flag = true; sets = suc e.sets }))
  wait_lock :
      {e : Event} (timed : Bool)
      → e.mutex ≡ none
      → e.place t ≡ outside
      → Step t e (lock t (testing timed) e)
  wait_sleep :
      {e : Event} (timed : Bool)
      → e.place t ≡ testing timed
      → e.flag ≡ false
      → Step t e (unlock t (sleeping timed) e)
  wait_wake :
      {e : Event} (timed : Bool)
      → e.mutex ≡ none
      → e.place t ≡ sleeping timed
      → Step t e (lock t (testing timed) e)
  wait_pass :
      {e : Event} (timed : Bool)
      → e.place t ≡ testing timed
      → e.flag ≡ true
      → Step t e (unlock t outside (record e { flag = false; passes = suc e.passes }))
  wait_expire :
      {e : Event} → e.mutex ≡ none → e.place t ≡ sleeping true → Step t e (lock t expired e)
  wait_give_up : {e : Event} → e.place t ≡ expired → Step t e (unlock t outside e)

-- What any threads can bring about.
pub data Reachable : Event → Type 0 where
  start : Reachable init_event
  next : {e e' : Event} {t : ℕ} → Reachable e → Step t e e' → Reachable e'
