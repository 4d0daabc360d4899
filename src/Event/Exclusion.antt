-- ===== src/Event/Exclusion.antt =====
-- The event of libusbdisp/libenc/event.c keeps its threads apart, and each `set_event` lets one wait pass
-- at most.
use mathlib.Core.Path.{subst}
use jpeg_study.Prelude.{ℕ, ◌+◌, ◌≤◌, ◌≡◌, ◌≢◌, refl, sym, ap, arith, Bool, true, false}
use jpeg_study.Prelude.{Option, none, some, ℕ_discrete}
use jpeg_study.Event.Steps.{
  Place, outside, setting, expired, testing, sleeping, Event, move, Step, Reachable, set_lock,
  set_flag, wait_lock, wait_sleep, wait_wake, wait_pass, wait_expire, wait_give_up, start, next,
}

-- The places behind the lock.
abbrev pub is_inside : Place → Bool
is_inside outside = false
is_inside setting = true
is_inside expired = true
is_inside (testing timed) = true
is_inside (sleeping timed) = false

abbrev pub bit : Bool → ℕ
bit true = 1
bit false = 0

-- A thread behind the lock owns the mutex, and no wait has passed without a `set_event` of its own.
record IsSound (e : Event) : Type 0 where
  owner : (u : ℕ) → is_inside (e.place u) ≡ true → e.mutex ≡ some u
  counted : e.passes + bit e.flag ≤ e.sets

move_self : (t : ℕ) (p : Place) (place : ℕ → Place) → move t p place t ≡ p
unfolding move
move_self t p place = ground arith

move_other : (t u : ℕ) (p : Place) (place : ℕ → Place) → u ≢ t → move t p place u ≡ place u
unfolding move
move_other t u p place h = ground arith

module _ (t : ℕ) (e : Event) (s : IsSound e) where
  owner-lock :
      (p : Place)
      → e.mutex ≡ none
      → (u : ℕ) → is_inside (move t p e.place u) ≡ true
      → some t ≡ some u
  owner-lock p free u h = elim (ℕ_discrete u t) [
    | yes same ↦ ap some (sym same)
    | no other ↦
        let inside = subst (λ q. is_inside q ≡ true) (move_other t u p e.place other) h in
        let owned = s.owner u inside in cc
  ]

  owner-unlock :
      (p : Place) (mutex : Option ℕ)
      → is_inside p ≡ false
      → is_inside (e.place t) ≡ true
      → (u : ℕ) → is_inside (move t p e.place u) ≡ true
      → mutex ≡ some u
  owner-unlock p mutex out here u h = elim (ℕ_discrete u t) [
    | yes same ↦
        let moved = subst (λ v. is_inside (move t p e.place v) ≡ true) same h in
        let inside = subst (λ q. is_inside q ≡ true) (move_self t p e.place) moved in cc
    | no other ↦
        let inside = subst (λ q. is_inside q ≡ true) (move_other t u p e.place other) h in
        let mine = s.owner t here in let theirs = s.owner u inside in absurd (other cc)
  ]

Step-IsSound : (t : ℕ) (e e' : Event) → Step t e e' → IsSound e → IsSound e'
Step-IsSound t e e' (set_lock free here) s = record {
  owner = owner-lock t e s setting free;
  counted = s.counted;
}
Step-IsSound t e e' (set_flag here) s = record {
  owner = owner-unlock t e s outside none refl (ap is_inside here);
  counted = omega (arith, s.counted);
}
Step-IsSound t e e' (wait_lock timed free here) s = record {
  owner = owner-lock t e s (testing timed) free;
  counted = s.counted;
}
Step-IsSound t e e' (wait_sleep timed here down) s = record {
  owner = owner-unlock t e s (sleeping timed) none refl (ap is_inside here);
  counted = s.counted;
}
Step-IsSound t e e' (wait_wake timed free here) s = record {
  owner = owner-lock t e s (testing timed) free;
  counted = s.counted;
}
Step-IsSound t e e' (wait_pass timed here up) s = record {
  owner = owner-unlock t e s outside none refl (ap is_inside here);
  counted =
      let c : e.passes + bit true ≤ e.sets = subst (λ f. e.passes + bit f ≤ e.sets) up s.counted in
      omega (arith, c);
}
Step-IsSound t e e' (wait_expire free here) s = record {
  owner = owner-lock t e s expired free;
  counted = s.counted;
}
Step-IsSound t e e' (wait_give_up here) s = record {
  owner = owner-unlock t e s outside none refl (ap is_inside here);
  counted = s.counted;
}

reachable-IsSound : (e : Event) → Reachable e → IsSound e
reachable-IsSound e start = record { owner = λ u h. cc; counted = omega arith }
reachable-IsSound e (next {e = before} {t} r step) =
    Step-IsSound t before e step (reachable-IsSound before r)

-- Whatever the threads do, two that are behind the lock of the event at once are the same thread.
pub threads_apart :
    (e : Event) (t u : ℕ)
    → Reachable e
    → is_inside (e.place t) ≡ true
    → is_inside (e.place u) ≡ true
    → t ≡ u
threads_apart e t u r ht hu =
    let s = reachable-IsSound e r in let mine = s.owner t ht in let theirs = s.owner u hu in cc

-- Whatever the threads do, the waits that have gone through and the flag, if it is up, are no more than
-- the calls of `set_event` that have gone through: each call lets one wait pass at most.
pub passes_bounded : (e : Event) → Reachable e → e.passes + bit e.flag ≤ e.sets
passes_bounded e r = (reachable-IsSound e r).counted
