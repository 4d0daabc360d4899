-- ===== src/Usb/Order.antt =====
-- The order of the transfers that `jpgSetResolution` of libusbdisp/jpegenc.c makes.
use mathlib.Core.List.{append_assoc, append-nil}
use jpeg_study.Prelude.{ℕ, suc, ◌+◌, ◌≡◌, ◌≢◌, refl, ap, ◌∙◌, arith, Bool, true, false, ◌%◌}
use jpeg_study.Prelude.{◌==◌, List, [], ◌∷◌, ◌++◌, length, length-append, replicate, All, some}
use jpeg_study.Usb.Commands.{
  Transfer, Reply, succeeded, reply_of, control_transfer, status_request, jpg_get_status,
  wait_ready, rounds, resolution_command, send_resolution, jpg_set_resolution,
}

-- The device answers that it is busy, that it is idle, or not at all.
abbrev pub IsBusy : Reply → Type 0
IsBusy r = (succeeded r ≡ true) × (r.word % 256 ≢ 0)

abbrev pub IsIdle : Reply → Type 0
IsIdle r = (succeeded r ≡ true) × (r.word % 256 ≡ 0)

-- The requests that go with some replies.
abbrev pub polls : List Reply → List Transfer
polls rs = replicate (length rs) status_request

get_status-answered :
    (status : ℕ) (r : Reply) (more : List Reply) (sent : List Transfer)
    → succeeded r ≡ true
    → jpg_get_status status (record { replies = r ∷ more; sent = sent })
      ≡ some (true, r.word % 256, record { replies = more; sent = sent ++ (status_request ∷ []) })
unfolding jpg_get_status control_transfer reply_of
get_status-answered status r more sent h = rw h refl

module _ (r : Reply) (more : List Reply) where
  -- Busy replies are passed over.
  wait_ready-busy :
      (bs : List Reply) (fuel status : ℕ) (sent : List Transfer)
      → All IsBusy bs
      → status ≢ 0
      → (answer : Bool) (end : List Transfer)
      → ((s : ℕ) (log : List Transfer)
          → s ≢ 0
          → wait_ready fuel s (record { replies = r ∷ more; sent = log })
            ≡ some (answer, record { replies = more; sent = log ++ end }))
      → wait_ready (length bs + fuel) status (record { replies = bs ++ (r ∷ more); sent = sent })
        ≡ some (answer, record { replies = more; sent = sent ++ polls bs ++ end })
  unfolding wait_ready
  wait_ready-busy [] fuel status sent busy ne answer end last =
      let same : 0 + fuel ≡ fuel = omega arith in rw (same, append-nil sent) (last status sent ne)
  wait_ready-busy (b ∷ bs) fuel status sent busy ne answer end last =
      let count : suc (length bs) + fuel ≡ suc (length bs + fuel) = omega arith in
      let on : (status == 0) ≡ false = ground arith in
      rw (count, on, get_status-answered status b (bs ++ (r ∷ more)) sent busy.0.0)
        (wait_ready-busy bs fuel (b.word % 256) (sent ++ (status_request ∷ [])) busy.1 busy.0.1
            answer end last
          ∙ ap (λ log. some (answer, record { replies = more; sent = log ++ end }))
              (append_assoc sent (status_request ∷ []) (polls bs)))

  wait_ready-idle :
      (fuel status : ℕ) (sent : List Transfer)
      → IsIdle r
      → status ≢ 0
      → wait_ready (suc (suc fuel)) status (record { replies = r ∷ more; sent = sent })
        ≡ some (true, record { replies = more; sent = sent ++ (status_request ∷ []) })
  unfolding wait_ready
  wait_ready-idle fuel status sent idle ne =
      let on : (status == 0) ≡ false = ground arith in
      rw (on, get_status-answered status r more sent idle.0, idle.1) refl

  wait_ready-failed :
      (fuel status : ℕ) (sent : List Transfer)
      → succeeded r ≡ false
      → status ≢ 0
      → wait_ready (suc fuel) status (record { replies = r ∷ more; sent = sent })
        ≡ some (false, record { replies = more; sent = sent ++ (status_request ∷ []) })
  unfolding wait_ready jpg_get_status control_transfer reply_of
  wait_ready-failed fuel status sent failed ne =
      let on : (status == 0) ≡ false = ground arith in rw (on, failed) refl

  -- With a round for every reply and one more the loop comes to an end at the first reply that is not
  -- busy.
  wait_ready-rounds :
      (bs : List Reply) (sent : List Transfer) (answer : Bool)
      → All IsBusy bs
      → ((fuel s : ℕ) (log : List Transfer)
          → s ≢ 0
          → wait_ready (suc (suc fuel)) s (record { replies = r ∷ more; sent = log })
            ≡ some (answer, record { replies = more; sent = log ++ (status_request ∷ []) }))
      → wait_ready
          (rounds (record { replies = bs ++ (r ∷ more); sent = sent }))
          1
          (record { replies = bs ++ (r ∷ more); sent = sent })
        ≡ some (answer, record { replies = more; sent = sent ++ polls bs ++ (status_request ∷ []) })
  wait_ready-rounds bs sent answer busy last =
      let count : suc (suc (length (bs ++ (r ∷ more))))
          ≡ length bs + suc (suc (suc (length more))) =
        omega (arith, length-append bs (r ∷ more)) in
      rw count (
        wait_ready-busy bs (suc (suc (suc (length more)))) 1 sent busy (omega arith) answer
          (status_request ∷ []) (λ s log ne. last (suc (length more)) s log ne))

module _ (width height : ℕ) (before : List Reply) (busy : All IsBusy before) where
  -- If the device is busy for a while and then idle, takes the command with some reply, and is busy and
  -- then idle again, `jpgSetResolution` ends; it has polled until the device was idle, sent the command
  -- once, and polled again; and it returns whether the command was taken.
  pub jpg_set_resolution-ready :
      (idle taken idle' : Reply) (after more : List Reply)
      → IsIdle idle
      → All IsBusy after
      → IsIdle idle'
      → jpg_set_resolution width height
          (record { replies = before ++ (idle ∷ taken ∷ (after ++ (idle' ∷ more))); sent = [] })
        ≡ some (
          succeeded taken,
          record {
            replies = more;
            sent =
                polls before
                ++ (status_request ∷ [])
                ++ (resolution_command width height ∷ [])
                ++ polls after
                ++ (status_request ∷ []);
          },
        )
  unfolding jpg_set_resolution send_resolution control_transfer reply_of
  jpg_set_resolution-ready idle taken idle' after more i busy' i' =
      rw
        (
          wait_ready-rounds idle (taken ∷ (after ++ (idle' ∷ more))) before [] true busy
              (λ fuel s log ne.
                wait_ready-idle idle (taken ∷ (after ++ (idle' ∷ more))) fuel s log i ne),
          wait_ready-rounds idle' more after
              (polls before ++ (status_request ∷ []) ++ (resolution_command width height ∷ [])) true
              busy' (λ fuel s log ne. wait_ready-idle idle' more fuel s log i' ne),
        )
        refl

  -- If a status request fails before the device has been idle, `jpgSetResolution` returns false and has sent
  -- status requests only.
  pub jpg_set_resolution-failed :
      (bad : Reply) (more : List Reply)
      → succeeded bad ≡ false
      → jpg_set_resolution width height (record { replies = before ++ (bad ∷ more); sent = [] })
        ≡ some (false, record { replies = more; sent = polls before ++ (status_request ∷ []) })
  unfolding jpg_set_resolution
  jpg_set_resolution-failed bad more failed =
      rw
        (wait_ready-rounds bad more before [] false busy
          (λ fuel s log ne. wait_ready-failed bad more (suc fuel) s log failed ne))
        refl
