-- ===== src/Queue/Attempts.antt =====
-- The runs of one job (packages/common/src/bullmq-lite.ts).
use groceryclaw.Queue.{
  StoredJob, after_run, done, failed_for_good, wait_again, delay_until, compute_backoff_ms, new_job,
  Backoff, Next,
}
use groceryclaw.Base.{
  ℕ, zero, suc, ◌+◌, ◌≤◌, ◌<◌, ◌⊎◌, String, Bool, true, false, Option, ◌≡◌, refl, ◌≢◌, inl, inr,
  Bool-cases, arith, ltb, get_or_else, max,
}

pub data End : Type 0 where
  succeeded gave_up out_of_fuel : End

-- The runs of a job: how many, when the last one starts at the earliest, and how they end. The processor
-- throws where `throws` says so of the attempts made before.
pub record Life : Type 0 where
  pub runs : ℕ
  pub last_start : ℕ
  pub end : End

unfoldable pub live : (throws : ℕ → Bool) → (fuel now : ℕ) → StoredJob → Life
live throws zero now job = record { runs = 0; last_start = now; end = out_of_fuel }
live throws (suc fuel) now job = elim (after_run now job (throws job.attempts_made)) [
  | done ↦ record { runs = 1; last_start = now; end = succeeded }
  | failed_for_good n ↦ record { runs = 1; last_start = now; end = gave_up }
  | wait_again next ↦ let l = live throws fuel now next in record l { runs = suc l.runs }
  | delay_until t next ↦ let l = live throws fuel t next in record l { runs = suc l.runs }
]

-- The queue keeps the job for another run, at once or at a time, with one attempt more counted.
abbrev pub IsTriedAgain : StoredJob → Next → Type 0
IsTriedAgain job next =
    (next ≡ wait_again (record job { attempts_made = suc job.attempts_made }))
    ⊎ ((t : ℕ) × (next ≡ delay_until t (record job { attempts_made = suc job.attempts_made })))

-- What a run leads to, when the attempts are counted.
pub after_run-cases :
    (now : ℕ) (job : StoredJob) (threw : Bool)
    → job.attempts_made < job.attempts
    → ((threw ≡ false) × (after_run now job threw ≡ done))
      ⊎ ((threw ≡ true)
          × (((suc job.attempts_made ≡ job.attempts)
                × (after_run now job threw ≡ failed_for_good job.attempts))
              ⊎ ((suc job.attempts_made < job.attempts)
                  × IsTriedAgain job (after_run now job threw))))
unfolding after_run
after_run-cases now job false h = inl (refl, refl)
after_run-cases now job true h = elim (Bool-cases (ltb (suc job.attempts_made) job.attempts)) [
  | inr last' ↦ inr (refl, inl (ground (arith, last', h), ground (arith, last', h)))
  | inl more ↦ inr (
    refl,
    inr (
      ground (arith, more),
      elim (Bool-cases (ltb 0 (compute_backoff_ms job.backoff (suc job.attempts_made)))) [
        | inl later ↦
            inr
              (now + compute_backoff_ms job.backoff (suc job.attempts_made), rw (more, later) refl)
        | inr at_once ↦ inl (rw (more, at_once) refl)
      ],
    ),
  )
]

live-bound :
    (throws : ℕ → Bool) (fuel now : ℕ) (job : StoredJob)
    → job.attempts_made < job.attempts
    → job.attempts ≤ job.attempts_made + fuel
    → ((live throws fuel now job).runs + job.attempts_made ≤ job.attempts)
      × ((live throws fuel now job).end ≢ out_of_fuel)
unfolding live
live-bound throws zero now job h f = absurd (omega (arith, h, f))
live-bound throws (suc fuel) now job h f =
    let next : StoredJob = record job { attempts_made = suc job.attempts_made } in
    elim (after_run-cases now job (throws job.attempts_made) h) [
      | inl (fine, e) ↦ rw (e, live) (omega (arith, h), λ x. ground (arith, x))
      | inr (bad, inl (last', e)) ↦ rw (e, live) (omega (arith, h), λ x. ground (arith, x))
      | inr (bad, inr (more, inl e)) ↦
          let rest = live-bound throws fuel now next more (omega (arith, f)) in
          rw (e, live) (omega (arith, rest.0), rest.1)
      | inr (bad, inr (more, inr (t, e))) ↦
          let rest = live-bound throws fuel t next more (omega (arith, f)) in
          rw (e, live) (omega (arith, rest.0), rest.1)
    ]

live-always :
    (fuel now : ℕ) (job : StoredJob)
    → job.attempts_made < job.attempts
    → job.attempts ≤ job.attempts_made + fuel
    → ((live (λ _. true) fuel now job).runs + job.attempts_made ≡ job.attempts)
      × ((live (λ _. true) fuel now job).end ≡ gave_up)
unfolding live
live-always zero now job h f = absurd (omega (arith, h, f))
live-always (suc fuel) now job h f =
    let next : StoredJob = record job { attempts_made = suc job.attempts_made } in
    elim (after_run-cases now job true h) [
      | inl (fine, e) ↦ absurd (ground (arith, fine))
      | inr (bad, inl (last', e)) ↦ rw (e, live) (omega (arith, last'), refl)
      | inr (bad, inr (more, inl e)) ↦
          let rest = live-always fuel now next more (omega (arith, f)) in
          rw (e, live) (omega (arith, rest.0), rest.1)
      | inr (bad, inr (more, inr (t, e))) ↦
          let rest = live-always fuel t next more (omega (arith, f)) in
          rw (e, live) (omega (arith, rest.0), rest.1)
    ]

-- A job that was added with `attempts` (1 where none or 0 is given) is run at most so often, and its runs
-- end, in success or for good; when its processor always throws, it is run exactly so often and ends for
-- good. Steps as many as the attempts are enough.
pub live-new_job :
    (throws : ℕ → Bool) (fuel now : ℕ) (id name data_text : String) (attempts : Option ℕ)
    (backoff : Option Backoff)
    → max 1 (get_or_else attempts 1) ≤ fuel
    → let job = new_job id name data_text attempts backoff in
      (((live throws fuel now job).runs ≤ max 1 (get_or_else attempts 1))
        × ((live throws fuel now job).end ≢ out_of_fuel))
      × (((live (λ _. true) fuel now job).runs ≡ max 1 (get_or_else attempts 1))
          × ((live (λ _. true) fuel now job).end ≡ gave_up))
unfolding new_job
live-new_job throws fuel now id name data_text attempts backoff f =
    let job = new_job id name data_text attempts backoff in
    let (few, ends) = live-bound throws fuel now job (omega arith) (omega (arith, f)) in
    let (all, gives_up) = live-always fuel now job (omega arith) (omega (arith, f)) in
    ((omega (arith, few), ends), (omega (arith, all), gives_up))
