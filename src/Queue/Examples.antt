-- ===== src/Queue/Examples.antt =====
-- A concrete job for the theorems on the queue: three attempts, one second of exponential backoff.
use groceryclaw.Queue.Attempts.{live, out_of_fuel, gave_up, live-new_job, succeeded}
use groceryclaw.Queue.{StoredJob, new_job, after_run, exponential, compute_backoff_ms}
use groceryclaw.Base.{ℕ, ◌≤◌, Bool, true, some, ◌≡◌, refl, ◌≢◌, arith, ltb}

abbrev throws_twice : ℕ → Bool
throws_twice n = ltb n 2

abbrev job : StoredJob
job = new_job "j1" "NOTIFY_USER" "{}" (some 3) (some (exponential (some 1000)))

live-new_job_example :
    (((live throws_twice 3 50 job).runs ≤ 3) × ((live throws_twice 3 50 job).end ≢ out_of_fuel))
    × (((live (λ _. true) 3 50 job).runs ≡ 3) × ((live (λ _. true) 3 50 job).end ≡ gave_up))
live-new_job_example =
    live-new_job throws_twice 3 50 "j1" "NOTIFY_USER" "{}" (some 3) (some (exponential (some 1000)))
      (omega arith)

-- The third run succeeds, three seconds after the first.
job_runs : live throws_twice 3 50 job ≡ record { runs = 3; last_start = 3050; end = succeeded }
unfolding live new_job after_run compute_backoff_ms
job_runs = refl
