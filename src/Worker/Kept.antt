-- ===== src/Worker/Kept.antt =====
-- A notification of a user between the notifier, the worker and its queue
-- (apps/worker/src/notifier.ts, apps/worker/src/index.ts and packages/common/src/bullmq-lite.ts).
use groceryclaw.Queue.Attempts.{IsTriedAgain}
use groceryclaw.Notify.Deferred.{is_kept}
use groceryclaw.Notify.Handled.{failures}
use groceryclaw.Queue.{StoredJob, after_run}
use groceryclaw.Worker.{Handlers, WorkerState}
use groceryclaw.Base.{ℕ, suc, ◌⊎◌, true, ◌≡◌, String, Bool, length, any}

module _ (h : Handlers) (now : ℕ) where
  -- Telegram took the notification; it waits for its user; its failure is on record; the queue tries its job
  -- again; or it is a dead letter.
  abbrev pub IsKept : (user : String) → StoredJob → WorkerState → Bool × WorkerState → Type 0
  IsKept user job s r =
      (length r.1.notes.sends ≡ suc (length s.notes.sends))
      ⊎ ((any (is_kept now (h.world.row_id s.notes.next_id) user) r.1.notes.pending ≡ true)
          ⊎ ((failures r.1.notes.jobs ≡ suc (failures s.notes.jobs))
              ⊎ (IsTriedAgain job (after_run now job r.0)
                  ⊎ (length r.1.dead_letters ≡ suc (length s.dead_letters)))))
