-- ===== src/Worker/Retried.antt =====
-- A notification that keeps failing ends in a dead letter (apps/worker/src/index.ts, and the queue of
-- packages/common/src/bullmq-lite.ts).
use groceryclaw.Queue.Attempts.{IsTriedAgain, after_run-cases}
use groceryclaw.Mapping.{given}
use groceryclaw.Jobs.Valid.{validate}
use groceryclaw.Queue.{StoredJob, after_run, done}
use groceryclaw.Jobs.{Payload, WorkerJobEnvelope}
use groceryclaw.Worker.{
  Handlers, persist_dead_letter, handle_envelope, run_job, handle_as, flush_job, WorkerState,
  is_notify_user, notifier_retriable, after_handling,
}
use groceryclaw.Base.{
  ℕ, suc, ◌≤◌, ◌<◌, ◌⊎◌, String, true, false, ◌&&◌, Option, some, ◌≡◌, refl, inl, inr, Bool-cases,
  arith, leb, ◌∙◌, ap, is_some, length, length-append, subst, sym,
}

module _ (h : Handlers) (now : ℕ) where
  handle_envelope-dead_letters :
      (input : Option Payload) (s : WorkerState)
      → (handle_envelope h now input s).0.dead_letters ≡ s.dead_letters
  unfolding handle_envelope handle_as flush_job
  handle_envelope-dead_letters input s = ground arith

  persisted :
      (input : Option Payload) (v : WorkerJobEnvelope) (code tenant : String) (made most : ℕ)
      (s : WorkerState)
      → validate h.trim input ≡ some v
      → is_notify_user v.job_type ≡ true
      → given v.tenant_id ≡ some tenant
      → length (persist_dead_letter h now input code made most s).dead_letters
        ≡ suc (length s.dead_letters)
  unfolding persist_dead_letter
  persisted input v code tenant made most s e n t =
      let both : (is_notify_user v.job_type && is_some (given v.tenant_id)) ≡ true =
        ground (arith, n, t) in
      rw (e, both, persist_dead_letter) (length-append s.dead_letters _ ∙ omega arith)

  -- A job that throws with an attempt left is tried again.
  after_run_again :
      (job : StoredJob)
      → suc job.attempts_made < job.attempts
      → IsTriedAgain job (after_run now job true)
  after_run_again job more = elim (after_run-cases now job true (omega (arith, more))) [
    | inl (fine, e) ↦ absurd (ground (arith, fine))
    | inr (bad, inl (last, e)) ↦ absurd (omega (arith, last, more))
    | inr (bad, inr (left, again)) ↦ again
  ]

  -- A notification of a tenant that fails and may be tried again is tried again by the queue as long as it
  -- has attempts left, without a dead letter; with the last attempt it becomes exactly one dead letter, and
  -- is done for the queue, provided dead letters are switched on.
  pub run_job-retriable :
      (input : Option Payload) (v : WorkerJobEnvelope) (code tenant : String) (job : StoredJob)
      (s : WorkerState)
      → h.dlq_enabled ≡ true
      → validate h.trim input ≡ some v
      → is_notify_user v.job_type ≡ true
      → given v.tenant_id ≡ some tenant
      → (handle_envelope h now input s).1 ≡ notifier_retriable code
      → ((suc job.attempts_made < job.attempts)
          × (IsTriedAgain job
                (after_run now job (run_job h now input job.attempts_made job.attempts s).0)
              × ((run_job h now input job.attempts_made job.attempts s).1.dead_letters
                  ≡ s.dead_letters)))
        ⊎ ((job.attempts ≤ suc job.attempts_made)
            × ((after_run now job (run_job h now input job.attempts_made job.attempts s).0 ≡ done)
                × (length (run_job h now input job.attempts_made job.attempts s).1.dead_letters
                    ≡ suc (length s.dead_letters))))
  unfolding run_job after_handling after_run
  run_job-retriable input v code tenant job s dlq e n t thrown =
      let u = (handle_envelope h now input s).0 in
      let kept = handle_envelope-dead_letters input s in
      let step : run_job h now input job.attempts_made job.attempts s
          ≡ after_handling h now input job.attempts_made job.attempts (notifier_retriable code) u =
        ap (λ x. after_handling h now input job.attempts_made job.attempts x u) thrown in
      elim (Bool-cases (leb job.attempts (suc job.attempts_made) && h.dlq_enabled)) [
        | inl last ↦
            let final : after_handling h now input job.attempts_made job.attempts
                  (notifier_retriable code) u
                ≡ (
                  false,
                  persist_dead_letter h now input code (suc job.attempts_made) job.attempts u,
                ) =
              rw last refl in
            inr (
              ground (arith, last),
              (
                ap (λ r. after_run now job r.0) (step ∙ final),
                ap (λ r. length r.1.dead_letters) (step ∙ final)
                    ∙ persisted input v code tenant (suc job.attempts_made) job.attempts u e n t
                    ∙ ap (λ d. suc (length d)) kept,
              ),
            )
        | inr more ↦
            let again : after_handling h now input job.attempts_made job.attempts
                  (notifier_retriable code) u
                ≡ (true, u) =
              rw more refl in
            inl (
              ground (arith, more, dlq),
              (
                subst (λ b. IsTriedAgain job (after_run now job b))
                    (sym (ap (λ r. r.0) (step ∙ again)))
                    (after_run_again job (ground (arith, more, dlq))),
                ap (λ r. r.1.dead_letters) (step ∙ again) ∙ kept,
              ),
            )
      ]
