-- ===== src/Inbound/Queued.antt =====
-- What becomes of the jobs that an XML invoice queues (apps/worker/src/process-inbound.ts, and the validation
-- of packages/common/src/jobs.ts).
use groceryclaw.Jobs.Valid.{
  validate, read_header, read_ids, is_acceptable, is_notification, as_non_empty_string, has_ids,
  Header, Ids,
}
use groceryclaw.Jobs.{
  WorkerJobEnvelope, Payload, job_type_of, job_type_name, notify_user, map_resolve,
}
use groceryclaw.Inbound.{
  Env, Db, process_inbound, process_event, store_invoice, notify_user_job, map_resolve_job,
  bare_payload,
}
use mathlib.Core.Option.{some-injective}
use groceryclaw.Base.{
  ◌⊎◌, String, false, [], ◌∷◌, ◌++◌, none, some, ◌≡◌, refl, inl, inr, Option-cases, arith, sym,
  str_eq, All, All-append,
}

-- A job of the worker that validation refuses is dropped (apps/worker/src/index.ts, `handleEnvelope`).
abbrev pub IsRefused : (trim : String → String) → Payload → Type 0
IsRefused trim p = validate trim (some p) ≡ none

module _ (trim : String → String) (job : WorkerJobEnvelope) where
  header-type :
      (name : String) (h : Header)
      → read_header trim (bare_payload name job) ≡ some h
      → job_type_of name ≡ some h.job_type
  unfolding read_header as_non_empty_string
  header-type name h e = ground (arith, e)

  unacceptable-IsRefused :
      (p : Payload)
      → ((h : Header) (i : Ids) → read_header trim p ≡ some h → is_acceptable trim h i p ≡ false)
      → IsRefused trim p
  unfolding validate
  unacceptable-IsRefused p no' = elim (Option-cases (read_header trim p)) [
    | inl none' ↦ rw none' refl
    | inr (h, e) ↦ elim (Option-cases (read_ids trim p)) [
      | inl none' ↦ rw (e, none') refl
      | inr (i, e') ↦ rw (e, e', no' h i e) refl
    ]
  ]

  notify_user-IsRefused : IsRefused trim (notify_user_job job)
  unfolding is_acceptable is_notification as_non_empty_string job_type_of job_type_name str_eq
      has_ids
  notify_user-IsRefused = unacceptable-IsRefused (notify_user_job job) (λ h i e.
      let t : h.job_type ≡ notify_user =
        sym (some-injective notify_user h.job_type (header-type "NOTIFY_USER" h e)) in
      ground (arith, t))

  map_resolve-IsRefused : IsRefused trim (map_resolve_job job)
  unfolding is_acceptable is_notification as_non_empty_string job_type_of job_type_name str_eq
      has_ids
  map_resolve-IsRefused = unacceptable-IsRefused (map_resolve_job job) (λ h i e.
      let t : h.job_type ≡ map_resolve =
        sym (some-injective map_resolve h.job_type (header-type "MAP_RESOLVE" h e)) in
      ground (arith, t))

queue-cases :
    (env : Env) (job : WorkerJobEnvelope) (db : Db)
    → ((process_inbound env job db).0.queue ≡ db.queue)
      ⊎ (((process_inbound env job db).0.queue ≡ db.queue ++ notify_user_job job ∷ [])
          ⊎ ((process_inbound env job db).0.queue ≡ db.queue ++ map_resolve_job job ∷ []))
unfolding process_inbound process_event store_invoice
queue-cases env job db = ground arith

module _ (trim : String → String) (env : Env) (job : WorkerJobEnvelope) (db : Db) where
  -- Every job that the pipeline for XML invoices queues is refused by the validation of jobs, on every
  -- path: the notices have no notification type, and the job that is to resolve the lines of the invoice
  -- does not name the invoice.
  pub process_inbound-IsRefused :
      All (IsRefused trim) db.queue → All (IsRefused trim) (process_inbound env job db).0.queue
  process_inbound-IsRefused h = elim (queue-cases env job db) [
    | inl e ↦ rw e h
    | inr (inl e) ↦
        rw e (All-append (IsRefused trim) db.queue _ h (notify_user-IsRefused trim job, tt))
    | inr (inr e) ↦
        rw e (All-append (IsRefused trim) db.queue _ h (map_resolve-IsRefused trim job, tt))
  ]
