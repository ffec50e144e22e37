-- ===== src/Worker.antt =====
-- apps/worker/src/index.ts: a job of the queue is validated and goes to its handler; what the handler throws
-- goes to the queue or, for a notification, to the dead letters. The handlers that have no model of their own
-- are an argument, and the queue's answers are those of packages/common/src/bullmq-lite.ts.
mod Checked
mod Retried
mod Kept
mod Examples
use groceryclaw.Base.{
  ℕ, zero, suc, ◌+◌, ◌-◌, ◌*◌, ◌/◌, ◌%◌, ◌≤◌, ◌<◌, ◌↔◌, ◌⊎◌, String, Bool, true, false, not, ◌&&◌,
  ◌||◌, List, [], ◌∷◌, ◌++◌, map, Option, none, some, ◌≡◌, refl, ◌≢◌, inl, inr, if◌then◌else◌,
  Option-cases, Bool-cases, arith, leb, ltb, ◌==◌, sym, ◌∙◌, ap, subst, str_eq, str_eq_iff,
  str_eq_refl, is_some, any, find, keep_if, length, length-append, guard, ◌>>=◌, ◌>>◌, includes,
  get_or_else, All, max, min, drop,
}
use groceryclaw.Inbound.{Env, Db, Outcome, returned, process_inbound}
use groceryclaw.Mapping.{Services, Tables, given}
use groceryclaw.Mapping.Resolve.{process_map_resolve}
use groceryclaw.Mapping.Answer.{process_confirm_mapping, expire_questions}
use groceryclaw.Sync.{Platform, SyncDb, process_kiotviet_sync_job}
use groceryclaw.Notify.{NotifierSettings, NotifyDb}
use groceryclaw.Notify.Send.{
  World, SendResult, process_notify_user_job, flush_pending, was_sent, not_sent, threw_retriable,
}
use groceryclaw.Jobs.{
  WorkerJobEnvelope, JobType, Payload, process_inbound_event, process_image_invoice,
  process_excel_invoice, chatbot_reply, map_resolve, kiotviet_sync, kiotviet_product_sync,
  confirm_mapping, flush_pending_notifications, notify_user,
}
use groceryclaw.Jobs.Valid.{validate}

-- A row that `persistNotifierDeadLetter` writes.
pub record DeadLetter : Type 0 where
  pub platform_user_id : String
  pub error_code : String
  pub attempts : ℕ
  pub max_attempts : ℕ

pub record WorkerState : Type 0 where
  pub inbound : Db
  pub lines : Tables
  pub sync : SyncDb
  pub notes : NotifyDb
  pub dead_letters : List DeadLetter

-- The settings and what the handlers call; `other_handler` is the result of a handler outside the model.
pub record Handlers : Type 0 where
  pub trim : String → String
  pub env : Env
  pub services : Services
  pub platform : Platform
  pub settings : NotifierSettings
  pub world : World
  pub other_handler : WorkerJobEnvelope → Option String
  pub dlq_enabled : Bool

-- What a handler throws.
pub data Thrown : Type 0 where
  nothing : Thrown
  notifier_retriable : (code : String) → Thrown
  other_error : (message : String) → Thrown

abbrev pub thrown_of : Option String → Thrown
thrown_of none = nothing
thrown_of (some m) = other_error m

abbrev pub thrown_of_outcome : Outcome → Thrown
thrown_of_outcome returned = nothing
thrown_of_outcome (Outcome.threw m) = other_error m

abbrev pub thrown_of_send : SendResult → Thrown
thrown_of_send was_sent = nothing
thrown_of_send not_sent = nothing
thrown_of_send (threw_retriable code ms) = notifier_retriable code
thrown_of_send (SendResult.threw m) = other_error m

abbrev pub is_notify_user : JobType → Bool
is_notify_user notify_user = true
is_notify_user _ = false

module _ (h : Handlers) (now : ℕ) where
  -- `processFlushPendingNotificationsJob`, with the questions of the lines whose time is over.
  unfoldable pub flush_job : WorkerJobEnvelope → WorkerState → WorkerState × Thrown
  flush_job job s =
      let r = flush_pending h.settings h.world now job s.notes in
      let active =
        h.settings.enabled
        && (h.settings.flush_enabled
            && (is_some (given job.tenant_id) && is_some (given job.user_id))) in
      (
        record s { notes = r.0; lines = if active then expire_questions now s.lines else s.lines },
        thrown_of_send r.1,
      )

  -- The handler of a type of job.
  unfoldable pub handle_as : JobType → WorkerJobEnvelope → WorkerState → WorkerState × Thrown
  handle_as process_inbound_event job s =
      let r = process_inbound h.env job s.inbound in
      (record s { inbound = r.0 }, thrown_of_outcome r.1)
  handle_as process_image_invoice job s = (s, thrown_of (h.other_handler job))
  handle_as process_excel_invoice job s = (s, thrown_of (h.other_handler job))
  handle_as chatbot_reply job s = (s, thrown_of (h.other_handler job))
  handle_as map_resolve job s =
      let r = process_map_resolve h.services job s.lines in
      (record s { lines = r.0 }, thrown_of r.1)
  handle_as kiotviet_sync job s =
      let r = process_kiotviet_sync_job h.platform job now s.sync in
      (record s { sync = r.0 }, thrown_of r.1)
  handle_as kiotviet_product_sync job s = (s, thrown_of (h.other_handler job))
  handle_as confirm_mapping job s =
      let r = process_confirm_mapping h.services job now s.lines in
      (record s { lines = r.0 }, thrown_of r.1)
  handle_as flush_pending_notifications job s = flush_job job s
  handle_as notify_user job s =
      let r = process_notify_user_job h.settings h.world now job s.notes in
      (record s { notes = r.0 }, thrown_of_send r.1)

  -- `handleEnvelope`: a job that validation refuses is dropped.
  unfoldable pub handle_envelope : Option Payload → WorkerState → WorkerState × Thrown
  handle_envelope input s = elim (validate h.trim input) [
    | none ↦ (s, nothing)
    | some job ↦ handle_as job.job_type job s
  ]

  -- `persistNotifierDeadLetter`
  unfoldable pub persist_dead_letter :
      Option Payload → (code : String) (attempts max_attempts : ℕ) → WorkerState → WorkerState
  persist_dead_letter input code attempts max_attempts s = elim (validate h.trim input) [
    | none ↦ s
    | some job ↦
        if is_notify_user job.job_type && is_some (given job.tenant_id)
        then record s {
          dead_letters =
              s.dead_letters
              ++ record {
                platform_user_id = job.platform_user_id;
                error_code = code;
                attempts = attempts;
                max_attempts = max_attempts;
              }
                ∷ [];
        }
        else s
  ]

  -- What the worker does with the end of a run; in front, whether it throws.
  unfoldable pub after_handling :
      Option Payload → (attempts_made max_attempts : ℕ) → Thrown → WorkerState → Bool × WorkerState
  after_handling input made max_attempts nothing s = (false, s)
  after_handling input made max_attempts (other_error m) s = (true, s)
  after_handling input made max_attempts (notifier_retriable code) s =
      if leb max_attempts (suc made) && h.dlq_enabled
      then (false, persist_dead_letter input code (suc made) max_attempts s)
      else (true, s)

  -- The processor that `startBullMqWorker` gives to the queue, on a job that was tried `made` times.
  unfoldable pub run_job :
      Option Payload → (attempts_made max_attempts : ℕ) → WorkerState → Bool × WorkerState
  run_job input made max_attempts s =
      let r = handle_envelope input s in after_handling input made max_attempts r.1 r.0
