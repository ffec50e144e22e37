-- ===== src/Notify/Send.antt =====
-- apps/worker/src/notifier.ts: sending, deferring and flushing. The texts of the templates, Telegram and the
-- table of platform users are arguments.
use groceryclaw.Limits.Bucket.{consume}
use groceryclaw.Mapping.{given, number_eq}
use groceryclaw.Jobs.{WorkerJobEnvelope, Number, whole}
use groceryclaw.Limits.Notifier.{disabled, Scope, global, tenant_scope, consume_message, user_scope}
use groceryclaw.Notify.{
  PendingStatus, Notification, NotifierSettings, NotifyDb, PendingRow, NotifyStatus, expire_rows,
  is_row_pending, row_flushed, notify_completed, notify_dead_letter, defer_rows, notify_failed,
  row_failed, waits_for,
}
use Prim.Native.String
use groceryclaw.Base.{
  ℕ, suc, ◌+◌, ◌*◌, ◌/◌, ◌%◌, String, Bool, true, false, not, ◌&&◌, List, [], ◌∷◌, ◌++◌, map,
  Option, none, some, if◌then◌else◌, leb, ltb, str_eq, keep_if, length, ◌>>=◌, get_or_else, max,
  min, take,
}

-- What Telegram answers.
pub data Sending : Type 0 where
  sent_ok : Sending
  terminal : (code : String) → Sending
  retryable : (code : String) → (retry_after_ms : Option ℕ) → Sending
  broken : (message : String) → Sending

-- What `sendNotification` returns or throws.
pub data SendResult : Type 0 where
  was_sent not_sent : SendResult
  threw_retriable : (code : String) (retry_after_ms : ℕ) → SendResult
  threw : (message : String) → SendResult

pub data Rendered : Type 0 where
  rendered_text : String → Rendered
  unrenderable : (message : String) → Rendered

pub record World : Type 0 where
  pub row_id : ℕ → String
  pub interaction_age_seconds : (user_id : String) → ℕ
  pub render : Notification → Rendered
  pub char_sum : String → ℕ
  pub chat_of_user : (platform_user_id : String) → Option Number
  pub number_of : String → Number
  pub send_text : (sent : ℕ) → Number → String → Sending

-- `computeRetryDelayMs`
unfoldable pub compute_retry_delay_ms : (hash base_ms max_ms : ℕ) → ℕ
compute_retry_delay_ms hash base_ms max_ms = min max_ms (base_ms * 2 + hash % max 1 (base_ms / 2))

abbrev pub scope_code : Scope → String
scope_code global = "rate_limited_global"
scope_code tenant_scope = "rate_limited_tenant"
scope_code user_scope = "rate_limited_user"
scope_code disabled = "rate_limited_disabled"

-- The tenant and the user, where both are there and not empty.
abbrev pub owner_of : Notification → Option String
owner_of p = given p.tenant_id >>= λ t. given p.user_id

-- `deferNotification`
unfoldable pub defer_notification :
    NotifierSettings → World → (now : ℕ) → Notification → NotifyDb → NotifyDb
defer_notification cfg w now p db = elim (owner_of p) [
  | none ↦ db
  | some user ↦ record db {
    pending = defer_rows cfg now (w.row_id db.next_id) user p db.pending;
    next_id = suc db.next_id;
  }
]

-- `persistJobStatus`
unfoldable pub persist_job_status :
    Notification → NotifyStatus → (error_code : String) → NotifyDb → NotifyDb
persist_job_status p s code db = elim (given p.tenant_id) [
  | none ↦ db
  | some t ↦ record db {
    jobs =
        db.jobs
        ++ record {
          platform_user_id = p.platform_user_id;
          notification_type = p.notification_type;
          status = s;
          error_code = code;
        }
          ∷ [];
  }
]

-- `UPDATE pending_notifications SET status = ... WHERE id = ... AND status = 'pending'`
unfoldable pub set_row : (id : String) → PendingStatus → List PendingRow → List PendingRow
set_row id s rows =
    map
      (λ r.
        if str_eq r.id id && is_row_pending r.row_status then record r { row_status = s } else r)
      rows

-- `markTerminalFailure`
unfoldable pub mark_terminal_failure :
    NotifierSettings → Notification → (code : String) → Option String → NotifyDb → NotifyDb
mark_terminal_failure cfg p code row db = elim (given p.tenant_id) [
  | none ↦ db
  | some t ↦
      persist_job_status p (if cfg.dlq_enabled then notify_dead_letter else notify_failed) code
        (elim row [
          | none ↦ db
          | some id ↦ record db { pending = set_row id row_failed db.pending }
        ])
]

abbrev pub chat_for : World → Notification → Number
chat_for w p = elim p.telegram_chat_id [
  | some chat ↦
      if number_eq chat (whole 0)
      then get_or_else (w.chat_of_user p.platform_user_id) (w.number_of p.platform_user_id)
      else chat
  | none ↦ get_or_else (w.chat_of_user p.platform_user_id) (w.number_of p.platform_user_id)
]

module _ (cfg : NotifierSettings) (w : World) (now : ℕ) where
  abbrev pub retry_delay : Notification → ℕ
  retry_delay p =
      compute_retry_delay_ms (w.char_sum p.correlation_id) cfg.retry_base_ms cfg.retry_max_ms

  -- What the answer of Telegram leads to.
  unfoldable pub after_sending :
      Notification → Option String → (text : String) → Sending → NotifyDb → NotifyDb × SendResult
  after_sending p row text sent_ok db = (
    persist_job_status p notify_completed ""
        (record db { sends = db.sends ++ (chat_for w p, text) ∷ [] }),
    was_sent,
  )
  after_sending p row text (terminal code) db = (mark_terminal_failure cfg p code row db, not_sent)
  after_sending p row text (retryable code after) db =
      (db, threw_retriable code (get_or_else after (retry_delay p)))
  after_sending p row text (broken m) db = (db, threw m)

  -- A message that the limits refuse waits for its user, or the job is tried again.
  unfoldable pub refuse_message : Notification → Scope → NotifyDb → NotifyDb × SendResult
  refuse_message p scope db = elim (owner_of p) [
    | some user ↦ (defer_notification cfg w now p db, not_sent)
    | none ↦ (db, threw_retriable (scope_code scope) (retry_delay p))
  ]

  -- `sendNotification`
  unfoldable pub send_rendered :
      Notification → Option String → Rendered → NotifyDb → NotifyDb × SendResult
  send_rendered p row (unrenderable m) db = (db, threw m)
  send_rendered p row (rendered_text text) db =
      let limit = consume_message cfg.limits now p.tenant_id p.platform_user_id db.limiters in
      let counted = record db { limiters = limit.0 } in
      if limit.1.passed
      then after_sending p row text (w.send_text (length db.sends) (chat_for w p) text) counted
      else refuse_message p limit.1.scope counted

  unfoldable pub send_notification : Notification → Option String → NotifyDb → NotifyDb × SendResult
  send_notification p row db = send_rendered p row (w.render p) db

  -- `processNotifyUserJob`: the payload does not take the chat of the job.
  abbrev pub notification_of : WorkerJobEnvelope → (type : String) → Notification
  notification_of job type = record {
    tenant_id = job.tenant_id;
    platform_user_id = job.platform_user_id;
    user_id = given job.user_id;
    telegram_chat_id = none;
    notification_type = type;
    template_vars = get_or_else job.template_vars [];
    correlation_id = job.correlation_id;
  }

  -- Outside the interaction window of the user a notification waits.
  unfoldable pub is_closed : Notification → Bool
  is_closed p = cfg.interaction_window_enforced && elim (owner_of p) [
    | none ↦ false
    | some user ↦ not (leb (w.interaction_age_seconds user) cfg.interaction_window_seconds)
  ]

  unfoldable pub notify : Notification → NotifyDb → NotifyDb × SendResult
  notify p db =
      if is_closed p
      then (defer_notification cfg w now p db, not_sent)
      else send_notification p none db

  unfoldable pub notify_for :
      (type : Option String) (enabled : Bool) → WorkerJobEnvelope → NotifyDb → NotifyDb × SendResult
  notify_for none enabled job db = (db, not_sent)
  notify_for (some type) false job db = (db, not_sent)
  notify_for (some type) true job db = notify (notification_of job type) db

  unfoldable pub process_notify_user_job : WorkerJobEnvelope → NotifyDb → NotifyDb × SendResult
  process_notify_user_job job db = notify_for job.notification_type cfg.enabled job db

  abbrev pub row_notification : (tenant user correlation : String) → PendingRow → Notification
  row_notification tenant user correlation r = record {
    tenant_id = some tenant;
    platform_user_id = r.platform_user_id;
    user_id = some user;
    telegram_chat_id = none;
    notification_type = r.message_type;
    template_vars = r.vars;
    correlation_id = correlation;
  }

  abbrev pub flush_key : (tenant user : String) → String
  flush_key tenant user = String.◌++◌ (String.◌++◌ (String.◌++◌ "flush:" tenant) ":") user

  -- After a row was handled: it is flushed if it was sent.
  abbrev pub after_row : (id : String) → SendResult → NotifyDb → NotifyDb
  after_row id was_sent db = record db { pending = set_row id row_flushed db.pending }
  after_row id _ db = db

  -- The error that ends the flush.
  abbrev pub error_of_send : SendResult → Bool
  error_of_send (threw_retriable code ms) = true
  error_of_send (threw m) = true
  error_of_send _ = false

  -- `parsePendingRow`: a row without one of the texts is passed over.
  abbrev pub is_readable : PendingRow → Bool
  is_readable r =
      not (str_eq r.id "") && (not (str_eq r.platform_user_id "") && not (str_eq r.message_type ""))

  unfoldable pub flush_rows :
      (tenant user correlation : String) → List PendingRow → NotifyDb → NotifyDb × SendResult
  flush_rows tenant user correlation [] db = (db, not_sent)
  flush_rows tenant user correlation (r ∷ rs) db =
      let ticket =
        consume cfg.flush_per_minute cfg.flush_per_minute now (flush_key tenant user) 1
          db.flush_buckets in
      let counted = record db { flush_buckets = ticket.0 } in
      let one =
        send_notification (row_notification tenant user correlation r) (some r.id) counted in
      let rest = flush_rows tenant user correlation rs (after_row r.id one.1 one.0) in
      let skipped = flush_rows tenant user correlation rs counted in
      if not ticket.1.allowed
      then (counted, not_sent)
      else if not (is_readable r)
      then skipped
      else if error_of_send one.1
      then one
      else rest

  -- The rows that a flush takes.
  abbrev pub rows_to_flush : (user : String) → List PendingRow → List PendingRow
  rows_to_flush user rows =
      take (max 1 (min cfg.flush_batch_size cfg.flush_max_per_run))
        (keep_if (λ r. waits_for user r && ltb now r.expires_at) rows)

  -- The part of `processFlushPendingNotificationsJob` on notifications.
  unfoldable pub flush_pending : WorkerJobEnvelope → NotifyDb → NotifyDb × SendResult
  flush_pending job db =
      if not (cfg.enabled && cfg.flush_enabled)
      then (db, not_sent)
      else elim (given job.tenant_id) [
        | none ↦ (db, not_sent)
        | some tenant ↦ elim (given job.user_id) [
          | none ↦ (db, not_sent)
          | some user ↦
              let rows = expire_rows user now db.pending in
              flush_rows tenant user job.correlation_id (rows_to_flush user rows)
                (record db { pending = rows })
        ]
      ]
