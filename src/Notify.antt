-- ===== src/Notify.antt =====
-- apps/worker/src/notifier.ts: notifications that are sent, and those that wait for their user. The tables
-- are those of one tenant; a statement takes effect when it runs (its BEGIN and COMMIT run on any connection
-- of the pool). The audit log and metrics are left out. Times are in milliseconds.
pub mod Send
pub mod Deferred
pub mod Handled
mod Examples
use groceryclaw.Limits.Bucket.{Buckets}
use groceryclaw.Base.Assoc.{Assoc}
use groceryclaw.Jobs.{Number, Scalar}
use groceryclaw.Limits.Notifier.{Limiters, NotifierConfig}
use groceryclaw.Base.{
  ℕ, zero, suc, ◌+◌, ◌-◌, ◌*◌, ◌/◌, ◌%◌, ◌≤◌, ◌<◌, ◌↔◌, ◌⊎◌, String, Bool, true, false, not, ◌&&◌,
  ◌||◌, List, [], ◌∷◌, ◌++◌, map, Option, none, some, ◌≡◌, refl, ◌≢◌, inl, inr, if◌then◌else◌,
  Option-cases, Bool-cases, arith, leb, ltb, ◌==◌, sym, ◌∙◌, ap, subst, str_eq, str_eq_iff,
  str_eq_refl, is_some, any, find, keep_if, length, length-append, guard, ◌>>=◌, ◌>>◌, includes,
  get_or_else, All, max, min, drop,
}

pub data PendingStatus : Type 0 where
  row_pending row_flushed row_expired row_failed : PendingStatus

-- A row of `pending_notifications`; the list is in the order of `created_at`.
pub record PendingRow : Type 0 where
  pub id : String
  pub user_id : String
  pub platform_user_id : String
  pub message_type : String
  pub vars : Assoc Scalar
  pub expires_at : ℕ
  pub row_status : PendingStatus

-- `NotifyUserPayload`
pub record Notification : Type 0 where
  pub tenant_id : Option String
  pub platform_user_id : String
  pub user_id : Option String
  pub telegram_chat_id : Option Number
  pub notification_type : String
  pub template_vars : Assoc Scalar
  pub correlation_id : String

pub data NotifyStatus : Type 0 where
  notify_completed notify_failed notify_dead_letter : NotifyStatus

-- A row of `jobs`.
pub record NotifyRow : Type 0 where
  pub platform_user_id : String
  pub notification_type : String
  pub status : NotifyStatus
  pub error_code : String

-- The tables, the limiters in memory, and the messages that Telegram has taken.
pub record NotifyDb : Type 0 where
  pub pending : List PendingRow
  pub next_id : ℕ
  pub jobs : List NotifyRow
  pub limiters : Limiters
  pub flush_buckets : Buckets
  pub sends : List (Number × String)

pub record NotifierSettings : Type 0 where
  pub enabled : Bool
  pub interaction_window_enforced : Bool
  pub flush_enabled : Bool
  pub dlq_enabled : Bool
  pub interaction_window_seconds : ℕ
  pub pending_ttl_seconds : ℕ
  pub max_pending_per_user : ℕ
  pub flush_batch_size : ℕ
  pub flush_max_per_run : ℕ
  pub flush_per_minute : ℕ
  pub limits : NotifierConfig
  pub retry_base_ms : ℕ
  pub retry_max_ms : ℕ

abbrev pub coalesced_types : List String
coalesced_types = "INVOICE_PROCESSED" ∷ "GENERIC_INFO" ∷ "RATE_LIMITED" ∷ []

abbrev pub is_row_pending : PendingStatus → Bool
is_row_pending row_pending = true
is_row_pending _ = false

-- A row that waits for the user.
abbrev pub waits_for : (user : String) → PendingRow → Bool
waits_for user r = str_eq r.user_id user && is_row_pending r.row_status

unfoldable pub count_rows : (PendingRow → Bool) → List PendingRow → ℕ
count_rows p [] = 0
count_rows p (r ∷ rs) = let rest = count_rows p rs in if p r then suc rest else rest

-- `DELETE ... AND message_type = ...`
unfoldable pub coalesce : (user type : String) → List PendingRow → List PendingRow
coalesce user type rows =
    if includes coalesced_types type
    then keep_if (λ r. not (waits_for user r && str_eq r.message_type type)) rows
    else rows

-- `DELETE ... ORDER BY created_at DESC OFFSET ...`: the newest `n` rows that wait for the user stay.
unfoldable pub keep_newest : (user : String) (n : ℕ) → List PendingRow → List PendingRow
keep_newest user n [] = []
keep_newest user n (r ∷ rs) =
    let rest = keep_newest user n rs in
    if waits_for user r && leb n (count_rows (waits_for user) rs) then rest else r ∷ rest

abbrev pub expire_row : (user : String) (now : ℕ) → PendingRow → PendingRow
expire_row user now r =
    if waits_for user r && leb r.expires_at now then record r { row_status = row_expired } else r

abbrev pub expire_rows : (user : String) (now : ℕ) → List PendingRow → List PendingRow
expire_rows user now rows = map (expire_row user now) rows

abbrev pub deferred_row :
    NotifierSettings → (now : ℕ) → (id user : String) → Notification → PendingRow
deferred_row cfg now id user p = record {
  id = id;
  user_id = user;
  platform_user_id = p.platform_user_id;
  message_type = p.notification_type;
  vars = p.template_vars;
  expires_at = now + max 60 cfg.pending_ttl_seconds * 1000;
  row_status = row_pending;
}

-- `deferNotification` for a tenant and a user; `id` is the identifier of the new row.
unfoldable pub defer_rows :
    NotifierSettings
    → (now : ℕ) → (id user : String) → Notification
    → List PendingRow
    → List PendingRow
defer_rows cfg now id user p rows = expire_rows user now (
    keep_newest user (max 1 cfg.max_pending_per_user)
      (coalesce user p.notification_type rows ++ deferred_row cfg now id user p ∷ []))
