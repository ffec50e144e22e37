-- ===== src/Jobs.antt =====
-- packages/common/src/jobs.ts: the envelope of a worker's job, and its validation.
pub mod Valid
pub mod Again
mod Examples
use groceryclaw.Base.Assoc.{Assoc}
use groceryclaw.Base.{
  ℕ, zero, suc, ◌+◌, ◌-◌, ◌*◌, ◌/◌, ◌%◌, ◌≤◌, ◌<◌, ◌↔◌, ◌⊎◌, String, Bool, true, false, not, ◌&&◌,
  ◌||◌, List, [], ◌∷◌, ◌++◌, map, Option, none, some, ◌≡◌, refl, ◌≢◌, inl, inr, if◌then◌else◌,
  Option-cases, Bool-cases, arith, leb, ltb, ◌==◌, sym, ◌∙◌, ap, subst, str_eq, str_eq_iff,
  str_eq_refl, is_some, any, find, keep_if, length, length-append, guard, ◌>>=◌, ◌>>◌, includes,
  get_or_else, All, max, min, drop,
}

-- A number of a JSON text: 0 and up, below 0 (`negative n` is -n-1), or not whole.
pub data Number : Type 0 where
  whole negative : ℕ → Number
  fraction : (positive : Bool) → String → Number

pub data Scalar : Type 0 where
  num : Number → Scalar
  str : String → Scalar
  boolean : Bool → Scalar

-- The value of a payload's field. `nested` is an array, or an object with a value that is no scalar.
pub data Value : Type 0 where
  missing null_value nested : Value
  scalar : Scalar → Value
  object : Assoc Scalar → Value

-- The fields that are read of a payload that is an object.
pub record Payload : Type 0 where
  pub job_type : Value
  pub tenant_id : Value
  pub inbound_event_id : Value
  pub platform_user_id : Value
  pub message_id : Value
  pub correlation_id : Value
  pub user_id : Value
  pub telegram_chat_id : Value
  pub file_id : Value
  pub canonical_invoice_id : Value
  pub notification_type : Value
  pub template_vars : Value
  pub enqueued_at_ms : Value
  pub message_text : Value
  pub reply_to_message_id : Value

pub data JobType : Type 0 where
  process_inbound_event process_image_invoice process_excel_invoice chatbot_reply notify_user :
      JobType
  flush_pending_notifications map_resolve kiotviet_sync kiotviet_product_sync confirm_mapping :
      JobType

unfoldable pub job_type_name : JobType → String
job_type_name process_inbound_event = "PROCESS_INBOUND_EVENT"
job_type_name process_image_invoice = "PROCESS_IMAGE_INVOICE"
job_type_name process_excel_invoice = "PROCESS_EXCEL_INVOICE"
job_type_name chatbot_reply = "CHATBOT_REPLY"
job_type_name notify_user = "NOTIFY_USER"
job_type_name flush_pending_notifications = "FLUSH_PENDING_NOTIFICATIONS"
job_type_name map_resolve = "MAP_RESOLVE"
job_type_name kiotviet_sync = "KIOTVIET_SYNC"
job_type_name kiotviet_product_sync = "KIOTVIET_PRODUCT_SYNC"
job_type_name confirm_mapping = "CONFIRM_MAPPING"

abbrev pub job_types : List JobType
job_types =
    process_inbound_event ∷ process_image_invoice ∷ process_excel_invoice ∷ chatbot_reply
    ∷ notify_user ∷ flush_pending_notifications ∷ map_resolve ∷ kiotviet_sync
    ∷ kiotviet_product_sync ∷ confirm_mapping ∷ []

-- `allowed.includes(jobType)`, with the type that the text names.
unfoldable pub job_type_of : String → Option JobType
job_type_of s = find (λ t. str_eq (job_type_name t) s) job_types

pub record WorkerJobEnvelope : Type 0 where
  pub job_type : JobType
  pub tenant_id : Option String
  pub inbound_event_id : Option String
  pub platform_user_id : String
  pub message_id : String
  pub correlation_id : String
  pub user_id : Option String
  pub telegram_chat_id : Option Number
  pub file_id : Option String
  pub canonical_invoice_id : Option String
  pub notification_type : Option String
  pub template_vars : Option (Assoc Scalar)
  pub enqueued_at_ms : Option Number
  pub message_text : Option String
  pub reply_to_message_id : Option ℕ
