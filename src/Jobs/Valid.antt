-- ===== src/Jobs/Valid.antt =====
-- packages/common/src/jobs.ts, `validateWorkerJobEnvelope`. `trim` is the platform's.
use groceryclaw.Base.Assoc.{Assoc}
use groceryclaw.Jobs.{
  Number, JobType, Value, Payload, whole, process_inbound_event, notify_user, object, job_type_of,
  WorkerJobEnvelope, scalar, fraction, Scalar, negative, missing, process_image_invoice,
  process_excel_invoice, chatbot_reply, flush_pending_notifications, map_resolve, kiotviet_sync,
  confirm_mapping, kiotviet_product_sync, null_value, str, num,
}
use groceryclaw.Base.{
  ℕ, String, Bool, true, false, ◌&&◌, List, [], ◌∷◌, Option, none, some, if◌then◌else◌, ltb, str_eq,
  is_some, guard, ◌>>=◌, ◌>>◌, includes,
}

-- The texts that every job has.
pub record Header : Type 0 where
  pub job_type : JobType
  pub platform_user_id : String
  pub message_id : String
  pub correlation_id : String

pub record Ids : Type 0 where
  pub tenant_id : Option String
  pub inbound_event_id : Option String

abbrev pub notification_types : List String
notification_types =
    "WELCOME_LINKED" ∷ "INVOICE_PROCESSED" ∷ "NEED_MAPPING_INPUT" ∷ "PROCESSING_FAILED"
    ∷ "RATE_LIMITED" ∷ "GENERIC_INFO" ∷ []

abbrev pub is_positive : Number → Bool
is_positive (whole n) = ltb 0 n
is_positive (negative n) = false
is_positive (fraction positive s) = positive

abbrev pub is_integer : Number → Bool
is_integer (fraction positive s) = false
is_integer _ = true

abbrev pub is_positive_number : Value → Bool
is_positive_number missing = true
is_positive_number (scalar (num n)) = is_positive n
is_positive_number _ = false

abbrev pub is_chat_id : Value → Bool
is_chat_id missing = true
is_chat_id (scalar (num n)) = is_integer n
is_chat_id _ = false

abbrev pub is_file_id : Value → Bool
is_file_id missing = true
is_file_id (scalar (str s)) = true
is_file_id _ = false

-- `templateVars !== undefined && !isRecord(templateVars)` fails.
abbrev pub is_template_vars : Value → Bool
is_template_vars missing = true
is_template_vars (object f) = true
is_template_vars _ = false

-- The optional fields of the result.
abbrev pub text_field : Value → Option String
text_field (scalar (str s)) = some s
text_field _ = none

abbrev pub non_empty : Option String → Option String
non_empty none = none
non_empty (some s) = if str_eq s "" then none else some s

abbrev pub number_field : Value → Option Number
number_field (scalar (num n)) = some n
number_field _ = none

abbrev pub object_field : Value → Option (Assoc Scalar)
object_field (object f) = some f
object_field _ = none

abbrev pub reply_field : Value → Option ℕ
reply_field (scalar (num (whole n))) = if ltb 0 n then some n else none
reply_field _ = none

-- The identifiers that the handler of a job relies on.
unfoldable pub has_ids : JobType → (tenant event invoice : Bool) → Bool
has_ids process_inbound_event tenant event invoice = tenant && event
has_ids process_image_invoice tenant event invoice = tenant && event
has_ids process_excel_invoice tenant event invoice = tenant && event
has_ids chatbot_reply tenant event invoice = tenant
has_ids flush_pending_notifications tenant event invoice = tenant
has_ids map_resolve tenant event invoice = tenant && invoice
has_ids kiotviet_sync tenant event invoice = tenant && invoice
has_ids confirm_mapping tenant event invoice = tenant
has_ids notify_user tenant event invoice = true
has_ids kiotviet_product_sync tenant event invoice = true

module _ (trim : String → String) where
  unfoldable pub as_non_empty_string : Value → Option String
  as_non_empty_string (scalar (str s)) = if str_eq (trim s) "" then none else some s
  as_non_empty_string _ = none

  -- `raw === null ? null : asNonEmptyString(raw)`, where only `null` may give null.
  unfoldable pub nullable : Value → Option (Option String)
  nullable null_value = some none
  nullable v = elim (as_non_empty_string v) [ none ↦ none | some s ↦ some (some s) ]

  unfoldable pub read_header : Payload → Option Header
  read_header p = as_non_empty_string p.job_type >>= λ name.
      as_non_empty_string p.platform_user_id >>= λ user.
      as_non_empty_string p.message_id >>= λ message.
      as_non_empty_string p.correlation_id >>= λ correlation. job_type_of name >>= λ t.
      some (record {
        job_type = t;
        platform_user_id = user;
        message_id = message;
        correlation_id = correlation;
      })

  unfoldable pub read_ids : Payload → Option Ids
  read_ids p = nullable p.tenant_id >>= λ tenant. nullable p.inbound_event_id >>= λ event.
      some (record { tenant_id = tenant; inbound_event_id = event })

  unfoldable pub is_notification : JobType → Payload → Bool
  is_notification notify_user p =
      elim (as_non_empty_string p.notification_type) [
        | none ↦ false
        | some t ↦ includes notification_types t
      ]
      && is_template_vars p.template_vars
  is_notification _ p = true

  unfoldable pub is_acceptable : Header → Ids → Payload → Bool
  is_acceptable h i p =
      has_ids h.job_type (is_some i.tenant_id) (is_some i.inbound_event_id)
        (is_some (as_non_empty_string p.canonical_invoice_id))
      && (is_positive_number p.enqueued_at_ms
          && (is_notification h.job_type p
              && (is_chat_id p.telegram_chat_id && is_file_id p.file_id)))

  unfoldable pub envelope_of : Header → Ids → Payload → WorkerJobEnvelope
  envelope_of h i p = record {
    job_type = h.job_type;
    tenant_id = i.tenant_id;
    inbound_event_id = i.inbound_event_id;
    platform_user_id = h.platform_user_id;
    message_id = h.message_id;
    correlation_id = h.correlation_id;
    user_id = non_empty (text_field p.user_id);
    telegram_chat_id = number_field p.telegram_chat_id;
    file_id = non_empty (text_field p.file_id);
    canonical_invoice_id = as_non_empty_string p.canonical_invoice_id;
    notification_type = as_non_empty_string p.notification_type;
    template_vars = object_field p.template_vars;
    enqueued_at_ms = number_field p.enqueued_at_ms;
    message_text = text_field p.message_text;
    reply_to_message_id = reply_field p.reply_to_message_id;
  }

  -- `none` is `{ ok: false }`, also for an input that is no object.
  unfoldable pub validate : Option Payload → Option WorkerJobEnvelope
  validate none = none
  validate (some p) = read_header p >>= λ h.
      read_ids p >>= λ i. guard (is_acceptable h i p) >> some (envelope_of h i p)
