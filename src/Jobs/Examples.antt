-- ===== src/Jobs/Examples.antt =====
-- A job as it is queued, read and written again.
use groceryclaw.Jobs.{
  WorkerJobEnvelope, Payload, scalar, confirm_mapping, str, negative, null_value, whole, missing,
  num, job_type_of, job_type_name,
}
use groceryclaw.Jobs.Valid.{
  validate, read_header, read_ids, nullable, as_non_empty_string, is_acceptable, is_notification,
  has_ids, envelope_of,
}
use groceryclaw.Jobs.Again.{payload_of, validate-payload_of}
use groceryclaw.Base.{String, none, some, ◌≡◌, refl, if◌then◌else◌, str_eq}

abbrev confirm_payload : Payload
confirm_payload = record {
  job_type = scalar (str "CONFIRM_MAPPING");
  tenant_id = scalar (str "t");
  inbound_event_id = null_value;
  platform_user_id = scalar (str "u");
  message_id = scalar (str "m");
  correlation_id = scalar (str "c");
  user_id = missing;
  telegram_chat_id = scalar (num (negative 41));
  file_id = scalar (str "");
  canonical_invoice_id = scalar (str " ");
  notification_type = missing;
  template_vars = missing;
  enqueued_at_ms = scalar (num (whole 1700));
  message_text = scalar (str "1");
  reply_to_message_id = scalar (num (whole 0));
}

abbrev blank_is_empty : String → String
blank_is_empty s = if str_eq s " " then "" else s

abbrev confirm_envelope : WorkerJobEnvelope
confirm_envelope = record {
  job_type = confirm_mapping;
  tenant_id = some "t";
  inbound_event_id = none;
  platform_user_id = "u";
  message_id = "m";
  correlation_id = "c";
  user_id = none;
  telegram_chat_id = some (negative 41);
  file_id = none;
  canonical_invoice_id = none;
  notification_type = none;
  template_vars = none;
  enqueued_at_ms = some (whole 1700);
  message_text = some "1";
  reply_to_message_id = none;
}

validate-payload_of_example :
    validate blank_is_empty (some (payload_of confirm_envelope)) ≡ some confirm_envelope
unfolding validate read_header read_ids nullable as_non_empty_string is_acceptable is_notification
    has_ids envelope_of job_type_of job_type_name str_eq
validate-payload_of_example =
    validate-payload_of blank_is_empty (some confirm_payload) confirm_envelope refl
