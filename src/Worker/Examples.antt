-- ===== src/Worker/Examples.antt =====
-- A notification that Telegram refuses for now, at its last attempt, and a job about the lines of an invoice.
use groceryclaw.Queue.Attempts.{IsTriedAgain}
use groceryclaw.Worker.Retried.{run_job-retriable}
use groceryclaw.Base.Assoc.{lookup}
use groceryclaw.Limits.Bucket.{consume}
use groceryclaw.Limits.Notifier.{consume_message, consume_tenant}
use groceryclaw.Worker.Checked.{handle_envelope-lines}
use groceryclaw.Sync.{Platform, absent, refused, created}
use groceryclaw.Inbound.{Env, got, error_of}
use groceryclaw.Jobs.{
  Payload, WorkerJobEnvelope, scalar, notify_user, str, whole, null_value, missing, job_type_of,
  job_type_name, map_resolve,
}
use groceryclaw.Jobs.Valid.{
  validate, read_header, read_ids, nullable, as_non_empty_string, is_acceptable, is_notification,
  has_ids, envelope_of,
}
use groceryclaw.Queue.{StoredJob, after_run, done}
use groceryclaw.Notify.Send.{
  World, retryable, process_notify_user_job, notify_for, notify, is_closed, send_notification,
  send_rendered, after_sending, rendered_text,
}
use groceryclaw.Notify.{NotifierSettings}
use groceryclaw.Worker.{Handlers, WorkerState, handle_envelope, nothing, handle_as, run_job}
use groceryclaw.Mapping.{Services}
use groceryclaw.Base.{
  ◌≤◌, ◌<◌, ◌⊎◌, true, false, [], ◌∷◌, none, some, ◌≡◌, refl, inl, if◌then◌else◌, ◌==◌, str_eq,
  length,
}

abbrev inbound_env : Env
inbound_env = record {
  xml_parse_enabled = true;
  fetch_xml = (λ url. got "<xml>");
  parse_invoice_xml = (λ xml. error_of "no invoice");
  invoice_fingerprint = (λ tenant invoice. "f");
  new_id = "v";
}

abbrev services : Services
services = record {
  trim = (λ s. s);
  lower = (λ s. s);
  upper = (λ s. s);
  decimal = (λ n. if n == 7 then "7" else "0");
  message_id = (λ n. "7");
  row_id = (λ n. "q");
  expires_at = 100;
  mapping_enabled = true;
  miniapp = false;
  search_candidates = (λ products lines. ("MILK", "Milk") ∷ []);
  ai = some (λ names catalog.
      record {
        invoice_product = "milk";
        matched_code = some "MILK";
        matched_name = some "Milk";
        confidence = 55;
      }
      ∷ []);
}

abbrev slow_shop : Platform
slow_shop = record {
  sync_enabled = true;
  max_retries = 3;
  has_mek = true;
  retailer = "shop";
  trim = (λ s. s);
  text_length = (λ s. 12);
  secret = (λ s. absent);
  exchange = (λ i s. some ("a token", none));
  create_purchase_order = (λ n o. if n == 0 then refused "kv_timeout" else created "PN1");
  queue_error = (λ n. none);
  has_pool = true;
  redact_error = (λ s. s);
}

abbrev settings : NotifierSettings
settings = record {
  enabled = true;
  interaction_window_enforced = true;
  flush_enabled = true;
  dlq_enabled = true;
  interaction_window_seconds = 86400;
  pending_ttl_seconds = 604800;
  max_pending_per_user = 2;
  flush_batch_size = 20;
  flush_max_per_run = 50;
  flush_per_minute = 60;
  limits = record {
    enabled = true;
    global_per_minute = 120;
    per_tenant_per_minute = 30;
    per_user_burst = 5;
  };
  retry_base_ms = 500;
  retry_max_ms = 10000;
}

abbrev world : World
world = record {
  row_id = (λ n. if n == 0 then "n0" else "n1");
  interaction_age_seconds = (λ u. 10);
  render = (λ p. rendered_text p.notification_type);
  char_sum = (λ s. 7);
  chat_of_user = (λ u. some (whole 5));
  number_of = (λ s. whole 0);
  send_text = (λ n chat text. retryable "tg_429" none);
}

abbrev handlers : Handlers
handlers = record {
  trim = (λ s. s);
  env = inbound_env;
  services = services;
  platform = slow_shop;
  settings = settings;
  world = world;
  other_handler = (λ job. none);
  dlq_enabled = true;
}

abbrev idle : WorkerState
idle = record {
  inbound = record { events = []; invoices = []; items = []; jobs = []; queue = [] };
  lines = record {
    lines = [];
    items = [];
    questions = [];
    aliases = [];
    products = [];
    queue = [];
    sent = 0;
  };
  sync = record {
    rows = [];
    keys = [];
    results = [];
    token_cache = none;
    orders = [];
    calls = 0;
    queue = [];
  };
  notes = record {
    pending = [];
    next_id = 0;
    jobs = [];
    limiters = record { globals = []; tenants = []; users = [] };
    flush_buckets = [];
    sends = [];
  };
  dead_letters = [];
}

abbrev notice_payload : Payload
notice_payload = record {
  job_type = scalar (str "NOTIFY_USER");
  tenant_id = scalar (str "t");
  inbound_event_id = null_value;
  platform_user_id = scalar (str "u");
  message_id = scalar (str "m");
  correlation_id = scalar (str "c");
  user_id = missing;
  telegram_chat_id = missing;
  file_id = missing;
  canonical_invoice_id = missing;
  notification_type = scalar (str "PROCESSING_FAILED");
  template_vars = missing;
  enqueued_at_ms = missing;
  message_text = missing;
  reply_to_message_id = missing;
}

abbrev lines_payload : Payload
lines_payload = record notice_payload {
  job_type = scalar (str "MAP_RESOLVE");
  canonical_invoice_id = scalar (str "v");
  notification_type = missing;
}

abbrev notice_envelope : WorkerJobEnvelope
notice_envelope = record {
  job_type = notify_user;
  tenant_id = some "t";
  inbound_event_id = none;
  platform_user_id = "u";
  message_id = "m";
  correlation_id = "c";
  user_id = none;
  telegram_chat_id = none;
  file_id = none;
  canonical_invoice_id = none;
  notification_type = some "PROCESSING_FAILED";
  template_vars = none;
  enqueued_at_ms = none;
  message_text = none;
  reply_to_message_id = none;
}

abbrev last_try : StoredJob
last_try = record {
  id = "j";
  name = "NOTIFY_USER";
  data_text = "";
  attempts_made = 3;
  attempts = 4;
  backoff = none;
}

handle_envelope-lines_example :
    (handle_envelope handlers 1000 (some lines_payload) idle).1 ≡ nothing
unfolding validate read_header read_ids nullable as_non_empty_string is_acceptable is_notification
    has_ids envelope_of job_type_of job_type_name str_eq
handle_envelope-lines_example =
    handle_envelope-lines handlers 1000 (some lines_payload)
      (record notice_envelope {
        job_type = map_resolve;
        canonical_invoice_id = some "v";
        notification_type = none;
      })
      idle refl (inl refl)

run_job-retriable_example :
    ((4 < 4)
      × (IsTriedAgain last_try
            (after_run 1000 last_try (run_job handlers 1000 (some notice_payload) 3 4 idle).0)
          × ((run_job handlers 1000 (some notice_payload) 3 4 idle).1.dead_letters ≡ [])))
    ⊎ ((4 ≤ 4)
        × ((after_run 1000 last_try (run_job handlers 1000 (some notice_payload) 3 4 idle).0 ≡ done)
            × (length (run_job handlers 1000 (some notice_payload) 3 4 idle).1.dead_letters ≡ 1)))
unfolding validate read_header read_ids nullable as_non_empty_string is_acceptable is_notification
    has_ids envelope_of job_type_of job_type_name str_eq handle_envelope handle_as
    process_notify_user_job notify_for notify is_closed send_notification send_rendered
    after_sending consume_message consume consume_tenant lookup
run_job-retriable_example =
    run_job-retriable handlers 1000 (some notice_payload) notice_envelope "tg_429" "t" last_try idle
      refl refl refl refl refl

abbrev user_payload : Payload
user_payload = record notice_payload { user_id = scalar (str "u") }

abbrev user_envelope : WorkerJobEnvelope
user_envelope = record notice_envelope { user_id = some "u" }
