-- ===== src/Notify/Examples.antt =====
-- A user who has not written for a while, and a flush that the limits stop.
use groceryclaw.Base.Assoc.{lookup}
use groceryclaw.Limits.Bucket.{consume}
use groceryclaw.Limits.Notifier.{consume_message, consume_tenant}
use groceryclaw.Jobs.{WorkerJobEnvelope, notify_user, whole}
use groceryclaw.Notify.Send.{
  World, process_notify_user_job, notify_for, flush_pending, notification_of, notify, is_closed,
  sent_ok, defer_notification, flush_rows, send_notification, send_rendered, refuse_message,
  set_row, rendered_text,
}
use groceryclaw.Notify.{
  NotifyDb, NotifierSettings, defer_rows, count_rows, waits_for, coalesce, keep_newest,
}
use groceryclaw.Notify.Deferred.{is_kept, defer_rows_lem}
use groceryclaw.Base.{
  ◌≤◌, true, [], none, some, ◌≡◌, refl, if◌then◌else◌, ◌==◌, str_eq, any, length,
}

abbrev settings : NotifierSettings
settings = record {
  enabled = true;
  interaction_window_enforced = true;
  flush_enabled = true;
  dlq_enabled = true;
  interaction_window_seconds = 86400;
  pending_ttl_seconds = 604800;
  max_pending_per_user = 2;
  flush_batch_size = 20;
  flush_max_per_run = 50;
  flush_per_minute = 60;
  limits = record {
    enabled = true;
    global_per_minute = 0;
    per_tenant_per_minute = 30;
    per_user_burst = 5;
  };
  retry_base_ms = 500;
  retry_max_ms = 10000;
}

abbrev world : World
world = record {
  row_id = (λ n. if n == 0 then "n0" else "n1");
  interaction_age_seconds = (λ u. 100000);
  render = (λ p. rendered_text p.notification_type);
  char_sum = (λ s. 7);
  chat_of_user = (λ u. some (whole 5));
  number_of = (λ s. whole 0);
  send_text = (λ n chat text. sent_ok);
}

abbrev notice_job : WorkerJobEnvelope
notice_job = record {
  job_type = notify_user;
  tenant_id = some "t";
  inbound_event_id = none;
  platform_user_id = "p";
  message_id = "m";
  correlation_id = "c";
  user_id = some "u";
  telegram_chat_id = some (whole 9);
  file_id = none;
  canonical_invoice_id = none;
  notification_type = some "PROCESSING_FAILED";
  template_vars = none;
  enqueued_at_ms = none;
  message_text = none;
  reply_to_message_id = none;
}

abbrev start : NotifyDb
start = record {
  pending = [];
  next_id = 0;
  jobs = [];
  limiters = record { globals = []; tenants = []; users = [] };
  flush_buckets = [];
  sends = [];
}

abbrev waiting_notice : NotifyDb
waiting_notice = (process_notify_user_job settings world 1000 notice_job start).0

abbrev flushed : NotifyDb
flushed = (flush_pending settings world 2000 notice_job waiting_notice).0

-- The global limit refuses the message: the row stays, and a second one is made for the same notification.
test_flushed :
    (length waiting_notice.pending ≡ 1)
    × ((length flushed.pending ≡ 2) × (count_rows (waits_for "u") flushed.pending ≡ 2))
unfolding process_notify_user_job notify_for notify is_closed defer_notification defer_rows coalesce
    keep_newest count_rows flush_pending flush_rows send_notification send_rendered refuse_message
    consume_message consume consume_tenant str_eq set_row lookup
test_flushed = (refl, (refl, refl))

defer_rows_lem_example :
    (any (is_kept 2000 "n1" "u") (
        defer_rows settings 2000 "n1" "u"
          (notification_of settings world 2000 notice_job "GENERIC_INFO")
          waiting_notice.pending)
      ≡ true)
    × (count_rows (waits_for "u") (
          defer_rows settings 2000 "n1" "u"
            (notification_of settings world 2000 notice_job "GENERIC_INFO")
            waiting_notice.pending)
        ≤ 2)
defer_rows_lem_example =
    defer_rows_lem settings 2000 "n1" "u"
      (notification_of settings world 2000 notice_job "GENERIC_INFO") waiting_notice.pending
