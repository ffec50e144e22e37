-- ===== src/Sync/Examples.antt =====
-- An invoice of one resolved line: the first call of KiotViet times out, the second one makes the order.
use groceryclaw.Sync.Reports.{process_kiotviet_sync-IsReported, IsReported}
use groceryclaw.Sync.Notices.{process_kiotviet_sync-IsRefused}
use groceryclaw.Mapping.{item_resolved}
use groceryclaw.Sync.Once.{SyncSteps, orders_for_le_one, still, and_sync}
use groceryclaw.Sync.Ordered.{orders_for, IsAnswered}
use groceryclaw.Sync.{
  process_kiotviet_sync, SyncDb, Platform, readable, sync_for, refused, sync_invoice, created,
  order_now, order_with, place_order, record_order, try_orders, find_token, resolve_token,
  cached_token, exchanged, legacy_token, after_loop, process_kiotviet_sync_job, in_session, tell,
  in_transaction,
}
use groceryclaw.Jobs.{WorkerJobEnvelope, kiotviet_sync}
use groceryclaw.Inbound.Queued.{IsRefused}
use groceryclaw.Base.{
  ◌≤◌, true, [], ◌∷◌, none, some, ◌≡◌, refl, if◌then◌else◌, ◌==◌, str_eq, length, All, Bool-cases,
  inl, arith, inr,
}

abbrev slow_shop : Platform
slow_shop = record {
  sync_enabled = true;
  max_retries = 3;
  has_mek = true;
  retailer = "shop";
  trim = (λ s. s);
  text_length = (λ s. 12);
  secret =
      (λ s. readable (record { client_id = some "i"; client_secret = some "s"; token = none }));
  exchange = (λ i s. some ("a token", none));
  create_purchase_order = (λ n o. if n == 0 then refused "kv_timeout" else created "PN1");
  queue_error = (λ n. none);
  has_pool = true;
  redact_error = (λ s. s);
}

abbrev sync_job : WorkerJobEnvelope
sync_job = record {
  job_type = kiotviet_sync;
  tenant_id = some "t";
  inbound_event_id = none;
  platform_user_id = "u";
  message_id = "m";
  correlation_id = "c";
  user_id = none;
  telegram_chat_id = none;
  file_id = none;
  canonical_invoice_id = some "v";
  notification_type = none;
  template_vars = none;
  enqueued_at_ms = none;
  message_text = none;
  reply_to_message_id = none;
}

abbrev one_row : SyncDb
one_row = record {
  rows =
      record {
        invoice_id = "v";
        item_status = item_resolved;
        resolved_sku = some "MILK";
        quantity = 2;
        unit_price = 5;
      }
      ∷ [];
  keys = [];
  results = [];
  token_cache = none;
  orders = [];
  calls = 0;
  queue = [];
}

abbrev once : SyncDb
once = (process_kiotviet_sync slow_shop sync_job 1000 one_row).0

abbrev twice : SyncDb
twice = (process_kiotviet_sync_job slow_shop sync_job 2000 once).0

test_twice : (twice.calls ≡ 2) × ((length twice.orders ≡ 1) × (twice.keys ≡ "v" ∷ []))
unfolding process_kiotviet_sync_job in_session in_transaction process_kiotviet_sync sync_for
    sync_invoice order_now order_with place_order after_loop tell record_order try_orders find_token
    resolve_token cached_token exchanged legacy_token str_eq
test_twice = (refl, (refl, refl))

-- A queue that is down: the success and the failure are both on record, and are undone; KiotViet has the
-- order.
abbrev cut_off : Platform
cut_off = record slow_shop { queue_error = (λ n. some "connection lost") }

abbrev undone : SyncDb
undone = (process_kiotviet_sync_job cut_off sync_job 1000 one_row).0

test_undone : (length undone.orders ≡ 1) × ((undone.keys ≡ []) × (undone.results ≡ []))
unfolding process_kiotviet_sync_job in_session in_transaction process_kiotviet_sync sync_for
    sync_invoice order_now order_with place_order after_loop tell record_order try_orders find_token
    resolve_token cached_token exchanged legacy_token str_eq
test_undone = (refl, (refl, refl))

abbrev first_run : SyncDb
first_run = (process_kiotviet_sync_job slow_shop sync_job 1000 one_row).0

abbrev second_run : SyncDb
second_run = (process_kiotviet_sync_job slow_shop sync_job 2000 first_run).0

abbrev two_runs : SyncSteps (slow_shop ∷ slow_shop ∷ []) one_row second_run
two_runs =
    and_sync {u = first_run} (and_sync {u = one_row} (still {db = one_row}) slow_shop sync_job 1000)
      slow_shop sync_job 2000

slow_shop-IsAnswered : IsAnswered slow_shop
slow_shop-IsAnswered calls order why e = elim (Bool-cases (calls == 0)) [
  | inl first' ↦ ground (arith, e, first')
  | inr later ↦ ground (arith, e, later)
]

orders_for_le_one_example : orders_for "v" second_run.orders ≤ 1
orders_for_le_one_example =
    orders_for_le_one two_runs (slow_shop-IsAnswered, (slow_shop-IsAnswered, tt))
      ((λ n. refl), ((λ n. refl), tt)) refl "v"

process_kiotviet_sync-IsReported_example : IsReported slow_shop sync_job "v" one_row once
unfolding process_kiotviet_sync sync_for sync_invoice order_now order_with place_order after_loop
    tell record_order try_orders find_token resolve_token cached_token exchanged legacy_token str_eq
process_kiotviet_sync-IsReported_example =
    process_kiotviet_sync-IsReported slow_shop sync_job 1000 "v" one_row
      (λ n why e. ground (arith, e)) refl refl refl

process_kiotviet_sync-IsRefused_example : All (IsRefused (λ s. s)) once.queue
process_kiotviet_sync-IsRefused_example =
    process_kiotviet_sync-IsRefused (λ s. s) slow_shop sync_job 1000 one_row tt
