-- ===== src/Gateway/Examples.antt =====
-- A shop's message that the gateway gets, twice, by the webhook, and with a queue that is down.
use groceryclaw.Gateway.Route.{
  enqueue_linked_flow, after_insertion, job_of, is_confirmation, pending_count, queue_job,
}
use groceryclaw.Gateway.Lost.{failed_update_is_lost, remembered}
use groceryclaw.Inbound.{error_of}
use groceryclaw.Base.Assoc.{lookup, insert}
use groceryclaw.Jobs.Valid.{is_file_id}
use groceryclaw.Gateway.Served.{webhook_refuses, queued_once, post_all, raws, webhook-poll}
use groceryclaw.Gateway.{
  Json, TelegramBotEvent, Platform, object_json, field, text_message, number_json, no_fields,
  text_json, valid,
}
use groceryclaw.Gateway.Accepted.{IsText, IsAccepted, IsSound}
use groceryclaw.Gateway.Handle.{
  resolve_membership, Accounts, Config, try_replay_cache, handle_telegram_update, handle_linked,
  respond_accepted,
}
use groceryclaw.Jobs.{job_type_name, JobType, whole, missing}
use groceryclaw.Gateway.Once.{KeepsEvents, jobs}
use groceryclaw.Gateway.Linked.{
  Call, State, file_of, insert_inbound_event, new_row, record_inbound_interaction, find_user,
  enqueue, classify_telegram_message, is_event,
}
use groceryclaw.Gateway.Server.{
  webhook, Server, verify_telegram_webhook, Request, poll, poll_update, fits_body,
}
use groceryclaw.Gateway.Polled.{IsUsual, poll-IsAccepted, valid-injective}
use groceryclaw.Gateway.Update.{
  validate_telegram_update, validate_message, validate_content, get, content_of, reply_of,
  display_name,
}
use mathlib.Core.Option.{some-injective}
use groceryclaw.Base.{
  ◌≤◌, ◌⊎◌, String, true, false, List, [], ◌∷◌, none, some, ◌≡◌, refl, inl, inr, if◌then◌else◌,
  Bool-cases, arith, ◌==◌, sym, ◌∙◌, ap, subst, str_eq, All, ne_of_test, any,
}

abbrev raw_update : Json
raw_update = object_json (
    field "update_id" (number_json (whole 5)) (
      field "message"
        (object_json (
          field "message_id" (number_json (whole 7)) (
            field "chat" (object_json (field "id" (number_json (whole 42)) no_fields)) (
              field "from" (object_json (field "id" (number_json (whole 42)) no_fields)) (
                field "date" (number_json (whole 1700))
                  (field "text" (text_json "milk?") no_fields))))))
        no_fields))

abbrev platform : Platform
platform = record {
  trim = (λ s. s);
  lower = (λ s. s);
  upper = (λ s. s);
  one_space = (λ s. s);
  ends_with = (λ s t. false);
  decimal = (λ n. if n == 7 then "7" else "42");
  utf16_length = (λ s. if str_eq s "sesame" then 6 else 0);
  utf8_length = (λ s. if str_eq s "sesame" then 6 else 0);
  invite_prefixed = (λ s. none);
  invite_bare = (λ s. none);
  parse_json = (λ s. some raw_update);
}

abbrev event : TelegramBotEvent
event = record {
  update_id = 5;
  message_id = 7;
  chat_id = whole 42;
  user_id = 42;
  user_display_name = "user_42";
  message_type = text_message;
  message_text = some "milk?";
  document = none;
  photo = none;
  caption = none;
  timestamp = whole 1700;
  reply_to_message_id = none;
}

abbrev accounts : Accounts
accounts = record {
  resolve_membership_by_platform_user_id =
      (λ user db. if str_eq user "42" then some "shop" else none);
  consume_invite_code = (λ user code chat db. some (db, record { ok = false; tenant_id = "" }));
}

accounts-KeepsEvents : KeepsEvents accounts
accounts-KeepsEvents user code chat db r e = ap (λ x. x.0.events) (sym (some-injective _ r e))

abbrev config : Config
config = record {
  onboarding_enabled = true;
  invite_user_rate_per_minute = 10;
  invite_ip_rate_per_minute = 20;
  replay_cache_ttl_seconds = 86400;
  webhook_secret = "sesame";
  max_body_bytes = 100;
}

abbrev working : Call
working = record { now = 1000; request_id = "r"; new_id = "id"; queue_error = none }

abbrev broken : Call
broken = record {
  now = 1000;
  request_id = "r";
  new_id = "id";
  queue_error = some "connection lost";
}

abbrev start : State
start = record {
  db = record { users = []; events = []; questions = [] };
  replay_cache = [];
  invite_by_user = [];
  invite_by_ip = [];
  queue = [];
  accepted = 0;
}

abbrev twice : List (Call × Json)
twice = (working, raw_update) ∷ (working, raw_update) ∷ []

queued_once_example : jobs "shop" "7" (poll platform accounts config twice (none, start)).1 ≤ 1
queued_once_example =
    queued_once platform accounts config "shop" "7" accounts-KeepsEvents twice none start
      (omega arith, omega arith)

-- The message is queued, once.
queued_twice_is_once : jobs "shop" "7" (poll platform accounts config twice (none, start)).1 ≡ 1
unfolding poll poll_update validate_telegram_update validate_message validate_content get content_of
    reply_of display_name handle_telegram_update resolve_membership handle_linked try_replay_cache
    enqueue_linked_flow after_insertion insert_inbound_event new_row record_inbound_interaction
    find_user job_of is_confirmation pending_count queue_job enqueue respond_accepted lookup insert
    str_eq classify_telegram_message
queued_twice_is_once = refl

failed_update_is_lost_example :
    ((w : String) × ((handle_telegram_update platform accounts config broken event start).1
        ≡ error_of w))
    × (any
          (is_event "shop" (platform.decimal event.message_id))
          (handle_telegram_update platform accounts config broken event start).0.db.events
        ≡ true)
    × ((handle_telegram_update platform accounts config broken event start).0.replay_cache
        ≡ remembered platform accounts config broken event "shop" start)
    × ((handle_telegram_update platform accounts config working event
          (handle_telegram_update platform accounts config broken event start).0).0.queue
        ≡ [])
unfolding resolve_membership str_eq try_replay_cache lookup
failed_update_is_lost_example =
    failed_update_is_lost platform accounts config broken working event "shop" start
      "connection lost" refl refl refl refl refl

abbrev request : Request
request = record { secret_token = "sesame"; chunks = 40 ∷ 60 ∷ []; body = "{}" }

abbrev server : Server
server = record { state = start; auth_failures = 0; server_errors = 0 }

abbrev posts : List (Call × (Request × Json))
posts = (working, (request, raw_update)) ∷ (broken, (request, raw_update)) ∷ []

webhook-poll_example :
    (post_all platform accounts config (λ s. false) posts server).state
    ≡ (poll platform accounts config
        (raws platform accounts config (λ s. false) posts)
        (none, start)).1
unfolding verify_telegram_webhook fits_body str_eq
webhook-poll_example =
    webhook-poll platform accounts config (λ s. false) posts none server
      ((refl, (refl, refl)), ((refl, (refl, refl)), tt))

abbrev forged : Request
forged = record { secret_token = "open"; chunks = 40 ∷ []; body = "{}" }

webhook_refuses_example :
    ((webhook platform accounts config (λ s. false) working forged server).0.state ≡ start)
    × (((webhook platform accounts config (λ s. false) working forged server).1 ≡ 401)
        ⊎ (((webhook platform accounts config (λ s. false) working forged server).1 ≡ 403)
            ⊎ ((webhook platform accounts config (λ s. false) working forged server).1 ≡ 500)))
unfolding str_eq
webhook_refuses_example =
    webhook_refuses platform accounts config (λ s. false) working forged server
      (ne_of_test "sesame" "" refl) (ne_of_test "open" "sesame" refl)

job_names : (t : JobType) → str_eq (job_type_name t) "" ≡ false
unfolding job_type_name str_eq
job_names JobType.process_inbound_event = refl
job_names JobType.process_image_invoice = refl
job_names JobType.process_excel_invoice = refl
job_names JobType.chatbot_reply = refl
job_names JobType.notify_user = refl
job_names JobType.flush_pending_notifications = refl
job_names JobType.map_resolve = refl
job_names JobType.kiotviet_sync = refl
job_names JobType.kiotviet_product_sync = refl
job_names JobType.confirm_mapping = refl

platform-IsText : IsText platform
unfolding str_eq
platform-IsText = record {
  trim-trim = (λ s. refl);
  decimal-IsNonBlank = (λ n. elim (Bool-cases (n == 7)) [ inl e ↦ rw e refl | inr e ↦ rw e refl ]);
  job-IsNonBlank = job_names;
  notice-IsNonBlank = (refl, (refl, (refl, (refl, (refl, (refl, tt))))));
}

working-IsSound : IsSound platform working
unfolding str_eq
working-IsSound = record {
  request_id-IsNonBlank = refl;
  new_id-IsNonBlank = refl;
  now_positive = omega arith;
}

valid_event : validate_telegram_update platform raw_update ≡ valid event
unfolding validate_telegram_update validate_message validate_content get content_of reply_of
    display_name str_eq
valid_event = refl

working-IsUsual : IsUsual platform (working, raw_update)
working-IsUsual = (
  working-IsSound,
  λ e h v named.
      subst (λ w. is_file_id w ≡ true)
        (some-injective missing v (
          subst (λ d. file_of d.document d.photo ≡ some v)
            (sym (valid-injective event e (sym valid_event ∙ h))) named))
        refl,
)

poll-IsAccepted_example :
    All (IsAccepted platform) (poll platform accounts config twice (none, start)).1.queue
poll-IsAccepted_example =
    poll-IsAccepted platform platform-IsText accounts config twice none start
      (working-IsUsual, (working-IsUsual, tt)) tt
