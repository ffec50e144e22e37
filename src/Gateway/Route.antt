-- ===== src/Gateway/Route.antt =====
-- apps/gateway/src/server.ts, `enqueueLinkedFlow`: an answer to a question, an invoice, or a word for the chatbot.
use groceryclaw.Jobs.Again.{of_text, of_reply}
use groceryclaw.Jobs.{Payload, Value, scalar, str, missing, num}
use groceryclaw.Gateway.{MessageType, Platform, TelegramBotEvent, text_message}
use groceryclaw.Gateway.Linked.{
  enqueue, State, Db, MessageClass, Call, classify_telegram_message, insert_inbound_event,
  record_inbound_interaction, file_of, class_job, text_chat,
}
use groceryclaw.Mapping.{is_open, Question}
use groceryclaw.Inbound.{returned, threw, Outcome, truthy}
use groceryclaw.Base.{
  ℕ, String, Bool, true, false, ◌&&◌, ◌||◌, List, [], ◌∷◌, Option, none, some, if◌then◌else◌, ltb,
  str_eq, is_some, keep_if, length, ◌>>=◌, includes,
}

abbrev confirm_words : List String
confirm_words = "1" ∷ "2" ∷ "3" ∷ "dung" ∷ "đúng" ∷ "sai" ∷ "bo qua" ∷ "bỏ qua" ∷ []

abbrev pub waits_for_user : (now : ℕ) (tenant user : String) → String × Question → Bool
waits_for_user now tenant user (t, q) =
    str_eq t tenant && (str_eq q.platform_user_id user && is_open now q)

unfoldable pub pending_count : (now : ℕ) (tenant user : String) → Db → ℕ
pending_count now tenant user db = length (keep_if (waits_for_user now tenant user) db.questions)

abbrev is_text : MessageType → Bool
is_text text_message = true
is_text _ = false

-- The text that may answer a question.
abbrev pub answer_text : Platform → TelegramBotEvent → Option String
answer_text pf e = if is_text e.message_type then truthy e.message_text else none

unfoldable pub is_confirmation :
    Platform → Call → TelegramBotEvent → (tenant : String) → Db → (message : String) → Bool
is_confirmation pf c e tenant db message =
    (includes confirm_words (pf.lower (pf.trim message)) || is_some e.reply_to_message_id)
    && ltb 0 (pending_count c.now tenant (pf.decimal e.user_id) db)

-- The fields that all jobs of a linked user have.
abbrev pub linked_job :
    Platform
    → Call
    → TelegramBotEvent
    → (tenant event_id : String) (user : Option String)
    → (name : String) (file message reply : Value) → Payload
linked_job pf c e tenant event_id user name file message reply = record {
  job_type = scalar (str name);
  tenant_id = scalar (str tenant);
  inbound_event_id = scalar (str event_id);
  platform_user_id = scalar (str (pf.decimal e.user_id));
  message_id = scalar (str (pf.decimal e.message_id));
  correlation_id = scalar (str c.request_id);
  user_id = of_text user;
  telegram_chat_id = scalar (num e.chat_id);
  file_id = file;
  canonical_invoice_id = missing;
  notification_type = missing;
  template_vars = missing;
  enqueued_at_ms = missing;
  message_text = message;
  reply_to_message_id = reply;
}

abbrev pub chat_text : MessageClass → Option String → Value
chat_text text_chat t = of_text (truthy t)
chat_text _ t = missing

-- The job of a message that is stored for the first time; `none` is the exception of a photo list that ends
-- in null.
unfoldable pub job_of :
    Platform
    → Call
    → TelegramBotEvent
    → (tenant event_id : String) (user : Option String) → Db
    → Option Payload
job_of pf c e tenant event_id user db =
    let job = linked_job pf c e tenant event_id user in
    let class = classify_telegram_message pf e in
    let other = file_of e.document e.photo >>= λ file.
    some (job (class_job class) file (chat_text class e.message_text) missing) in
    elim (answer_text pf e) [
      | none ↦ other
      | some message ↦
          if is_confirmation pf c e tenant db message
          then some (
              job "CONFIRM_MAPPING" missing (scalar (str message)) (of_reply e.reply_to_message_id))
          else other
    ]

unfoldable pub queue_job : Call → Option Payload → State → State × Outcome
queue_job c none st = (st, threw "Cannot read properties of null (reading 'file_id')")
queue_job c (some p) st = enqueue c p st

-- What follows the insertion, which gives the identifier of the new row, or none if the message was stored
-- before. The statements are committed each by itself.
unfoldable pub after_insertion :
    Platform
    → Call
    → TelegramBotEvent
    → (tenant : String) → Db × Option String
    → State
    → State × Outcome
after_insertion pf c e tenant (db, inserted) st =
    let seen = record_inbound_interaction c tenant (pf.decimal e.user_id) db in
    let st' = record st { db = seen.0 } in
    elim inserted [
      | none ↦ (st', returned)
      | some event_id ↦ queue_job c (job_of pf c e tenant event_id seen.1 seen.0) st'
    ]

unfoldable pub enqueue_linked_flow :
    Platform → Call → TelegramBotEvent → (tenant : String) → State → State × Outcome
enqueue_linked_flow pf c e tenant st =
    after_insertion pf c e tenant (insert_inbound_event pf c e tenant st.db) st
