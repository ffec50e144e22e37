-- ===== src/Mapping/Answer.antt =====
-- apps/worker/src/process-confirm-mapping.ts: a user's answer to a question about a line. A row of the
-- queries is read as it is stored: their texts joined by `|` are not modelled. Texts of notices and the
-- audit log are left out.
use groceryclaw.Jobs.{WorkerJobEnvelope}
use groceryclaw.Mapping.{
  Question, Outgoing, Tables, ItemStatus, Services, is_open, is_item_pending, QuestionStatus,
  is_q_pending, chatbot_turn, ResolvedItem, notice, learn, chat_of, number_eq, is_item_resolved,
  update_item, item_unresolved, decide, q_expired, item_resolved, kiotviet_sync_of, q_rejected,
  q_confirmed, item_skipped, q_skipped,
}
use groceryclaw.Base.{
  ℕ, String, Bool, ◌&&◌, List, [], ◌∷◌, ◌++◌, map, Option, none, some, if◌then◌else◌, leb, ltb,
  ◌==◌, str_eq, any, find, keep_if, length, ◌>>=◌, includes, get_or_else,
}

pub data Answer : Type 0 where
  confirm reject skip other_text : Answer

-- The words that are an answer; `text` is trimmed and in lower case.
unfoldable pub answer_of : (text : String) → Answer
answer_of text =
    if includes ("1" ∷ "dung" ∷ "đúng" ∷ []) text
    then confirm
    else if includes ("2" ∷ "sai" ∷ []) text
    then reject
    else if includes ("3" ∷ "bo qua" ∷ "bỏ qua" ∷ []) text
    then skip
    else other_text

abbrev pub push : Outgoing → Tables → Tables
push o t = record t { queue = t.queue ++ o ∷ [] }

abbrev pub count_items : (ItemStatus → Bool) → (invoice : String) → List ResolvedItem → ℕ
count_items p invoice items =
    length (keep_if (λ x. str_eq x.invoice_id invoice && p x.item_status) items)

-- The question that the message replies to, if it is open.
unfoldable pub replied_question :
    Services → WorkerJobEnvelope → (now : ℕ) → List Question → Option Question
replied_question env job now qs = job.reply_to_message_id >>= λ r. chat_of job >>= λ chat.
    find
      (λ q. number_eq q.chat_id chat && (str_eq q.sent_message_id (env.decimal r) && is_open now q))
      qs

-- The open questions of the user.
unfoldable pub open_questions : WorkerJobEnvelope → (now : ℕ) → List Question → List Question
open_questions job now qs =
    keep_if (λ q. str_eq q.platform_user_id job.platform_user_id && is_open now q) qs

-- `checkRemainingAndNotify`
unfoldable pub check_remaining : Question → Tables → Tables
check_remaining q t = push notice (
    if count_items is_item_pending q.invoice_id t.items == 0
      && ltb 0 (count_items is_item_resolved q.invoice_id t.items)
    then push (kiotviet_sync_of q.invoice_id) t
    else t)

-- The line is resolved to the SKU, which is learned for its name, and the question is closed.
unfoldable pub accept : Question → (sku : String) → Tables → Tables
accept q sku t = record t {
  aliases = learn q.product_name sku 100 t.aliases;
  items =
      update_item q.item_id
        (λ x. record x {
          item_status = item_resolved;
          resolved_sku = some sku;
          unresolved_reason = none;
        })
        t.items;
  questions = decide q.id q_confirmed t.questions;
}

unfoldable pub close_without :
    Question → ItemStatus → (reason : String) → QuestionStatus → Tables → Tables
close_without q s reason qs t = record t {
  items =
      update_item q.item_id (λ x. record x { item_status = s; unresolved_reason = some reason })
        t.items;
  questions = decide q.id qs t.questions;
}

-- What an answer does to the question that was found.
unfoldable pub act : Answer → Question → Tables → Tables
act confirm q t =
    if str_eq q.suggested_sku ""
    then push notice t
    else check_remaining q (accept q q.suggested_sku t)
act reject q t = check_remaining q (close_without q item_unresolved "user_rejected" q_rejected t)
act skip q t = check_remaining q (close_without q item_skipped "user_skipped" q_skipped t)
act other_text q t = t

-- `processManualSku`; `text` is in lower case.
unfoldable pub process_manual_sku : Services → Question → (text : String) → Tables → Tables
process_manual_sku env q text t =
    let manual = env.trim (env.upper text) in
    elim (find (λ p. str_eq (env.upper p.sku) manual && p.active) t.products) [
      | none ↦ push notice t
      | some p ↦ check_remaining q (accept q p.sku t)
    ]

-- Without a reply to go by: the user's only open question.
unfoldable pub act_on_only : WorkerJobEnvelope → (now : ℕ) → Answer → Tables → Tables
act_on_only job now a t = elim (open_questions job now t.questions) [
  | [] ↦ push chatbot_turn t
  | q ∷ [] ↦ act a q t
  | q ∷ r ∷ qs ↦ push notice t
]

unfoldable pub act_on_answer :
    Services → WorkerJobEnvelope → (now : ℕ) → Answer → (text : String) → Tables → Tables
act_on_answer env job now other_text text t = elim (replied_question env job now t.questions) [
  | some q ↦ process_manual_sku env q text t
  | none ↦ push chatbot_turn t
]
act_on_answer env job now a text t = elim (replied_question env job now t.questions) [
  | some q ↦ act a q t
  | none ↦ act_on_only job now a t
]

unfoldable pub process_confirm_mapping :
    Services → WorkerJobEnvelope → (now : ℕ) → Tables → Tables × Option String
process_confirm_mapping env job now t = elim job.tenant_id [
  | none ↦ (t, some "confirm_mapping_missing_tenant")
  | some tenant ↦
      let text = env.lower (env.trim (get_or_else job.message_text "")) in
      (act_on_answer env job now (answer_of text) text t, none)
]

-- The part of apps/worker/src/notifier.ts, `processFlushPendingNotificationsJob`, that closes the questions
-- whose time is over.
abbrev pub is_over : (now : ℕ) → Question → Bool
is_over now q = is_q_pending q.question_status && leb q.expires_at now

unfoldable pub expire_questions : (now : ℕ) → Tables → Tables
expire_questions now t = record t {
  items =
      map
        (λ x.
          if is_item_pending x.item_status
            && any (λ q. is_over now q && str_eq q.item_id x.item_id) t.questions
          then record x {
            item_status = item_unresolved;
            unresolved_reason = some "confirmation_expired";
          }
          else x)
        t.items;
  questions =
      map (λ q. if is_over now q then record q { question_status = q_expired } else q) t.questions;
}
