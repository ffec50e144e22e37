-- ===== src/Gateway/Queued.antt =====
-- What the gateway queues is what the worker takes: apps/gateway/src/server.ts and packages/common/src/jobs.ts.
pub mod Handled
use groceryclaw.Base.{
  ℕ, zero, suc, ◌+◌, ◌-◌, ◌*◌, ◌/◌, ◌%◌, ◌≤◌, ◌<◌, ◌↔◌, ◌⊎◌, String, Bool, true, false, not, ◌&&◌,
  ◌||◌, List, [], ◌∷◌, ◌++◌, map, Option, none, some, ◌≡◌, refl, ◌≢◌, inl, inr, if◌then◌else◌,
  Option-cases, Bool-cases, arith, leb, ltb, ◌==◌, sym, ◌∙◌, ap, subst, str_eq, str_eq_iff,
  str_eq_refl, is_some, any, find, keep_if, length, length-append, guard, ◌>>=◌, ◌>>◌, includes,
  get_or_else, All, max, min, drop,
}
use groceryclaw.Limits.Bucket.{consume}
use groceryclaw.Jobs.Again.{of_reply}
use groceryclaw.Gateway.Route.{
  linked_job, job_of, answer_text, is_confirmation, enqueue_linked_flow, queue_job, after_insertion,
  chat_text,
}
use groceryclaw.Gateway.Stored.{accepted-queue, insert-old, insert-new}
use groceryclaw.Gateway.Handle.{
  Stage, respond_accepted, Accounts, Config, handle_invite, notice, handle_linked,
  consume_invite_code, invite_notice, handle_telegram_update, handle_stranger, try_replay_cache,
  bad_code, linked_flow_enqueued, invite_rate_limited, resolve_membership, replay_deduped,
  invite_processed, invite_code_of, onboarding_prompt, prompt, trimmed,
}
use groceryclaw.Jobs.Valid.{is_file_id, is_integer, has_ids, is_notification, notification_types}
use groceryclaw.Gateway.Linked.{
  Call, file_of, State, enqueue, MessageClass, class_job, classify_telegram_message, Db,
  excel_invoice, image_invoice, text_chat, is_event, new_row, record_inbound_interaction,
}
use groceryclaw.Jobs.{
  Value, Payload, scalar, num, whole, job_type_name, job_type_of, missing, process_excel_invoice,
  confirm_mapping, process_image_invoice, chatbot_reply, str, Number,
}
use groceryclaw.Gateway.Accepted.{
  IsText, IsSound, IsAccepted, IsNonBlank, linked_job-IsAccepted, IsShop, notice-IsAccepted,
  trimmed-IsNonBlank,
}
use groceryclaw.Gateway.{TelegramBotEvent, Platform}
use Prim.Native.String
use mathlib.Core.Option.{some-injective}
use groceryclaw.Inbound.{Outcome}
use groceryclaw.Base.{
  String, true, not, ◌||◌, [], ◌∷◌, ◌++◌, Option, none, some, ◌≡◌, refl, inl, inr, Option-cases,
  Bool-cases, arith, sym, subst, str_eq, any, ◌>>=◌, includes, All, All-append, bind-some,
}

-- The last photo of a message names its file by a text.
abbrev pub IsReadable : TelegramBotEvent → Type 0
IsReadable e = (v : Value) → file_of e.document e.photo ≡ some v → is_file_id v ≡ true

module _ (pf : Platform) (laws : IsText pf) (c : Call) (sound : IsSound pf c) where
  abbrev pub AllAccepted : State → Type 0
  AllAccepted st = All (IsAccepted pf) st.queue

  pub enqueue-AllAccepted :
      (p : Payload) (st : State)
      → IsAccepted pf (record p { enqueued_at_ms = scalar (num (whole c.now)) })
      → AllAccepted st
      → AllAccepted (enqueue c p st).0
  unfolding enqueue
  enqueue-AllAccepted p st fine h = elim (Option-cases c.queue_error) [
    | inl e ↦ rw (e, enqueue) (All-append (IsAccepted pf) st.queue _ h (fine, tt))
    | inr (why, e) ↦ rw (e, enqueue) h
  ]

  pub respond-AllAccepted :
      (stage : Stage) (r : State × Outcome)
      → AllAccepted r.0
      → AllAccepted (respond_accepted stage r).0
  respond-AllAccepted stage r h = subst (All (IsAccepted pf)) (sym (accepted-queue stage r)) h

  module _ (e : TelegramBotEvent) (chat : is_integer e.chat_id ≡ true) where
    module _ (tenant : String) (shop : IsNonBlank pf tenant) (user : Option String) where
      abbrev job : (name : String) (file message reply : Value) → Payload
      job name file message reply = linked_job pf c e tenant c.new_id user name file message reply

      abbrev IsQueueable : Payload → Type 0
      IsQueueable p = IsAccepted pf (record p { enqueued_at_ms = scalar (num (whole c.now)) })

      class_job-IsAccepted :
          (k : MessageClass) (file message reply : Value)
          → is_file_id file ≡ true
          → IsQueueable (job (class_job k) file message reply)
      unfolding job_type_name job_type_of str_eq has_ids is_notification
      class_job-IsAccepted excel_invoice file message reply fine =
          linked_job-IsAccepted pf laws c sound e tenant c.new_id user (class_job excel_invoice)
            process_excel_invoice file message reply shop sound.new_id-IsNonBlank refl refl refl
            chat fine (λ p. refl)
      class_job-IsAccepted image_invoice file message reply fine =
          linked_job-IsAccepted pf laws c sound e tenant c.new_id user (class_job image_invoice)
            process_image_invoice file message reply shop sound.new_id-IsNonBlank refl refl refl
            chat fine (λ p. refl)
      class_job-IsAccepted text_chat file message reply fine =
          linked_job-IsAccepted pf laws c sound e tenant c.new_id user (class_job text_chat)
            chatbot_reply file message reply shop sound.new_id-IsNonBlank refl refl refl chat fine
            (λ p. refl)

      confirm-IsAccepted :
          (message reply : Value) → IsQueueable (job "CONFIRM_MAPPING" missing message reply)
      unfolding job_type_name job_type_of str_eq has_ids is_notification
      confirm-IsAccepted message reply =
          linked_job-IsAccepted pf laws c sound e tenant c.new_id user "CONFIRM_MAPPING"
            confirm_mapping missing message reply shop sound.new_id-IsNonBlank refl refl refl chat
            refl (λ p. refl)

      other-IsAccepted :
          (message reply : Value) (p : Payload)
          → IsReadable e
          → (file_of e.document e.photo >>= λ file.
              some (job (class_job (classify_telegram_message pf e)) file message reply))
            ≡ some p
          → IsQueueable p
      other-IsAccepted message reply p readable made =
          let (file, (named, same)) = bind-some (file_of e.document e.photo) _ p made in
          subst IsQueueable (some-injective _ p same) (
            class_job-IsAccepted (classify_telegram_message pf e) file message reply
              (readable file named))

      job_of-IsAccepted :
          (db : Db) (p : Payload)
          → IsReadable e
          → job_of pf c e tenant c.new_id user db ≡ some p
          → IsQueueable p
      unfolding job_of
      job_of-IsAccepted db p readable made =
          let chatted = chat_text (classify_telegram_message pf e) e.message_text in
          elim (Option-cases (answer_text pf e)) [
            | inl none' ↦ other-IsAccepted chatted missing p readable (ground (arith, made, none'))
            | inr (message, e') ↦ elim (Bool-cases (is_confirmation pf c e tenant db message)) [
              | inl answers ↦
                  subst IsQueueable
                    (some-injective
                      (job "CONFIRM_MAPPING" missing (scalar (str message))
                        (of_reply e.reply_to_message_id))
                      p (ground (arith, made, e', answers)))
                    (confirm-IsAccepted _ _)
              | inr other ↦
                  other-IsAccepted chatted missing p readable (ground (arith, made, e', other))
            ]
          ]

      queue_job-AllAccepted :
          (o : Option Payload) (st : State)
          → ((p : Payload) → o ≡ some p → IsQueueable p)
          → AllAccepted st
          → AllAccepted (queue_job c o st).0
      unfolding queue_job
      queue_job-AllAccepted none st fine h = h
      queue_job-AllAccepted (some p) st fine h = enqueue-AllAccepted p st (fine p refl) h

    pub enqueue_linked_flow-AllAccepted :
        (tenant : String) (st : State)
        → IsNonBlank pf tenant
        → IsReadable e
        → AllAccepted st
        → AllAccepted (enqueue_linked_flow pf c e tenant st).0
    unfolding enqueue_linked_flow after_insertion
    enqueue_linked_flow-AllAccepted tenant st shop readable h =
        let added = record st.db { events = st.db.events ++ new_row pf c e tenant st.db ∷ [] } in
        let seen = record_inbound_interaction c tenant (pf.decimal e.user_id) added in
        let Goal = λ (x : Db × Option String). AllAccepted (after_insertion pf c e tenant x st).0 in
        elim (Bool-cases (any (is_event tenant (pf.decimal e.message_id)) st.db.events)) [
          | inl old ↦ subst Goal (sym (insert-old pf c e tenant st.db old)) h
          | inr new ↦ subst Goal (sym (insert-new pf c e tenant st.db new)) (
              queue_job-AllAccepted tenant shop seen.1 (job_of pf c e tenant c.new_id seen.1 seen.0)
                (record st { db = seen.0 })
                (λ p made. job_of-IsAccepted tenant shop seen.1 seen.0 p readable made) h)
        ]
