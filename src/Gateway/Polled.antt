-- ===== src/Gateway/Polled.antt =====
-- Updates as they come and the jobs that they become: apps/gateway/src/server.ts,
-- packages/common/src/telegram-types.ts and packages/common/src/jobs.ts together.
use groceryclaw.Gateway.Server.{poll_update, poll, next_offset}
use groceryclaw.Gateway.Queued.Handled.{handle_telegram_update-AllAccepted}
use groceryclaw.Gateway.Queued.{IsReadable}
use groceryclaw.Gateway.Handle.{Accounts, Config}
use groceryclaw.Jobs.Valid.{is_integer}
use groceryclaw.Gateway.Accepted.{IsText, IsSound, IsAccepted}
use groceryclaw.Gateway.Update.{
  validate_telegram_update, need, integer_of, object_of, positive_int_of, get, number_of,
  content_of, validate_message, validate_content,
}
use groceryclaw.Jobs.{Number}
use groceryclaw.Gateway.Linked.{Call, State}
use groceryclaw.Gateway.{TelegramBotEvent, Validated, Json, Platform, valid, invalid, Fields}
use groceryclaw.Base.{
  ℕ, String, true, List, [], ◌∷◌, Option, none, some, ◌≡◌, refl, arith, ap, subst, All,
}

need-valid {ℓ} :
    {A : Type ℓ} (o : Option A) (reason : String) (k : A → Validated) (e : TelegramBotEvent)
    → need o reason k ≡ valid e
    → (a : A) × ((o ≡ some a) × (k a ≡ valid e))
need-valid none reason k e h = absurd (ground (arith, h))
need-valid (some a) reason k e h = (a, (refl, h))

pub valid-injective : (d e : TelegramBotEvent) → valid d ≡ valid e → d ≡ e
valid-injective d e h = cc

integer_of-IsInteger : (o : Option Json) (n : Number) → integer_of o ≡ some n → is_integer n ≡ true
integer_of-IsInteger o n h = ground (arith, h)

module _ (pf : Platform) where
  validate_content-chat_id :
      (update_id message_id : ℕ) (chat_id : Number) (msg : Fields) (e : TelegramBotEvent)
      → validate_content pf update_id message_id chat_id msg ≡ valid e
      → chat_id ≡ e.chat_id
  unfolding validate_content
  validate_content-chat_id update_id message_id chat_id msg e h =
      let (sender, (_, h1)) = need-valid (object_of (get "from" msg)) _ _ e h in
      let (user_id, (_, h2)) = need-valid (positive_int_of (get "id" sender)) _ _ e h1 in
      let (date, (_, h3)) = need-valid (number_of (get "date" msg)) _ _ e h2 in
      let (content, (_, h4)) = need-valid (content_of msg) _ _ e h3 in
      ap (λ d. d.chat_id) (valid-injective _ e h4)

  validate_message-chat_id :
      (update_id : ℕ) (msg : Fields) (e : TelegramBotEvent)
      → validate_message pf update_id msg ≡ valid e
      → is_integer e.chat_id ≡ true
  unfolding validate_message
  validate_message-chat_id update_id msg e h =
      let (message_id, (_, h1)) = need-valid (positive_int_of (get "message_id" msg)) _ _ e h in
      let (chat, (_, h2)) = need-valid (object_of (get "chat" msg)) _ _ e h1 in
      let (chat_id, (read, h3)) = need-valid (integer_of (get "id" chat)) _ _ e h2 in
      subst (λ n. is_integer n ≡ true)
        (validate_content-chat_id update_id message_id chat_id msg e h3)
        (integer_of-IsInteger (get "id" chat) chat_id read)

  validate-chat_id :
      (raw : Json) (e : TelegramBotEvent)
      → validate_telegram_update pf raw ≡ valid e
      → is_integer e.chat_id ≡ true
  unfolding validate_telegram_update
  validate-chat_id raw e h =
      let (update, (_, h1)) = need-valid (object_of (some raw)) _ _ e h in
      let (update_id, (_, h2)) = need-valid (positive_int_of (get "update_id" update)) _ _ e h1 in
      let (msg, (_, h3)) = need-valid (object_of (get "message" update)) _ _ e h2 in
      validate_message-chat_id update_id msg e h3

  -- What is assumed of a call and its update.
  abbrev pub IsUsual : Call × Json → Type 0
  IsUsual (c, raw) =
      IsSound pf c
      × ((e : TelegramBotEvent) → validate_telegram_update pf raw ≡ valid e → IsReadable e)

  module _ (laws : IsText pf) (acc : Accounts) (cfg : Config) where
    poll_update-AllAccepted :
        (c : Call) (raw : Json) (st : State)
        → IsUsual (c, raw)
        → All (IsAccepted pf) st.queue
        → All (IsAccepted pf) (poll_update pf acc cfg c raw st).queue
    unfolding poll_update
    poll_update-AllAccepted c raw st usual h =
        (elim (validate_telegram_update pf raw)
            as (λ v.
              validate_telegram_update pf raw ≡ v
              → All (IsAccepted pf) (poll_update pf acc cfg c raw st).queue) [
                | invalid reason ↦ λ e. rw (e, poll_update) h
                | valid u ↦ λ e.
                    rw (e, poll_update)
                      (handle_telegram_update-AllAccepted pf laws c usual.0 u
                        (validate-chat_id raw u e) acc cfg st (usual.1 u e) h)
              ])
          refl

    -- Every job that the gateway queues passes the worker's validation, whatever updates come and on every
    -- path: the notices of onboarding, the answers to questions, invoices and chat. Assumed is that trimming a
    -- text twice is trimming it once and that neither numbers nor the names of jobs and notices are blank; of
    -- each call, that the request's identifier and the new row's are not blank and the clock is past 0; and of
    -- an update's photos, that the last one names its file by a text.
    pub poll-IsAccepted :
        (us : List (Call × Json)) (offset : Option Number) (st : State)
        → All IsUsual us
        → All (IsAccepted pf) st.queue
        → All (IsAccepted pf) (poll pf acc cfg us (offset, st)).1.queue
    unfolding poll
    poll-IsAccepted [] offset st usual h = h
    poll-IsAccepted ((c, raw) ∷ us) offset st usual h =
        poll-IsAccepted us (next_offset pf acc cfg raw offset) (poll_update pf acc cfg c raw st)
          usual.1 (poll_update-AllAccepted c raw st usual.0 h)
