-- ===== src/Gateway/Once/Handled.antt =====
-- One message, one job, on every path of `handleTelegramUpdate` (apps/gateway/src/server.ts).
use groceryclaw.Base.{
  String, false, not, ◌||◌, Option, none, some, ◌≡◌, refl, inl, inr, Option-cases, Bool-cases,
  arith, sym, ap, subst, any,
}
use groceryclaw.Gateway.Once.{
  IsOnce, KeepsEvents, count, added-IsOnce, queue_job-jobs, is_message_job, job_of-matches,
  queue_job-db,
}
use groceryclaw.Gateway.Stored.{insert-old, insert-new}
use groceryclaw.Limits.Bucket.{consume}
use groceryclaw.Gateway.Route.{queue_job, enqueue_linked_flow, after_insertion}
use groceryclaw.Gateway.{Platform, TelegramBotEvent}
use groceryclaw.Gateway.Handle.{
  Accounts, respond_accepted, Config, notice, Stage, handle_invite, handle_linked,
  consume_invite_code, try_replay_cache, linked_flow_enqueued, replay_deduped,
  handle_telegram_update, invite_notice, invite_rate_limited, handle_stranger, bad_code,
  invite_processed, resolve_membership, invite_code_of, onboarding_prompt, prompt,
}
use groceryclaw.Jobs.{Number}
use groceryclaw.Gateway.Linked.{
  State, is_event, Call, enqueue, Db, record_inbound_interaction, new_row,
}
use Prim.Native.String
use mathlib.Core.Option.{some-injective}
use groceryclaw.Inbound.{returned, threw, Outcome}
use groceryclaw.Base.{
  String, false, not, ◌||◌, Option, none, some, ◌≡◌, refl, inl, inr, Option-cases, Bool-cases,
  arith, sym, ap, subst, any,
}

module _ (t m : String) (pf : Platform) where
  enqueue_linked_flow-IsOnce :
      (c : Call) (e : TelegramBotEvent) (tenant : String) (st : State)
      → IsOnce t m st
      → IsOnce t m (enqueue_linked_flow pf c e tenant st).0
  unfolding record_inbound_interaction new_row enqueue_linked_flow after_insertion
  enqueue_linked_flow-IsOnce c e tenant st h =
      let Goal = λ (x : Db × Option String). IsOnce t m (after_insertion pf c e tenant x st).0 in
      elim (Bool-cases (any (is_event tenant (pf.decimal e.message_id)) st.db.events)) [
        | inl old ↦ subst Goal (sym (insert-old pf c e tenant st.db old)) h
        | inr new ↦ subst Goal (sym (insert-new pf c e tenant st.db new)) (
            added-IsOnce t m pf c tenant (pf.decimal e.message_id) st.db.events
              (new_row pf c e tenant st.db) _ _ refl refl refl new
              (λ p made yes'. job_of-matches t m pf c e tenant _ _ _ p made yes') h.0 h.1)
      ]

  notice-IsOnce :
      (c : Call) (e : TelegramBotEvent) (name : String) (tenant : Option String) (message : String)
      (st : State)
      → IsOnce t m st
      → IsOnce t m (enqueue c (notice pf c e name tenant message) st).0
  unfolding notice queue_job
  notice-IsOnce c e name tenant message st h =
      let p = notice pf c e name tenant message in
      let same = queue_job-jobs t m pf c (some p) st (λ q made.
        subst (λ x. is_message_job t m x ≡ false) (some-injective p q made) (ground arith)) in
      let same' = ap (λ d. count (is_event t m) d.events) (queue_job-db t m pf c (some p) st) in
      (ground (arith, h.0, same, same'), ground (arith, h.1, same'))

  invite_notice-IsOnce :
      (c : Call) (e : TelegramBotEvent) (shop : Option String) (st : State)
      → IsOnce t m st
      → IsOnce t m (enqueue c (invite_notice pf c e shop) st).0
  invite_notice-IsOnce c e none st h = notice-IsOnce c e "GENERIC_INFO" none bad_code st h
  invite_notice-IsOnce c e (some shop) st h = notice-IsOnce c e "WELCOME_LINKED" (some shop) "" st h

  respond_accepted-IsOnce :
      (stage : Stage) (r : State × Outcome)
      → IsOnce t m r.0
      → IsOnce t m (respond_accepted stage r).0
  unfolding respond_accepted
  respond_accepted-IsOnce stage (st, returned) h = h
  respond_accepted-IsOnce stage (st, threw why) h = h

  module _ (acc : Accounts) (cfg : Config) (keeps : KeepsEvents acc) where
    consume_invite_code-events :
        (user code : String) (chat : Number) (db : Db)
        → (consume_invite_code pf acc user code chat db).0.events ≡ db.events
    unfolding consume_invite_code
    consume_invite_code-events user code chat db =
        elim (Option-cases (acc.consume_invite_code user code chat db)) [
          | inl e ↦ rw (e, consume_invite_code) refl
          | inr (r, e) ↦ rw (e, consume_invite_code) (keeps user code chat db r e)
        ]

    handle_invite-IsOnce :
        (c : Call) (e : TelegramBotEvent) (code : String) (st : State)
        → IsOnce t m st
        → IsOnce t m (handle_invite pf acc cfg c e code st).0
    unfolding handle_invite
    handle_invite-IsOnce c e code st h =
        let user = pf.decimal e.user_id in
        let rate = cfg.invite_user_rate_per_minute in
        let ip_rate = cfg.invite_ip_rate_per_minute in
        let by_user =
          consume rate rate c.now (String.◌++◌ "invite:user:" user) 1 st.invite_by_user in
        let by_ip =
          consume ip_rate ip_rate c.now (String.◌++◌ "invite:ip:" user) 1 st.invite_by_ip in
        elim (Bool-cases (not by_user.1.allowed || not by_ip.1.allowed)) [
          | inl refused ↦
              rw (refused, handle_invite)
                (respond_accepted-IsOnce invite_rate_limited _
                  (notice-IsOnce c e "RATE_LIMITED" none "" _ h))
          | inr granted ↦
              let same =
                ap (count (is_event t m)) (consume_invite_code-events user code e.chat_id st.db) in
              rw (granted, handle_invite)
                (respond_accepted-IsOnce invite_processed _ (
                  invite_notice-IsOnce c e _ _
                    (ground (arith, h.0, same), ground (arith, h.1, same))))
        ]

    handle_linked-IsOnce :
        (c : Call) (e : TelegramBotEvent) (tenant : String) (st : State)
        → IsOnce t m st
        → IsOnce t m (handle_linked pf acc cfg c e tenant st).0
    unfolding handle_linked
    handle_linked-IsOnce c e tenant st h =
        elim (Bool-cases
          (try_replay_cache pf cfg c (some tenant) (pf.decimal e.message_id) st.replay_cache).1) [
            | inl new ↦
                rw (new, handle_linked)
                  (respond_accepted-IsOnce linked_flow_enqueued _
                    (enqueue_linked_flow-IsOnce c e tenant _ h))
            | inr old ↦ rw (old, handle_linked) (respond_accepted-IsOnce replay_deduped _ h)
          ]

    pub handle_telegram_update-IsOnce :
        (c : Call) (e : TelegramBotEvent) (st : State)
        → IsOnce t m st
        → IsOnce t m (handle_telegram_update pf acc cfg c e st).0
    unfolding handle_telegram_update handle_stranger
    handle_telegram_update-IsOnce c e st h =
        elim (Option-cases (resolve_membership pf acc (pf.decimal e.user_id) st.db)) [
          | inr (tenant, e') ↦
              rw (e', handle_telegram_update) (handle_linked-IsOnce c e tenant st h)
          | inl stranger ↦ elim (Option-cases (invite_code_of pf acc cfg e)) [
            | inr (code, e') ↦
                rw (stranger, handle_telegram_update, e', handle_stranger)
                  (handle_invite-IsOnce c e code st h)
            | inl none' ↦
                rw (stranger, handle_telegram_update, none', handle_stranger)
                  (respond_accepted-IsOnce onboarding_prompt _
                    (notice-IsOnce c e "GENERIC_INFO" none prompt st h))
          ]
        ]
