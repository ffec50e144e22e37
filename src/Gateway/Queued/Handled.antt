-- ===== src/Gateway/Queued/Handled.antt =====
-- The jobs of every path of `handleTelegramUpdate` (apps/gateway/src/server.ts).
use groceryclaw.Base.{
  String, true, not, ◌||◌, Option, none, some, ◌≡◌, refl, inl, inr, Option-cases, Bool-cases, sym,
  subst, str_eq, includes,
}
use groceryclaw.Gateway.Queued.{
  AllAccepted, IsReadable, enqueue-AllAccepted, respond-AllAccepted,
  enqueue_linked_flow-AllAccepted,
}
use groceryclaw.Limits.Bucket.{consume}
use groceryclaw.Gateway.Handle.{
  Accounts, Config, handle_invite, notice, handle_linked, consume_invite_code, invite_notice,
  handle_telegram_update, handle_stranger, try_replay_cache, bad_code, linked_flow_enqueued,
  invite_rate_limited, resolve_membership, replay_deduped, invite_processed, invite_code_of,
  onboarding_prompt, prompt, trimmed,
}
use groceryclaw.Jobs.Valid.{is_integer, notification_types}
use groceryclaw.Gateway.Linked.{Call, State, enqueue, Db}
use groceryclaw.Jobs.{Number}
use groceryclaw.Gateway.Accepted.{
  IsText, IsSound, IsNonBlank, IsShop, notice-IsAccepted, trimmed-IsNonBlank,
}
use groceryclaw.Gateway.{TelegramBotEvent, Platform}
use Prim.Native.String
use groceryclaw.Base.{
  String, true, not, ◌||◌, Option, none, some, ◌≡◌, refl, inl, inr, Option-cases, Bool-cases, sym,
  subst, str_eq, includes,
}

module _ (pf : Platform) (laws : IsText pf) (c : Call) (sound : IsSound pf c) where
  module _ (e : TelegramBotEvent) (chat : is_integer e.chat_id ≡ true) where
    queue_notice-AllAccepted :
        (name : String) (tenant : Option String) (message : String) (st : State)
        → IsShop pf tenant
        → IsNonBlank pf name
        → includes notification_types name ≡ true
        → AllAccepted pf laws c sound st
        → AllAccepted pf laws c sound (enqueue c (notice pf c e name tenant message) st).0
    queue_notice-AllAccepted name tenant message st shop filled known h =
        enqueue-AllAccepted pf laws c sound _ st
          (notice-IsAccepted pf laws c sound e name tenant message shop filled known chat) h

    info-IsNonBlank : IsNonBlank pf "GENERIC_INFO"
    info-IsNonBlank = laws.notice-IsNonBlank.1.1.1.1.1.0

    trimmed-IsShop : (o : Option String) → IsShop pf (trimmed pf o)
    trimmed-IsShop o = elim (Option-cases (trimmed pf o)) [
      | inl e' ↦ subst (IsShop pf) (sym e') tt
      | inr (s, e') ↦ subst (IsShop pf) (sym e') (trimmed-IsNonBlank pf o s laws e')
    ]

    module _ (acc : Accounts) (cfg : Config) where
      consumed-IsShop :
          (user code : String) (number : Number) (db : Db)
          → IsShop pf (consume_invite_code pf acc user code number db).1
      unfolding consume_invite_code
      consumed-IsShop user code number db =
          elim (Option-cases (acc.consume_invite_code user code number db)) [
            | inl e' ↦ rw (e', consume_invite_code) tt
            | inr ((db', row), e') ↦ elim (Bool-cases row.ok) [
              | inl good ↦ rw (e', consume_invite_code, good) (trimmed-IsShop (some row.tenant_id))
              | inr bad ↦ rw (e', consume_invite_code, bad) tt
            ]
          ]

      invite_notice-AllAccepted :
          (shop : Option String) (st : State)
          → IsShop pf shop
          → AllAccepted pf laws c sound st
          → AllAccepted pf laws c sound (enqueue c (invite_notice pf c e shop) st).0
      unfolding str_eq
      invite_notice-AllAccepted none st fine h =
          queue_notice-AllAccepted "GENERIC_INFO" none bad_code st fine info-IsNonBlank refl h
      invite_notice-AllAccepted (some shop) st fine h =
          queue_notice-AllAccepted "WELCOME_LINKED" (some shop) "" st fine laws.notice-IsNonBlank.0
            refl h

      handle_invite-AllAccepted :
          (code : String) (st : State)
          → AllAccepted pf laws c sound st
          → AllAccepted pf laws c sound (handle_invite pf acc cfg c e code st).0
      unfolding handle_invite str_eq
      handle_invite-AllAccepted code st h =
          let user = pf.decimal e.user_id in
          let rate = cfg.invite_user_rate_per_minute in
          let ip_rate = cfg.invite_ip_rate_per_minute in
          let by_user =
            consume rate rate c.now (String.◌++◌ "invite:user:" user) 1 st.invite_by_user in
          let by_ip =
            consume ip_rate ip_rate c.now (String.◌++◌ "invite:ip:" user) 1 st.invite_by_ip in
          elim (Bool-cases (not by_user.1.allowed || not by_ip.1.allowed)) [
            | inl refused ↦
                rw (refused, handle_invite)
                  (respond-AllAccepted pf laws c sound invite_rate_limited _ (
                    queue_notice-AllAccepted "RATE_LIMITED" none "" _ tt
                      laws.notice-IsNonBlank.1.1.1.1.0 refl h))
            | inr granted ↦
                rw (granted, handle_invite)
                  (respond-AllAccepted pf laws c sound invite_processed _
                    (invite_notice-AllAccepted _ _ (consumed-IsShop user code e.chat_id st.db) h))
          ]

      handle_linked-AllAccepted :
          (tenant : String) (st : State)
          → IsNonBlank pf tenant
          → IsReadable e
          → AllAccepted pf laws c sound st
          → AllAccepted pf laws c sound (handle_linked pf acc cfg c e tenant st).0
      unfolding handle_linked
      handle_linked-AllAccepted tenant st shop readable h =
          elim (Bool-cases
            (try_replay_cache pf cfg c (some tenant) (pf.decimal e.message_id) st.replay_cache).1) [
              | inl new ↦
                  rw (new, handle_linked)
                    (respond-AllAccepted pf laws c sound linked_flow_enqueued _ (
                      enqueue_linked_flow-AllAccepted pf laws c sound e chat tenant _ shop readable
                        h))
              | inr old ↦
                  rw (old, handle_linked) (respond-AllAccepted pf laws c sound replay_deduped _ h)
            ]

      pub handle_telegram_update-AllAccepted :
          (st : State)
          → IsReadable e
          → AllAccepted pf laws c sound st
          → AllAccepted pf laws c sound (handle_telegram_update pf acc cfg c e st).0
      unfolding handle_telegram_update handle_stranger resolve_membership str_eq
      handle_telegram_update-AllAccepted st readable h =
          elim (Option-cases (resolve_membership pf acc (pf.decimal e.user_id) st.db)) [
            | inr (tenant, e') ↦
                rw (e', handle_telegram_update)
                  (handle_linked-AllAccepted tenant st (trimmed-IsNonBlank pf _ tenant laws e')
                    readable h)
            | inl stranger ↦ elim (Option-cases (invite_code_of pf acc cfg e)) [
              | inr (code, e') ↦
                  rw (stranger, handle_telegram_update, e', handle_stranger)
                    (handle_invite-AllAccepted code st h)
              | inl none' ↦
                  rw (stranger, handle_telegram_update, none', handle_stranger)
                    (respond-AllAccepted pf laws c sound onboarding_prompt _ (
                      queue_notice-AllAccepted "GENERIC_INFO" none prompt st tt info-IsNonBlank refl
                        h))
            ]
          ]
