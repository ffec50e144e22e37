-- ===== src/Gateway/Served.antt =====
-- The webhook and the polling loop: apps/gateway/src/server.ts, packages/common/src/telegram-webhook-auth.ts.
use groceryclaw.Gateway.Update.{validate_telegram_update}
use groceryclaw.Jobs.{Number}
use groceryclaw.Gateway.Once.Handled.{handle_telegram_update-IsOnce}
use groceryclaw.Gateway.Once.{KeepsEvents, IsOnce, jobs}
use groceryclaw.Gateway.Linked.{Call, State}
use groceryclaw.Gateway.Handle.{Accounts, Config, Stage, handle_telegram_update}
use groceryclaw.Gateway.{Platform, Json, invalid, valid}
use groceryclaw.Inbound.{Attempt, got, error_of}
use groceryclaw.Gateway.Server.{
  invalid_secret_token, server_error, verify_telegram_webhook, poll, webhook, Server, authorized,
  post_update, poll_update, Request, missing_secret_token, fits_body, threw_range, next_offset,
  answer,
}
use groceryclaw.Base.{
  ◌≤◌, ◌⊎◌, String, Bool, true, List, [], ◌∷◌, Option, some, ◌≡◌, refl, ◌≢◌, inl, inr, arith, ◌∙◌,
  ap, str_eq_iff, All,
}

module _ (pf : Platform) (acc : Accounts) (cfg : Config) where
  module _ (t m : String) (keeps : KeepsEvents acc) where
    poll_update-IsOnce :
        (c : Call) (raw : Json) (st : State)
        → IsOnce t m st
        → IsOnce t m (poll_update pf acc cfg c raw st)
    unfolding poll_update
    poll_update-IsOnce c raw st h =
        (elim (validate_telegram_update pf raw)
            as (λ v.
              validate_telegram_update pf raw ≡ v → IsOnce t m (poll_update pf acc cfg c raw st)) [
                | invalid reason ↦ λ e. rw (e, poll_update) h
                | valid u ↦ λ e.
                    rw (e, poll_update)
                      (handle_telegram_update-IsOnce t m pf acc cfg keeps c u st h)
              ])
          refl

    poll-IsOnce :
        (us : List (Call × Json)) (offset : Option Number) (st : State)
        → IsOnce t m st
        → IsOnce t m (poll pf acc cfg us (offset, st)).1
    unfolding poll
    poll-IsOnce [] offset st h = h
    poll-IsOnce ((c, raw) ∷ us) offset st h =
        poll-IsOnce us (next_offset pf acc cfg raw offset) (poll_update pf acc cfg c raw st)
          (poll_update-IsOnce c raw st h)

    -- Of a message of a shop at most one job is queued, whatever updates come, in whatever order and however
    -- often each, and however the queue, the clock and the limits are: this is of a state that has no more
    -- such jobs than rows of inbound_events for the message and at most one of these, if the database's
    -- functions for invitations leave that table alone.
    pub queued_once :
        (us : List (Call × Json)) (offset : Option Number) (st : State)
        → IsOnce t m st
        → jobs t m (poll pf acc cfg us (offset, st)).1 ≤ 1
    queued_once us offset st h =
        let (less, one) = poll-IsOnce us offset st h in omega (arith, less, one)

  module _ (includes_json : String → Bool) where
    -- The webhook gets to read the request.
    abbrev pub IsPost : Call × (Request × Json) → Type 0
    IsPost (c, (r, raw)) =
        (verify_telegram_webhook pf cfg.webhook_secret r.secret_token ≡ authorized)
        × ((fits_body cfg.max_body_bytes 0 r.chunks ≡ true) × (pf.parse_json r.body ≡ some raw))

    answer-state :
        (sv : Server) (r : State × Attempt Stage)
        → (answer pf acc cfg includes_json sv r).0.state ≡ r.0
    unfolding server_error
    answer-state sv (st, got stage) = refl
    answer-state sv (st, error_of why) = ground arith

    webhook-poll_update :
        (c : Call) (r : Request) (raw : Json) (sv : Server)
        → IsPost (c, (r, raw))
        → (webhook pf acc cfg includes_json c r sv).0.state ≡ poll_update pf acc cfg c raw sv.state
    unfolding webhook post_update poll_update
    webhook-poll_update c r raw sv (fine, (fits, parsed)) =
        (elim (validate_telegram_update pf raw)
            as (λ v.
              validate_telegram_update pf raw ≡ v
              → (webhook pf acc cfg includes_json c r sv).0.state
                ≡ poll_update pf acc cfg c raw sv.state) [
                  | invalid reason ↦
                      λ e. rw (fine, webhook, fits, parsed, post_update, e, poll_update) refl
                  | valid u ↦ λ e.
                      rw (fine, webhook, fits, parsed, post_update, e, poll_update)
                        (answer-state sv (handle_telegram_update pf acc cfg c u sv.state))
                ])
          refl

    abbrev pub post_all : List (Call × (Request × Json)) → Server → Server
    post_all [] sv = sv
    post_all ((c, (r, raw)) ∷ us) sv = post_all us (webhook pf acc cfg includes_json c r sv).0

    abbrev pub raws : List (Call × (Request × Json)) → List (Call × Json)
    raws [] = []
    raws ((c, (r, raw)) ∷ us) = (c, raw) ∷ raws us

    -- Webhook and polling do the same: requests that the webhook gets to read leave the database, the queue,
    -- the caches and the limiters as the polling loop does that receives their updates in the same order.
    pub webhook-poll :
        (us : List (Call × (Request × Json))) (offset : Option Number) (sv : Server)
        → All IsPost us
        → (post_all us sv).state ≡ (poll pf acc cfg (raws us) (offset, sv.state)).1
    unfolding poll
    webhook-poll [] offset sv h = refl
    webhook-poll ((c, (r, raw)) ∷ us) offset sv h =
        let step = webhook-poll_update c r raw sv h.0 in
        let rest =
          webhook-poll us (next_offset pf acc cfg raw offset)
            (webhook pf acc cfg includes_json c r sv).0 h.1 in
        rest ∙ ap (λ s. (poll pf acc cfg (raws us) (next_offset pf acc cfg raw offset, s)).1) step

    verify-authorized :
        (expected received : String)
        → expected ≢ ""
        → received ≢ expected
        → verify_telegram_webhook pf expected received ≢ authorized
    unfolding verify_telegram_webhook
    verify-authorized expected received set differs e =
        ground (arith, e, set, differs, str_eq_iff expected "", str_eq_iff expected received)

    -- A request whose secret is not the one that is configured changes neither the database nor the queue,
    -- the caches or the limiters, and is answered by 401, 403 or 500.
    pub webhook_refuses :
        (c : Call) (r : Request) (sv : Server)
        → cfg.webhook_secret ≢ ""
        → r.secret_token ≢ cfg.webhook_secret
        → ((webhook pf acc cfg includes_json c r sv).0.state ≡ sv.state)
          × (((webhook pf acc cfg includes_json c r sv).1 ≡ 401)
              ⊎ (((webhook pf acc cfg includes_json c r sv).1 ≡ 403)
                  ⊎ ((webhook pf acc cfg includes_json c r sv).1 ≡ 500)))
    unfolding webhook server_error
    webhook_refuses c r sv set differs =
        let refused = verify-authorized cfg.webhook_secret r.secret_token set differs in
        (elim (verify_telegram_webhook pf cfg.webhook_secret r.secret_token)
            as (λ v.
              verify_telegram_webhook pf cfg.webhook_secret r.secret_token ≡ v
              → ((webhook pf acc cfg includes_json c r sv).0.state ≡ sv.state)
                × (((webhook pf acc cfg includes_json c r sv).1 ≡ 401)
                    ⊎ (((webhook pf acc cfg includes_json c r sv).1 ≡ 403)
                        ⊎ ((webhook pf acc cfg includes_json c r sv).1 ≡ 500)))) [
                          | authorized ↦ λ e. absurd (refused e)
                          | missing_secret_token ↦ λ e. rw (e, webhook) (refl, inl refl)
                          | invalid_secret_token ↦ λ e. rw (e, webhook) (refl, inr (inl refl))
                          | threw_range ↦ λ e. rw (e, webhook) (refl, inr (inr refl))
                        ])
          refl
