-- ===== src/Gateway/Lost.antt =====
-- A queue that does not take a job: apps/gateway/src/server.ts, `handleTelegramUpdate`.
use Prim.Native.String
use groceryclaw.Base.Assoc.{Assoc, insert}
use groceryclaw.Gateway.Stored.{accepted-queue, insert-old, insert-new}
use groceryclaw.Jobs.{Payload}
use groceryclaw.Gateway.Route.{queue_job, enqueue_linked_flow, after_insertion, job_of}
use groceryclaw.Gateway.Linked.{
  Call, enqueue, State, is_event, new_row, record_inbound_interaction, Db,
}
use groceryclaw.Gateway.Handle.{
  Accounts, Config, handle_linked, respond_accepted, Stage, handle_telegram_update,
  try_replay_cache, linked_flow_enqueued, resolve_membership,
}
use groceryclaw.Gateway.{Platform, TelegramBotEvent}
use groceryclaw.Inbound.{threw, Outcome, Attempt, error_of}
use groceryclaw.Base.{
  ◌+◌, ◌*◌, String, Bool, true, false, List, [], ◌∷◌, ◌++◌, Option, none, some, ◌≡◌, refl, inl, inr,
  Bool-cases, arith, sym, ◌∙◌, ap, subst, str_eq_refl, any, any-append, ℕ, get_or_else,
}

module _ (pf : Platform) (acc : Accounts) (cfg : Config) where
  abbrev handled : Call → TelegramBotEvent → State → State × Attempt Stage
  handled c e st = handle_telegram_update pf acc cfg c e st

  any-last {ℓ} :
      {A : Type ℓ} (p : A → Bool) (xs : List A) (x : A) → p x ≡ true → any p (xs ++ x ∷ []) ≡ true
  any-last p xs x h = any-append p xs (x ∷ []) ∙ ground (arith, h)

  -- A queue that refuses leaves what it was given.
  queue_job-refused :
      (c : Call) (o : Option Payload) (st : State) (why : String)
      → c.queue_error ≡ some why
      → ((queue_job c o st).0 ≡ st) × ((w : String) × ((queue_job c o st).1 ≡ threw w))
  unfolding queue_job enqueue
  queue_job-refused c none st why h = (refl, (_, refl))
  queue_job-refused c (some p) st why h = rw h (refl, (why, refl))

  -- A message that was stored before is not queued.
  linked-stored :
      (c : Call) (e : TelegramBotEvent) (tenant : String) (st : State)
      → any (is_event tenant (pf.decimal e.message_id)) st.db.events ≡ true
      → (handle_linked pf acc cfg c e tenant st).0.queue ≡ st.queue
  unfolding handle_linked enqueue_linked_flow after_insertion respond_accepted
  linked-stored c e tenant st old =
      let tried =
        try_replay_cache pf cfg c (some tenant) (pf.decimal e.message_id) st.replay_cache in
      elim (Bool-cases tried.1) [
        | inr deduped ↦ rw (deduped, handle_linked) refl
        | inl new ↦
            rw (new, handle_linked)
              (accepted-queue linked_flow_enqueued _
                ∙ ap
                    (λ x.
                      (after_insertion pf c e tenant x
                        (record st { replay_cache = tried.0 })).0.queue)
                    (insert-old pf c e tenant st.db old))
      ]

  -- The message is stored, its job is not queued, and the call throws.
  abbrev pub IsDropped : (message tenant : String) → List Payload → State × Attempt Stage → Type 0
  IsDropped message tenant queue r =
      (any (is_event tenant message) r.0.db.events ≡ true)
      × ((r.0.queue ≡ queue) × ((w : String) × (r.1 ≡ error_of w)))

  -- The cache that remembers the message of the call.
  abbrev pub remembered : Call → TelegramBotEvent → (tenant : String) → State → Assoc ℕ
  remembered c e tenant st =
      insert (String.◌++◌ (String.◌++◌ tenant ":") (pf.decimal e.message_id))
        (c.now + cfg.replay_cache_ttl_seconds * 1000) st.replay_cache

  try_replay_cache-true :
      (c : Call) (tenant : Option String) (message : String) (cache : Assoc ℕ)
      → (try_replay_cache pf cfg c tenant message cache).1 ≡ true
      → (try_replay_cache pf cfg c tenant message cache).0
        ≡ insert
            (String.◌++◌ (String.◌++◌ (get_or_else tenant "unlinked") ":") message)
            (c.now + cfg.replay_cache_ttl_seconds * 1000)
            cache
  unfolding try_replay_cache
  try_replay_cache-true c tenant message cache new = ground (arith, new)

  linked-IsDropped :
      (c : Call) (e : TelegramBotEvent) (tenant : String) (st : State) (why : String)
      → c.queue_error ≡ some why
      → (try_replay_cache pf cfg c (some tenant) (pf.decimal e.message_id) st.replay_cache).1 ≡ true
      → any (is_event tenant (pf.decimal e.message_id)) st.db.events ≡ false
      → IsDropped (pf.decimal e.message_id) tenant st.queue (handle_linked pf acc cfg c e tenant st)
        × ((handle_linked pf acc cfg c e tenant st).0.replay_cache ≡ remembered c e tenant st)
  unfolding handle_linked enqueue_linked_flow after_insertion new_row record_inbound_interaction
      respond_accepted
  linked-IsDropped c e tenant st why down unseen new =
      let message = pf.decimal e.message_id in
      let cache = try_replay_cache pf cfg c (some tenant) message st.replay_cache in
      let cached : cache.0 ≡ remembered c e tenant st =
        try_replay_cache-true c (some tenant) message st.replay_cache unseen in
      let row = new_row pf c e tenant st.db in
      let added = record st.db { events = st.db.events ++ row ∷ [] } in
      let seen = record_inbound_interaction c tenant (pf.decimal e.user_id) added in
      let st' = record st { db = seen.0; replay_cache = cache.0 } in
      let o = job_of pf c e tenant c.new_id seen.1 seen.0 in
      let (same, (w, threw')) = queue_job-refused c o st' why down in
      let Goal = λ (r : State × Outcome).
        IsDropped message tenant st.queue (respond_accepted linked_flow_enqueued r)
        × ((respond_accepted linked_flow_enqueued r).0.replay_cache ≡ remembered c e tenant st) in
      let r_is : queue_job c o st' ≡ (st', threw w) = λ i. (same i, threw' i) in
      rw (unseen, handle_linked)
        (subst
          (λ (x : Db × Option String).
            Goal (after_insertion pf c e tenant x (record st { replay_cache = cache.0 })))
          (sym (insert-new pf c e tenant st.db new))
          (subst Goal (sym r_is) (
            (
              any-last (is_event tenant message) st.db.events row
                  (ground (arith, str_eq_refl tenant, str_eq_refl message)),
              (refl, (w, refl)),
            ),
            cached,
          )))

  -- A message of a linked user whose job the queue does not take is lost: the call throws with the row of
  -- the message and its entry of the replay cache in place, and when the update is delivered again, at any
  -- time and with a queue that works, nothing is queued. This is of a message that is new to the cache and to
  -- inbound_events, of a user who still belongs to the shop the second time.
  pub failed_update_is_lost :
      (c again : Call) (e : TelegramBotEvent) (tenant : String) (st : State) (why : String)
      → c.queue_error ≡ some why
      → (try_replay_cache pf cfg c (some tenant) (pf.decimal e.message_id) st.replay_cache).1 ≡ true
      → any (is_event tenant (pf.decimal e.message_id)) st.db.events ≡ false
      → resolve_membership pf acc (pf.decimal e.user_id) st.db ≡ some tenant
      → resolve_membership pf acc (pf.decimal e.user_id) (handled c e st).0.db ≡ some tenant
      → ((w : String) × ((handled c e st).1 ≡ error_of w))
        × (any (is_event tenant (pf.decimal e.message_id)) (handled c e st).0.db.events ≡ true)
        × ((handled c e st).0.replay_cache ≡ remembered c e tenant st)
        × ((handled again e (handled c e st).0).0.queue ≡ st.queue)
  unfolding handle_telegram_update
  failed_update_is_lost c again e tenant st why down unseen new member still =
      let first : handled c e st ≡ handle_linked pf acc cfg c e tenant st =
        rw (member, handle_telegram_update) refl in
      let ((stored, (same, threw')), cached) =
        subst
          (λ r.
            IsDropped (pf.decimal e.message_id) tenant st.queue r
            × (r.0.replay_cache ≡ remembered c e tenant st))
          (sym first) (linked-IsDropped c e tenant st why down unseen new) in
      let second : handled again e (handled c e st).0
          ≡ handle_linked pf acc cfg again e tenant (handled c e st).0 =
        rw (still, handle_telegram_update) refl in
      (
        threw',
        stored,
        cached,
        ap (λ r. r.0.queue) second ∙ linked-stored again e tenant _ stored ∙ same,
      )
