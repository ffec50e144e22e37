-- ===== src/Gateway/Once.antt =====
-- One message, one job: apps/gateway/src/server.ts, the replay cache and the key of inbound_events.
pub mod Handled
use groceryclaw.Base.{
  ℕ, zero, suc, ◌+◌, ◌-◌, ◌*◌, ◌/◌, ◌%◌, ◌≤◌, ◌<◌, ◌↔◌, ◌⊎◌, String, Bool, true, false, not, ◌&&◌,
  ◌||◌, List, [], ◌∷◌, ◌++◌, map, Option, none, some, ◌≡◌, refl, ◌≢◌, inl, inr, if◌then◌else◌,
  Option-cases, Bool-cases, arith, leb, ltb, ◌==◌, sym, ◌∙◌, ap, subst, str_eq, str_eq_iff,
  str_eq_refl, is_some, any, find, keep_if, length, length-append, guard, ◌>>=◌, ◌>>◌, includes,
  get_or_else, All, max, min, drop,
}
use groceryclaw.Gateway.Stored.{insert-old, insert-new}
use groceryclaw.Limits.Bucket.{consume}
use groceryclaw.Gateway.Route.{queue_job, job_of, enqueue_linked_flow, after_insertion}
use groceryclaw.Gateway.{Platform, TelegramBotEvent}
use groceryclaw.Gateway.Handle.{
  Accounts, InviteRow, respond_accepted, Config, notice, Stage, handle_invite, handle_linked,
  consume_invite_code, try_replay_cache, linked_flow_enqueued, replay_deduped,
  handle_telegram_update, invite_notice, invite_rate_limited, handle_stranger, bad_code,
  invite_processed, resolve_membership, invite_code_of, onboarding_prompt, prompt,
}
use groceryclaw.Jobs.{Payload, Value, Number, null_value, scalar, str, missing, num, whole}
use groceryclaw.Gateway.Linked.{
  State, is_event, Call, enqueue, Db, InboundEventRow, record_inbound_interaction, new_row,
}
use Prim.Native.String
use mathlib.Core.Option.{some-injective}
use groceryclaw.Inbound.{returned, threw, Outcome}
use groceryclaw.Base.{
  ℕ, suc, ◌+◌, ◌≤◌, String, Bool, true, false, not, ◌&&◌, ◌||◌, List, [], ◌∷◌, ◌++◌, Option, none,
  some, ◌≡◌, refl, inl, inr, Option-cases, Bool-cases, arith, sym, ◌∙◌, ap, subst, str_eq,
  str_eq_iff, str_eq_refl, any, keep_if, length,
}

abbrev pub count {ℓ} : {A : Type ℓ} → (A → Bool) → List A → ℕ
count p xs = length (keep_if p xs)

count-append {ℓ} :
    {A : Type ℓ} (p : A → Bool) (xs ys : List A) → count p (xs ++ ys) ≡ count p xs + count p ys
count-append p [] ys = omega arith
count-append p (x ∷ xs) ys = ground (arith, count-append p xs ys)

count-any {ℓ} : {A : Type ℓ} (p : A → Bool) (xs : List A) → any p xs ≡ false → count p xs ≡ 0
count-any p [] h = refl
count-any p (x ∷ xs) h = ground (arith, h, count-any p xs)

abbrev pub is_value : String → Value → Bool
is_value s (scalar (str t)) = str_eq t s
is_value s _ = false

abbrev pub is_given : Value → Bool
is_given null_value = false
is_given missing = false
is_given _ = true

-- A job about a message of a shop: it names the row of inbound_events, as the notices do not.
abbrev pub is_message_job : (tenant message : String) → Payload → Bool
is_message_job tenant message p =
    is_value tenant p.tenant_id && (is_value message p.message_id && is_given p.inbound_event_id)

-- The functions of the database for invitations leave inbound_events alone.
abbrev pub KeepsEvents : Accounts → Type 0
KeepsEvents acc =
    (user code : String) (chat : Number) (db : Db) (r : Db × InviteRow)
    → acc.consume_invite_code user code chat db ≡ some r
    → r.0.events ≡ db.events

module _ (t m : String) where
  abbrev pub jobs : State → ℕ
  jobs st = count (is_message_job t m) st.queue

  abbrev pub rows : State → ℕ
  rows st = count (is_event t m) st.db.events

  abbrev pub IsOnce : State → Type 0
  IsOnce st = (jobs st ≤ rows st) × (rows st ≤ 1)

  module _ (pf : Platform) where
    pub job_of-matches :
        (c : Call) (e : TelegramBotEvent) (tenant id : String) (user : Option String) (db : Db)
        (p : Payload)
        → job_of pf c e tenant id user db ≡ some p
        → is_message_job t m p ≡ true
        → (str_eq tenant t && str_eq (pf.decimal e.message_id) m) ≡ true
    unfolding job_of
    job_of-matches c e tenant id user db p h k = ground (arith, h, k)

    pub queue_job-jobs :
        (c : Call) (o : Option Payload) (st : State)
        → ((p : Payload) → o ≡ some p → is_message_job t m p ≡ false)
        → jobs (queue_job c o st).0 ≡ jobs st
    unfolding queue_job enqueue
    queue_job-jobs c none st h = refl
    queue_job-jobs c (some p) st h = elim (Option-cases c.queue_error) [
      | inl e ↦
          let no' = h p refl in
          rw e (
            count-append (is_message_job t m) st.queue
              (record p { enqueued_at_ms = scalar (num (whole c.now)) } ∷ [])
            ∙ ground (arith, no'))
      | inr (why, e) ↦ rw e refl
    ]

    queue_job-le :
        (c : Call) (o : Option Payload) (st : State) → jobs (queue_job c o st).0 ≤ suc (jobs st)
    unfolding queue_job enqueue
    queue_job-le c none st = omega arith
    queue_job-le c (some p) st = elim (Option-cases c.queue_error) [
      | inl e ↦ rw e (
          ground (
            arith,
            count-append (is_message_job t m) st.queue
                (record p { enqueued_at_ms = scalar (num (whole c.now)) } ∷ []),
          ))
      | inr (why, e) ↦ rw e (omega arith)
    ]

    pub queue_job-db :
        (c : Call) (o : Option Payload) (st : State) → (queue_job c o st).0.db ≡ st.db
    unfolding queue_job enqueue
    queue_job-db c o st = ground arith

    module _ (c : Call) (tenant msg : String) (old : List InboundEventRow) (row : InboundEventRow)
        (o : Option Payload) (st : State) where
      added_other :
          st.db.events ≡ old ++ row ∷ []
          → row.tenant_id ≡ tenant
          → row.message_id ≡ msg
          → (str_eq tenant t && str_eq msg m) ≡ false
          → jobs (queue_job c o st).0 ≡ jobs st
          → jobs st ≤ count (is_event t m) old
          → count (is_event t m) old ≤ 1
          → IsOnce (queue_job c o st).0
      added_other at_end rt rm differs same le one =
          let none_new : is_event t m row ≡ false = rw (rt, rm) differs in
          let total =
            ap (count (is_event t m)) (ap (λ d. d.events) (queue_job-db c o st) ∙ at_end)
            ∙ count-append (is_event t m) old (row ∷ []) in
          (ground (arith, none_new, total, same), ground (arith, none_new, total))

      added_same :
          st.db.events ≡ old ++ row ∷ []
          → row.tenant_id ≡ t
          → row.message_id ≡ m
          → any (is_event t m) old ≡ false
          → jobs st ≤ count (is_event t m) old
          → IsOnce (queue_job c o st).0
      added_same at_end rt rm new le =
          let is_new : is_event t m row ≡ true =
            rw (rt, rm) (ground (arith, str_eq_refl t, str_eq_refl m)) in
          let total =
            ap (count (is_event t m)) (ap (λ d. d.events) (queue_job-db c o st) ∙ at_end)
            ∙ count-append (is_event t m) old (row ∷ []) in
          let zero' = count-any (is_event t m) old new in
          let most = queue_job-le c o st in
          (ground (arith, is_new, total, zero', most), ground (arith, is_new, total, zero'))

      pub added-IsOnce :
          st.db.events ≡ old ++ row ∷ []
          → row.tenant_id ≡ tenant
          → row.message_id ≡ msg
          → any (is_event tenant msg) old ≡ false
          → ((p : Payload)
              → o ≡ some p
              → is_message_job t m p ≡ true
              → (str_eq tenant t && str_eq msg m) ≡ true)
          → jobs st ≤ count (is_event t m) old
          → count (is_event t m) old ≤ 1
          → IsOnce (queue_job c o st).0
      added-IsOnce at_end rt rm new matches le one =
          elim (Bool-cases (str_eq tenant t && str_eq msg m)) [
            | inl both ↦
                let a : tenant ≡ t = (str_eq_iff tenant t).0 (ground (arith, both)) in
                let b : msg ≡ m = (str_eq_iff msg m).0 (ground (arith, both)) in
                added_same at_end (rt ∙ a) (rm ∙ b)
                  (subst (λ x. any (is_event x m) old ≡ false) a
                    (subst (λ y. any (is_event tenant y) old ≡ false) b new))
                  le
            | inr differs ↦
                added_other at_end rt rm differs
                  (queue_job-jobs c o st (λ p e. elim (Bool-cases (is_message_job t m p)) [
                    | inl yes' ↦ ground (arith, matches p e yes', differs)
                    | inr no' ↦ no'
                  ]))
                  le one
          ]
