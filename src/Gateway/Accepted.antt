-- ===== src/Gateway/Accepted.antt =====
-- The jobs that apps/gateway/src/server.ts queues, and the validation of packages/common/src/jobs.ts.
use groceryclaw.Jobs.Again.{of_nullable}
use groceryclaw.Gateway.Route.{linked_job}
use groceryclaw.Gateway.Handle.{trimmed, notice, notice_vars}
use groceryclaw.Jobs.Valid.{
  as_non_empty_string, validate, Header, Ids, read_header, read_ids, nullable, is_acceptable,
  envelope_of, has_ids, is_integer, is_file_id, is_notification, notification_types,
  is_template_vars,
}
use groceryclaw.Gateway.Linked.{Call}
use groceryclaw.Jobs.{
  Payload, scalar, WorkerJobEnvelope, str, JobType, Value, job_type_of, num, whole, missing,
  job_type_name, notify_user,
}
use groceryclaw.Gateway.{Platform, TelegramBotEvent}
use groceryclaw.Base.{
  ℕ, ◌<◌, String, true, false, Option, none, some, ◌≡◌, refl, arith, sym, subst, str_eq, includes,
  All,
}

-- The worker takes the job.
abbrev pub IsAccepted : Platform → Payload → Type 0
IsAccepted pf p = (v : WorkerJobEnvelope) × (validate pf.trim (some p) ≡ some v)

-- What validation asks of texts: something else than blanks.
abbrev pub IsNonBlank : Platform → String → Type 0
IsNonBlank pf s = str_eq (pf.trim s) "" ≡ false

-- `trim` does nothing twice; a number and the names of jobs and notices are no blanks.
pub record IsText (pf : Platform) : Type 0 where
  pub trim-trim : (s : String) → pf.trim (pf.trim s) ≡ pf.trim s
  pub decimal-IsNonBlank : (n : ℕ) → IsNonBlank pf (pf.decimal n)
  pub job-IsNonBlank : (t : JobType) → IsNonBlank pf (job_type_name t)
  pub notice-IsNonBlank : All (IsNonBlank pf) notification_types

pub record IsSound (pf : Platform) (c : Call) : Type 0 where
  pub request_id-IsNonBlank : IsNonBlank pf c.request_id
  pub new_id-IsNonBlank : IsNonBlank pf c.new_id
  pub now_positive : 0 < c.now

module _ (pf : Platform) where
  validate-intro :
      (p : Payload) (h : Header) (i : Ids)
      → read_header pf.trim p ≡ some h
      → read_ids pf.trim p ≡ some i
      → is_acceptable pf.trim h i p ≡ true
      → IsAccepted pf p
  unfolding validate
  validate-intro p h i a b c = (envelope_of pf.trim h i p, rw (a, b, c) refl)

  non_empty_text :
      (s : String) → IsNonBlank pf s → as_non_empty_string pf.trim (scalar (str s)) ≡ some s
  unfolding as_non_empty_string
  non_empty_text s h = rw h refl

  missing_text : as_non_empty_string pf.trim missing ≡ none
  unfolding as_non_empty_string
  missing_text = refl

  -- No text, or one that is not blank.
  abbrev pub IsShop : Option String → Type 0
  IsShop none = Unit
  IsShop (some s) = IsNonBlank pf s

  nullable-read : (o : Option String) → IsShop o → nullable pf.trim (of_nullable o) ≡ some o
  unfolding nullable as_non_empty_string
  nullable-read none h = refl
  nullable-read (some s) h = ground (arith, h)

  notice_vars-fine : (message : String) → is_template_vars (notice_vars message) ≡ true
  notice_vars-fine message = ground arith

  pub trimmed-IsNonBlank :
      (o : Option String) (s : String) → IsText pf → trimmed pf o ≡ some s → IsNonBlank pf s
  trimmed-IsNonBlank none s laws e = absurd (ground (arith, e))
  trimmed-IsNonBlank (some r) s laws e =
      let (filled, same) : (str_eq (pf.trim r) "" ≡ false) × (pf.trim r ≡ s) = ground (arith, e) in
      subst (λ x. IsNonBlank pf x) same
        (subst (λ x. str_eq x "" ≡ false) (sym (laws.trim-trim r)) filled)

  module _ (laws : IsText pf) (c : Call) (sound : IsSound pf c) (e : TelegramBotEvent) where
    pub linked_job-IsAccepted :
        (tenant id : String) (user : Option String) (name : String) (t : JobType)
        (file message reply : Value)
        → IsNonBlank pf tenant
        → IsNonBlank pf id
        → name ≡ job_type_name t
        → job_type_of name ≡ some t
        → has_ids t true true false ≡ true
        → is_integer e.chat_id ≡ true
        → is_file_id file ≡ true
        → ((p : Payload) → is_notification pf.trim t p ≡ true)
        → IsAccepted pf (record (linked_job pf c e tenant id user name file message reply) {
          enqueued_at_ms = scalar (num (whole c.now));
        })
    unfolding read_header read_ids nullable is_acceptable
    linked_job-IsAccepted tenant id user name t file message reply a b n known ids chat fine other =
        let p : Payload = record (linked_job pf c e tenant id user name file message reply) {
          enqueued_at_ms = scalar (num (whole c.now));
        } in
        let header : Header = record {
          job_type = t;
          platform_user_id = pf.decimal e.user_id;
          message_id = pf.decimal e.message_id;
          correlation_id = c.request_id;
        } in
        let named = non_empty_text name (subst (IsNonBlank pf) (sym n) (laws.job-IsNonBlank t)) in
        let from = non_empty_text (pf.decimal e.user_id) (laws.decimal-IsNonBlank e.user_id) in
        let sent =
          non_empty_text (pf.decimal e.message_id) (laws.decimal-IsNonBlank e.message_id) in
        let asked = non_empty_text c.request_id sound.request_id-IsNonBlank in
        let shop = non_empty_text tenant a in
        let row = non_empty_text id b in
        let late = sound.now_positive in
        validate-intro p header (record { tenant_id = some tenant; inbound_event_id = some id })
          (ground (arith, named, from, sent, asked, known)) (ground (arith, shop, row))
          (ground (arith, ids, chat, fine, late, other p, missing_text))

    pub notice-IsAccepted :
        (name : String) (tenant : Option String) (message : String)
        → IsShop tenant
        → IsNonBlank pf name
        → includes notification_types name ≡ true
        → is_integer e.chat_id ≡ true
        → IsAccepted pf (record (notice pf c e name tenant message) {
          enqueued_at_ms = scalar (num (whole c.now));
        })
    unfolding read_header read_ids nullable is_acceptable is_notification notice has_ids job_type_of
        job_type_name str_eq
    notice-IsAccepted name tenant message shop filled known chat =
        let p : Payload = record (notice pf c e name tenant message) {
          enqueued_at_ms = scalar (num (whole c.now));
        } in
        let header : Header = record {
          job_type = notify_user;
          platform_user_id = pf.decimal e.user_id;
          message_id = pf.decimal e.message_id;
          correlation_id = c.request_id;
        } in
        let named = non_empty_text "NOTIFY_USER" (laws.job-IsNonBlank notify_user) in
        let kind = non_empty_text name filled in
        let from = non_empty_text (pf.decimal e.user_id) (laws.decimal-IsNonBlank e.user_id) in
        let sent =
          non_empty_text (pf.decimal e.message_id) (laws.decimal-IsNonBlank e.message_id) in
        let asked = non_empty_text c.request_id sound.request_id-IsNonBlank in
        let late = sound.now_positive in
        validate-intro p header (record { tenant_id = tenant; inbound_event_id = none })
          (ground (arith, named, from, sent, asked)) (rw (nullable-read tenant shop) refl)
          (ground (arith, kind, known, chat, late, notice_vars-fine message))
