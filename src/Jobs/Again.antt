-- ===== src/Jobs/Again.antt =====
-- An envelope that passed validation passes it again (packages/common/src/jobs.ts).
use groceryclaw.Base.Assoc.{Assoc}
use groceryclaw.Jobs.Valid.{
  as_non_empty_string, nullable, is_acceptable, read_header, envelope_of, read_ids, Header,
  is_notification, Ids, object_field, text_field, reply_field, validate, non_empty, number_field,
}
use groceryclaw.Jobs.{
  JobType, WorkerJobEnvelope, Payload, Value, Number, Scalar, null_value, nested, missing, scalar,
  object, num, str, boolean, whole, job_type_name, job_type_of, job_types,
}
use groceryclaw.Base.{
  ℕ, String, true, Option, none, some, ◌≡◌, refl, arith, sym, subst, str_eq, str_eq_iff, ◌>>=◌,
  find-some, bind-some, guard-some,
}

abbrev pub of_text : Option String → Value
of_text none = missing
of_text (some s) = scalar (str s)

abbrev pub of_nullable : Option String → Value
of_nullable none = null_value
of_nullable (some s) = scalar (str s)

abbrev pub of_number : Option Number → Value
of_number none = missing
of_number (some n) = scalar (num n)

abbrev of_object : Option (Assoc Scalar) → Value
of_object none = missing
of_object (some f) = object f

abbrev pub of_reply : Option ℕ → Value
of_reply none = missing
of_reply (some n) = scalar (num (whole n))

-- The JSON object of an envelope: a field that is absent is left out, and a null one is written.
unfoldable pub payload_of : WorkerJobEnvelope → Payload
payload_of v = record {
  job_type = scalar (str (job_type_name v.job_type));
  tenant_id = of_nullable v.tenant_id;
  inbound_event_id = of_nullable v.inbound_event_id;
  platform_user_id = scalar (str v.platform_user_id);
  message_id = scalar (str v.message_id);
  correlation_id = scalar (str v.correlation_id);
  user_id = of_text v.user_id;
  telegram_chat_id = of_number v.telegram_chat_id;
  file_id = of_text v.file_id;
  canonical_invoice_id = of_text v.canonical_invoice_id;
  notification_type = of_text v.notification_type;
  template_vars = of_object v.template_vars;
  enqueued_at_ms = of_number v.enqueued_at_ms;
  message_text = of_text v.message_text;
  reply_to_message_id = of_reply v.reply_to_message_id;
}

text_again : (v : Value) → text_field (of_text (text_field v)) ≡ text_field v
text_again v = ground arith

non_empty_field :
    (v : Value)
    → non_empty (text_field (of_text (non_empty (text_field v)))) ≡ non_empty (text_field v)
non_empty_field v = ground arith

number_again : (v : Value) → number_field (of_number (number_field v)) ≡ number_field v
number_again v = ground arith

object_again : (v : Value) → object_field (of_object (object_field v)) ≡ object_field v
object_again v = ground arith

reply_again : (v : Value) → reply_field (of_reply (reply_field v)) ≡ reply_field v
reply_again v = ground arith

module _ (trim : String → String) where
  non_empty_again :
      (v : Value) (s : String)
      → as_non_empty_string trim v ≡ some s
      → as_non_empty_string trim (scalar (str s)) ≡ some s
  unfolding as_non_empty_string
  non_empty_again (scalar (str t)) s e = ground (arith, e)
  non_empty_again (scalar (num n)) s e = absurd (ground (arith, e))
  non_empty_again (scalar (boolean b)) s e = absurd (ground (arith, e))
  non_empty_again missing s e = absurd (ground (arith, e))
  non_empty_again null_value s e = absurd (ground (arith, e))
  non_empty_again nested s e = absurd (ground (arith, e))
  non_empty_again (object f) s e = absurd (ground (arith, e))

  optional_again :
      (v : Value)
      → as_non_empty_string trim (of_text (as_non_empty_string trim v)) ≡ as_non_empty_string trim v
  unfolding as_non_empty_string
  optional_again v = ground arith

  nullable_again :
      (v : Value) (o : Option String)
      → nullable trim v ≡ some o
      → nullable trim (of_nullable o) ≡ some o
  unfolding nullable as_non_empty_string
  nullable_again v o e = ground (arith, e)

  name_again : (s : String) (t : JobType) → job_type_of s ≡ some t → job_type_name t ≡ s
  unfolding job_type_of
  name_again s t e =
      (str_eq_iff (job_type_name t) s).0 (find-some (λ u. str_eq (job_type_name u) s) job_types t e)

  header_parts :
      (p : Payload) (h : Header)
      → read_header trim p ≡ some h
      → ((as_non_empty_string trim p.job_type >>= job_type_of) ≡ some h.job_type)
        × ((as_non_empty_string trim p.platform_user_id ≡ some h.platform_user_id)
            × ((as_non_empty_string trim p.message_id ≡ some h.message_id)
                × (as_non_empty_string trim p.correlation_id ≡ some h.correlation_id)))
  unfolding read_header
  header_parts p h e = ground (arith, e)

  read_header-parts :
      (p : Payload) (h : Header) (name : String)
      → as_non_empty_string trim p.job_type ≡ some name
      → job_type_of name ≡ some h.job_type
      → as_non_empty_string trim p.platform_user_id ≡ some h.platform_user_id
      → as_non_empty_string trim p.message_id ≡ some h.message_id
      → as_non_empty_string trim p.correlation_id ≡ some h.correlation_id
      → read_header trim p ≡ some h
  unfolding read_header
  read_header-parts p h name a b c d e = ground (arith, a, b, c, d, e)

  header_again :
      (p : Payload) (h : Header) (i : Ids)
      → read_header trim p ≡ some h
      → read_header trim (payload_of (envelope_of trim h i p)) ≡ some h
  unfolding envelope_of payload_of
  header_again p h i e =
      let (t, (user, (message, correlation))) = header_parts p h e in
      let (name, (named, known)) =
        bind-some (as_non_empty_string trim p.job_type) job_type_of h.job_type t in
      let same = name_again name h.job_type known in
      read_header-parts (payload_of (envelope_of trim h i p)) h name
        (subst (λ n. as_non_empty_string trim (scalar (str n)) ≡ some name) (sym same)
          (non_empty_again p.job_type name named))
        known (non_empty_again p.platform_user_id h.platform_user_id user)
        (non_empty_again p.message_id h.message_id message)
        (non_empty_again p.correlation_id h.correlation_id correlation)

  ids_again :
      (p : Payload) (h : Header) (i : Ids)
      → read_ids trim p ≡ some i
      → read_ids trim (payload_of (envelope_of trim h i p)) ≡ some i
  unfolding read_ids envelope_of payload_of
  ids_again p h i e =
      let (tenant, rest) : (nullable trim p.tenant_id ≡ some i.tenant_id)
          × (nullable trim p.inbound_event_id ≡ some i.inbound_event_id) =
        ground (arith, e) in
      let a = nullable_again p.tenant_id i.tenant_id tenant in
      let b = nullable_again p.inbound_event_id i.inbound_event_id rest in rw (a, b) refl

  acceptable_again :
      (p : Payload) (h : Header) (i : Ids)
      → is_acceptable trim h i p ≡ true
      → is_acceptable trim h i (payload_of (envelope_of trim h i p)) ≡ true
  unfolding is_acceptable envelope_of payload_of is_notification
  acceptable_again p h i e =
      ground (arith, e, optional_again p.canonical_invoice_id, optional_again p.notification_type)

  envelope_again :
      (p : Payload) (h : Header) (i : Ids)
      → envelope_of trim h i (payload_of (envelope_of trim h i p)) ≡ envelope_of trim h i p
  unfolding envelope_of payload_of
  envelope_again p h i =
      rw
        (
          non_empty_field p.user_id,
          number_again p.telegram_chat_id,
          non_empty_field p.file_id,
          optional_again p.canonical_invoice_id,
          optional_again p.notification_type,
          object_again p.template_vars,
          number_again p.enqueued_at_ms,
          text_again p.message_text,
          reply_again p.reply_to_message_id,
        )
        refl

  -- The JSON of an envelope that passed validation passes it, and gives the same envelope.
  pub validate-payload_of :
      (input : Option Payload) (v : WorkerJobEnvelope)
      → validate trim input ≡ some v
      → validate trim (some (payload_of v)) ≡ some v
  unfolding validate
  validate-payload_of none v e = absurd (ground (arith, e))
  validate-payload_of (some p) v e =
      let (h, (read_h, rest)) = bind-some (read_header trim p) _ v e in
      let (i, (read_i, rest')) = bind-some (read_ids trim p) _ v rest in
      let (fine, same) = guard-some (is_acceptable trim h i p) (envelope_of trim h i p) v rest' in
      subst (λ w. validate trim (some (payload_of w)) ≡ some w) same
        (rw
          (
            header_again p h i read_h,
            ids_again p h i read_i,
            acceptable_again p h i fine,
            envelope_again p h i,
          )
          refl)
