-- ===== src/Inbound.antt =====
-- apps/worker/src/process-inbound.ts: an invoice that arrives as XML is stored, and the next job is queued.
-- The tables are lists in the order of insertion. A file's download and its parser are arguments.
pub mod Stored
pub mod Queued
mod Examples
use groceryclaw.Jobs.Again.{of_nullable}
use groceryclaw.Jobs.{Payload, WorkerJobEnvelope, scalar, str, missing}
use groceryclaw.Base.{
  ℕ, zero, suc, ◌+◌, ◌-◌, ◌*◌, ◌/◌, ◌%◌, ◌≤◌, ◌<◌, ◌↔◌, ◌⊎◌, String, Bool, true, false, not, ◌&&◌,
  ◌||◌, List, [], ◌∷◌, ◌++◌, map, Option, none, some, ◌≡◌, refl, ◌≢◌, inl, inr, if◌then◌else◌,
  Option-cases, Bool-cases, arith, leb, ltb, ◌==◌, sym, ◌∙◌, ap, subst, str_eq, str_eq_iff,
  str_eq_refl, is_some, any, find, keep_if, length, length-append, guard, ◌>>=◌, ◌>>◌, includes,
  get_or_else, All, max, min, drop,
}

pub record Attachment : Type 0 where
  pub url : Option String
  pub kind : Option String

pub data EventStatus : Type 0 where
  pending completed failed : EventStatus

-- `attachments` holds the entries that are objects; a `url` or a `type` that is no text is absent.
pub record InboundEvent : Type 0 where
  pub id : String
  pub tenant_id : String
  pub file_url : Option String
  pub attachments : List Attachment
  pub event_status : EventStatus
  pub error_message : Option String

pub record InvoiceItem : Type 0 where
  pub line_no : ℕ
  pub sku : Option String
  pub product_name : String
  pub quantity : ℕ
  pub unit_price : ℕ
  pub line_total : ℕ
  pub uom : Option String

pub record Invoice : Type 0 where
  pub invoice_number : String
  pub invoice_date : String
  pub supplier_code : Option String
  pub currency : String
  pub subtotal : ℕ
  pub tax_total : ℕ
  pub total : ℕ
  pub items : List InvoiceItem

pub record CanonicalInvoice : Type 0 where
  pub id : String
  pub tenant_id : String
  pub inbound_event_id : String
  pub fingerprint : String
  pub invoice : Invoice

pub record CanonicalItem : Type 0 where
  pub canonical_invoice_id : String
  pub tenant_id : String
  pub item : InvoiceItem

pub data JobStatus : Type 0 where
  job_processing job_completed job_failed : JobStatus

pub record JobRow : Type 0 where
  pub tenant_id : String
  pub correlation_id : String
  pub job_status : JobStatus
  pub error : Option String

pub record Db : Type 0 where
  pub events : List InboundEvent
  pub invoices : List CanonicalInvoice
  pub items : List CanonicalItem
  pub jobs : List JobRow
  pub queue : List Payload

pub data Outcome : Type 0 where
  returned : Outcome
  threw : String → Outcome

pub data Attempt (A : Type 0) : Type 0 where
  got : A → Attempt A
  error_of : String → Attempt A

pub record Env : Type 0 where
  pub xml_parse_enabled : Bool
  pub fetch_xml : String → Attempt String
  pub parse_invoice_xml : String → Attempt Invoice
  pub invoice_fingerprint : String → Invoice → String
  pub new_id : String

abbrev pub truthy : Option String → Option String
truthy none = none
truthy (some s) = if str_eq s "" then none else some s

abbrev pub is_file : Attachment → Bool
is_file a = is_some a.url && elim (truthy a.kind) [ none ↦ true | some t ↦ str_eq t "file" ]

unfoldable pub extract_xml_url : InboundEvent → Option String
extract_xml_url e = elim (truthy e.file_url) [
  | some u ↦ some u
  | none ↦ find is_file e.attachments >>= λ a. a.url
]

abbrev pub mark_job : (tenant correlation : String) → JobStatus → Option String → Db → Db
mark_job tenant correlation s e db = record db {
  jobs =
      db.jobs
      ++ record { tenant_id = tenant; correlation_id = correlation; job_status = s; error = e }
        ∷ [];
}

-- `UPDATE inbound_events SET status = ..., error_message = ... WHERE id = ...`
unfoldable pub set_event :
    (id : String) → EventStatus → Option (Option String) → List InboundEvent → List InboundEvent
set_event id s e [] = []
set_event id s e (x ∷ xs) =
    (if str_eq x.id id
      then record x { event_status = s; error_message = get_or_else e x.error_message }
      else x)
    ∷ set_event id s e xs

abbrev pub enqueue : Payload → Db → Db
enqueue p db = record db { queue = db.queue ++ p ∷ [] }

-- `INSERT INTO canonical_invoices ... ON CONFLICT (tenant_id, invoice_fingerprint) DO NOTHING`, and the
-- identifier of the row that is there then.
abbrev pub is_invoice : (tenant fingerprint : String) → CanonicalInvoice → Bool
is_invoice tenant fingerprint c = str_eq c.tenant_id tenant && str_eq c.fingerprint fingerprint

unfoldable pub insert_invoice :
    CanonicalInvoice → List CanonicalInvoice → List CanonicalInvoice × String
insert_invoice c cs = elim (find (is_invoice c.tenant_id c.fingerprint) cs) [
  | some old ↦ (cs, old.id)
  | none ↦ (cs ++ c ∷ [], c.id)
]

abbrev pub is_line : (invoice_id : String) (line_no : ℕ) → CanonicalItem → Bool
is_line invoice_id line_no x = str_eq x.canonical_invoice_id invoice_id && x.item.line_no == line_no

-- `ON CONFLICT (canonical_invoice_id, line_no) DO NOTHING`, for each line.
unfoldable pub insert_items :
    (tenant invoice_id : String) → List InvoiceItem → List CanonicalItem → List CanonicalItem
insert_items tenant invoice_id [] table = table
insert_items tenant invoice_id (x ∷ xs) table = insert_items tenant invoice_id xs (
    if any (is_line invoice_id x.line_no) table
    then table
    else table ++ record { canonical_invoice_id = invoice_id; tenant_id = tenant; item = x } ∷ [])

-- The transaction that stores a parsed invoice.
unfoldable pub store_invoice : Env → InboundEvent → Invoice → Db → Db
store_invoice env e invoice db =
    let row : CanonicalInvoice = record {
      id = env.new_id;
      tenant_id = e.tenant_id;
      inbound_event_id = e.id;
      fingerprint = env.invoice_fingerprint e.tenant_id invoice;
      invoice = invoice;
    } in
    let stored = insert_invoice row db.invoices in
    record db {
      invoices = stored.0;
      items = insert_items e.tenant_id stored.1 invoice.items db.items;
      events = set_event e.id completed none db.events;
    }

-- The jobs that are queued carry no other fields than these.
abbrev pub bare_payload : (name : String) → WorkerJobEnvelope → Payload
bare_payload name job = record {
  job_type = scalar (str name);
  tenant_id = of_nullable job.tenant_id;
  inbound_event_id = of_nullable job.inbound_event_id;
  platform_user_id = scalar (str job.platform_user_id);
  message_id = scalar (str job.message_id);
  correlation_id = scalar (str job.correlation_id);
  user_id = missing;
  telegram_chat_id = missing;
  file_id = missing;
  canonical_invoice_id = missing;
  notification_type = missing;
  template_vars = missing;
  enqueued_at_ms = missing;
  message_text = missing;
  reply_to_message_id = missing;
}

abbrev pub notify_user_job : WorkerJobEnvelope → Payload
notify_user_job job = bare_payload "NOTIFY_USER" job

abbrev pub map_resolve_job : WorkerJobEnvelope → Payload
map_resolve_job job = bare_payload "MAP_RESOLVE" job

module _ (env : Env) (job : WorkerJobEnvelope) (tenant : String) where
  -- An invoice that cannot be fetched or parsed.
  abbrev pub fail_event : InboundEvent → String → Db → Db
  fail_event e why db = mark_job tenant job.correlation_id job_failed (some why) (
      enqueue (notify_user_job job)
        (record db { events = set_event e.id failed (some (some "xml_parse_failed")) db.events }))

  abbrev pub fetch_and_parse : String → Attempt Invoice
  fetch_and_parse url = elim (env.fetch_xml url) [
    | error_of why ↦ error_of why
    | got xml ↦ env.parse_invoice_xml xml
  ]

  unfoldable pub process_event : InboundEvent → Db → Db × Outcome
  process_event e db = elim (extract_xml_url e) [
    | none ↦ (
      mark_job tenant job.correlation_id job_failed (some "xml_attachment_missing") (
          enqueue (notify_user_job job) (record db {
            events = set_event e.id failed (some (some "xml_attachment_missing")) db.events;
          })),
      returned,
    )
    | some url ↦ elim (fetch_and_parse url) [
      | error_of why ↦ (fail_event e why db, threw why)
      | got invoice ↦ (
        mark_job tenant job.correlation_id job_completed none
            (enqueue (map_resolve_job job) (store_invoice env e invoice db)),
        returned,
      )
    ]
  ]

unfoldable pub process_inbound : Env → WorkerJobEnvelope → Db → Db × Outcome
process_inbound env job db = elim job.tenant_id [
  | none ↦ (db, threw "invalid_job_payload")
  | some tenant ↦ elim job.inbound_event_id [
    | none ↦ (db, threw "invalid_job_payload")
    | some id ↦
        let started = mark_job tenant job.correlation_id job_processing none db in
        if not env.xml_parse_enabled
        then (
          mark_job tenant job.correlation_id job_completed none (
              enqueue (notify_user_job job)
                (record started { events = set_event id completed none started.events })),
          returned,
        )
        else elim (find (λ e. str_eq e.id id) started.events) [
          | none ↦ (
            mark_job tenant job.correlation_id job_failed (some "inbound_event_not_found") started,
            threw "inbound_event_not_found",
          )
          | some e ↦ process_event env job tenant e started
        ]
  ]
]
