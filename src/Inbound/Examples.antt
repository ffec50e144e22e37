-- ===== src/Inbound/Examples.antt =====
-- An event with an XML invoice of two lines.
use groceryclaw.Inbound.Stored.{process_inbound_again}
use groceryclaw.Jobs.{WorkerJobEnvelope, process_inbound_event}
use groceryclaw.Inbound.{
  Db, process_inbound, InboundEvent, InvoiceItem, Invoice, Env, pending, extract_xml_url, got,
  set_event, process_event, store_invoice, insert_invoice, insert_items,
}
use groceryclaw.Inbound.Queued.{IsRefused, process_inbound-IsRefused}
use groceryclaw.Base.{ℕ, true, [], ◌∷◌, none, some, ◌≡◌, refl, str_eq, length, All}

abbrev item : ℕ → InvoiceItem
item n = record {
  line_no = n;
  sku = none;
  product_name = "milk";
  quantity = 1;
  unit_price = 5;
  line_total = 5;
  uom = none;
}

abbrev xml_event : InboundEvent
xml_event = record {
  id = "e";
  tenant_id = "t";
  file_url = none;
  attachments = record { url = some "https://x/1.xml"; kind = some "file" } ∷ [];
  event_status = pending;
  error_message = none;
}

abbrev parsed : Invoice
parsed = record {
  invoice_number = "7";
  invoice_date = "2024-01-01";
  supplier_code = none;
  currency = "VND";
  subtotal = 10;
  tax_total = 0;
  total = 10;
  items = item 1 ∷ item 2 ∷ [];
}

abbrev platform : Env
platform = record {
  xml_parse_enabled = true;
  fetch_xml = (λ url. got "<xml>");
  parse_invoice_xml = (λ xml. got parsed);
  invoice_fingerprint = (λ tenant invoice. "f");
  new_id = "v";
}

abbrev inbound_job : WorkerJobEnvelope
inbound_job = record {
  job_type = process_inbound_event;
  tenant_id = some "t";
  inbound_event_id = some "e";
  platform_user_id = "u";
  message_id = "m";
  correlation_id = "c";
  user_id = none;
  telegram_chat_id = none;
  file_id = none;
  canonical_invoice_id = none;
  notification_type = none;
  template_vars = none;
  enqueued_at_ms = none;
  message_text = none;
  reply_to_message_id = none;
}

abbrev db : Db
db = record { events = xml_event ∷ []; invoices = []; items = []; jobs = []; queue = [] }

abbrev once : Db
once = (process_inbound platform inbound_job db).0

test_once : (length once.invoices ≡ 1) × ((length once.items ≡ 2) × (length once.queue ≡ 1))
unfolding process_inbound extract_xml_url set_event process_event store_invoice insert_invoice
    insert_items str_eq
test_once = (refl, (refl, refl))

process_inbound_again_example :
    ((process_inbound (record platform { new_id = "w" }) inbound_job once).0.invoices
      ≡ once.invoices)
    × ((process_inbound (record platform { new_id = "w" }) inbound_job once).0.items ≡ once.items)
process_inbound_again_example = process_inbound_again platform inbound_job db "w"

process_inbound-IsRefused_example : All (IsRefused (λ s. s)) once.queue
process_inbound-IsRefused_example = process_inbound-IsRefused (λ s. s) platform inbound_job db tt
