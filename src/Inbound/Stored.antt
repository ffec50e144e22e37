-- ===== src/Inbound/Stored.antt =====
-- An event that is processed again stores nothing new (apps/worker/src/process-inbound.ts).
use groceryclaw.Jobs.{WorkerJobEnvelope}
use groceryclaw.Inbound.{
  InvoiceItem, Env, set_event, insert_invoice, insert_items, Invoice, CanonicalInvoice,
  CanonicalItem, InboundEvent, extract_xml_url, EventStatus, is_invoice, error_of, is_line, got, Db,
  process_inbound, process_event, store_invoice,
}
use groceryclaw.Base.{
  String, Bool, true, List, [], ◌∷◌, ◌++◌, Option, none, some, ◌≡◌, refl, inl, inr, Option-cases,
  Bool-cases, arith, sym, ◌∙◌, ap, subst, str_eq, str_eq_refl, any, find, guard, ◌>>=◌, ◌>>◌, All,
  any-append,
}

-- The lines of an invoice are stored once.
module _ (tenant invoice_id : String) where
  insert_items-any :
      (p : CanonicalItem → Bool) (xs : List InvoiceItem) (table : List CanonicalItem)
      → any p table ≡ true
      → any p (insert_items tenant invoice_id xs table) ≡ true
  unfolding insert_items
  insert_items-any p [] table h = h
  insert_items-any p (x ∷ xs) table h =
      elim (Bool-cases (any (is_line invoice_id x.line_no) table)) [
        | inl old ↦ rw old (insert_items-any p xs table h)
        | inr new ↦ rw new (insert_items-any p xs _ (rw (any-append p table, h) refl))
      ]

  abbrev pub IsStored : List InvoiceItem → List CanonicalItem → Type 0
  IsStored xs table = All (λ x. any (is_line invoice_id x.line_no) table ≡ true) xs

  insert_items-IsStored :
      (xs : List InvoiceItem) (table : List CanonicalItem)
      → IsStored xs (insert_items tenant invoice_id xs table)
  unfolding insert_items
  insert_items-IsStored [] table = tt
  insert_items-IsStored (x ∷ xs) table =
      elim (Bool-cases (any (is_line invoice_id x.line_no) table)) [
        | inl old ↦
            let same : insert_items tenant invoice_id (x ∷ xs) table
                ≡ insert_items tenant invoice_id xs table =
              rw old refl in
            subst (IsStored (x ∷ xs)) (sym same) (
              insert_items-any (is_line invoice_id x.line_no) xs table old,
              insert_items-IsStored xs table,
            )
        | inr new ↦
            let row : CanonicalItem = record {
              canonical_invoice_id = invoice_id;
              tenant_id = tenant;
              item = x;
            } in
            let same : insert_items tenant invoice_id (x ∷ xs) table
                ≡ insert_items tenant invoice_id xs (table ++ row ∷ []) =
              rw new refl in
            let there : any (is_line invoice_id x.line_no) (table ++ row ∷ []) ≡ true = ground (
              arith,
              any-append (is_line invoice_id x.line_no) table (row ∷ []),
              str_eq_refl invoice_id,
            ) in
            subst (IsStored (x ∷ xs)) (sym same) (
              insert_items-any (is_line invoice_id x.line_no) xs (table ++ row ∷ []) there,
              insert_items-IsStored xs (table ++ row ∷ []),
            )
      ]

  insert_items-again :
      (xs : List InvoiceItem) (table : List CanonicalItem)
      → IsStored xs table
      → insert_items tenant invoice_id xs table ≡ table
  unfolding insert_items
  insert_items-again [] table h = refl
  insert_items-again (x ∷ xs) table h = rw h.0 (insert_items-again xs table h.1)

find-append_new {ℓ} :
    {A : Type ℓ} (p : A → Bool) (xs : List A) (x : A)
    → find p xs ≡ none
    → p x ≡ true
    → find p (xs ++ x ∷ []) ≡ some x
find-append_new p [] x h k = ground (arith, k)
find-append_new p (y ∷ ys) x h k = ground (arith, h, find-append_new p ys x (ground (arith, h)) k)

insert_invoice-old :
    (c : CanonicalInvoice) (cs : List CanonicalInvoice) (o : CanonicalInvoice)
    → find (is_invoice c.tenant_id c.fingerprint) cs ≡ some o
    → insert_invoice c cs ≡ (cs, o.id)
unfolding insert_invoice
insert_invoice-old c cs o e = rw (e, insert_invoice) refl

-- A stored invoice is found under its tenant and fingerprint, with the identifier that was answered.
found_after :
    (c : CanonicalInvoice) (cs : List CanonicalInvoice)
    → (o : CanonicalInvoice) × ((find (is_invoice c.tenant_id c.fingerprint) (insert_invoice c cs).0
          ≡ some o)
        × (o.id ≡ (insert_invoice c cs).1))
unfolding insert_invoice
found_after c cs = elim (Option-cases (find (is_invoice c.tenant_id c.fingerprint) cs)) [
  | inr (old, e) ↦ (old, rw (e, insert_invoice) (e, refl))
  | inl none' ↦ (
    c,
    rw (none', insert_invoice)
        (
          find-append_new (is_invoice c.tenant_id c.fingerprint) cs c none'
              (ground (arith, str_eq_refl c.tenant_id, str_eq_refl c.fingerprint)),
          refl,
        ),
  )
]

-- A second row for the same invoice is not inserted, and the first one's identifier is answered.
insert_invoice-again :
    (c d : CanonicalInvoice) (cs : List CanonicalInvoice)
    → d.tenant_id ≡ c.tenant_id
    → d.fingerprint ≡ c.fingerprint
    → insert_invoice d (insert_invoice c cs).0 ≡ insert_invoice c cs
insert_invoice-again c d cs t f =
    let (o, (there, same)) = found_after c cs in
    insert_invoice-old d (insert_invoice c cs).0 o (
      subst (λ u. find (is_invoice u d.fingerprint) (insert_invoice c cs).0 ≡ some o) (sym t)
        (subst (λ u. find (is_invoice c.tenant_id u) (insert_invoice c cs).0 ≡ some o) (sym f)
          there))
    ∙ ap (λ k. ((insert_invoice c cs).0, k)) same

-- What an event stores: its identifier, its tenant and the invoice that is parsed from it.
abbrev Target : Type 0
Target = String × String × Invoice

target_of : Env → InboundEvent → Option Target
target_of env e = elim (extract_xml_url e) [
  | none ↦ none
  | some url ↦ elim (env.fetch_xml url) [
    | error_of why ↦ none
    | got xml ↦ elim (env.parse_invoice_xml xml) [
      | error_of why ↦ none
      | got invoice ↦ some (e.id, e.tenant_id, invoice)
    ]
  ]
]

target : Env → WorkerJobEnvelope → List InboundEvent → Option Target
target env job events = job.tenant_id >>= λ _. job.inbound_event_id >>= λ id.
    guard env.xml_parse_enabled >> (find (λ e. str_eq e.id id) events >>= target_of env)

find-set_event :
    (env : Env) (id k : String) (s : EventStatus) (m : Option (Option String))
    (es : List InboundEvent)
    → (find (λ e. str_eq e.id k) (set_event id s m es) >>= target_of env)
      ≡ (find (λ e. str_eq e.id k) es >>= target_of env)
unfolding set_event target_of extract_xml_url
find-set_event env id k s m [] = refl
find-set_event env id k s m (e ∷ es) = ground (arith, find-set_event env id k s m es)

target-set_event :
    (env : Env) (job : WorkerJobEnvelope) (id : String) (s : EventStatus)
    (m : Option (Option String)) (es : List InboundEvent)
    → target env job (set_event id s m es) ≡ target env job es
unfolding target
target-set_event env job id s m es = grind (arith, find-set_event env)

-- What storing a target leaves in the two tables.
unfoldable with_target :
    Env
    → Option Target
    → List CanonicalInvoice
    → List CanonicalItem
    → List CanonicalInvoice × List CanonicalItem
with_target env none cs xs = (cs, xs)
with_target env (some (id, tenant, invoice)) cs xs =
    let stored =
      insert_invoice
        (record {
          id = env.new_id;
          tenant_id = tenant;
          inbound_event_id = id;
          fingerprint = env.invoice_fingerprint tenant invoice;
          invoice = invoice;
        })
        cs in
    (stored.0, insert_items tenant stored.1 invoice.items xs)

with_target-again :
    (env : Env) (k : String) (o : Option Target) (cs : List CanonicalInvoice)
    (xs : List CanonicalItem)
    → with_target
        (record env { new_id = k })
        o
        (with_target env o cs xs).0
        (with_target env o cs xs).1
      ≡ with_target env o cs xs
unfolding with_target
with_target-again env k none cs xs = refl
with_target-again env k (some (id, tenant, invoice)) cs xs =
    let fp = env.invoice_fingerprint tenant invoice in
    let c : CanonicalInvoice = record {
      id = env.new_id;
      tenant_id = tenant;
      inbound_event_id = id;
      fingerprint = fp;
      invoice = invoice;
    } in
    let d : CanonicalInvoice = record {
      id = k;
      tenant_id = tenant;
      inbound_event_id = id;
      fingerprint = fp;
      invoice = invoice;
    } in
    let inv = (insert_invoice c cs).1 in
    let lines = insert_items tenant inv invoice.items xs in
    rw (insert_invoice-again c d cs refl refl) (
      ap (λ u. ((insert_invoice c cs).0, u))
        (insert_items-again tenant inv invoice.items lines
          (insert_items-IsStored tenant inv invoice.items xs)))

module _ (env : Env) (job : WorkerJobEnvelope) (db : Db) where
  process-tables :
      ((process_inbound env job db).0.invoices, (process_inbound env job db).0.items)
      ≡ with_target env (target env job db.events) db.invoices db.items
  unfolding process_inbound process_event store_invoice target target_of with_target
  process-tables = ground arith

  process-target : target env job (process_inbound env job db).0.events ≡ target env job db.events
  unfolding process_inbound process_event store_invoice
  process-target = grind (arith, target-set_event env job)

module _ (env : Env) (job : WorkerJobEnvelope) (db : Db) where
  -- An event that is processed again under the same settings, and for which the download, the parser and the
  -- fingerprint answer as they did in the first run, stores nothing new, with whatever identifier the
  -- database would give a new invoice: the invoices and their lines stay as the first run left them. This
  -- holds whether the first run stored an invoice or failed.
  pub process_inbound_again :
      (k : String)
      → let once = (process_inbound env job db).0 in
        let twice = (process_inbound (record env { new_id = k }) job once).0 in
        (twice.invoices ≡ once.invoices) × (twice.items ≡ once.items)
  unfolding target target_of
  process_inbound_again k =
      let once = (process_inbound env job db).0 in
      let again : Env = record env { new_id = k } in
      let o = target env job db.events in
      let first = process-tables env job db in
      let second = process-tables again job once in
      let same : target again job once.events ≡ o = process-target env job db in
      let both : (
        (process_inbound again job once).0.invoices,
        (process_inbound again job once).0.items,
      )
          ≡ (once.invoices, once.items) =
        second
        ∙ ap (λ u. with_target again u once.invoices once.items) same
        ∙ ap {A = List CanonicalInvoice × List CanonicalItem} (λ u. with_target again o u.0 u.1)
            first
        ∙ with_target-again env k o db.invoices db.items
        ∙ sym first in
      (
        ap {A = List CanonicalInvoice × List CanonicalItem} (λ u. u.0) both,
        ap {A = List CanonicalInvoice × List CanonicalItem} (λ u. u.1) both,
      )
