-- ===== src/Mapping/Resolve.antt =====
-- apps/worker/src/mapping-resolve.ts, `processMapResolve`. The texts of the messages and the audit log are
-- left out; the search of candidates and the language model are arguments.
use groceryclaw.Jobs.{WorkerJobEnvelope, Number}
use groceryclaw.Mapping.{
  Services, Tables, AiMatch, Line, Product, upsert_item, item_unresolved, Alias, ItemStatus, given,
  kiotviet_sync_of, learn, chat_of, q_pending, item_resolved, notice, item_pending,
}
use groceryclaw.Base.{
  ℕ, suc, String, Bool, true, false, ◌&&◌, List, [], ◌∷◌, ◌++◌, map, Option, none, some,
  if◌then◌else◌, leb, ltb, ◌==◌, str_eq, is_some, find, keep_if, length, ◌>>=◌,
}

pub record Progress : Type 0 where
  pub tables : Tables
  pub resolved : ℕ
  pub pending : List Line
  pub still : List Line

-- What the confidence of a match leads to.
pub data Tier : Type 0 where
  auto : (sku : String) → (confidence : ℕ) → Tier
  suggestion : (sku name : String) → (confidence : ℕ) → Tier
  unmatched : Tier

unfoldable pub tier_of : Option AiMatch → Tier
tier_of none = unmatched
tier_of (some m) = elim (given m.matched_code) [
  | none ↦ unmatched
  | some code ↦
      if leb 70 m.confidence then auto code m.confidence else elim (given m.matched_name) [
        | none ↦ unmatched
        | some name ↦ if leb 40 m.confidence then suggestion code name m.confidence else unmatched
      ]
]

module _ (env : Services) (job : WorkerJobEnvelope) (invoice : String) where
  -- Tier 1: a learned alias, or else the line's own SKU where the shop has it.
  unfoldable pub alias_sku : List Alias → Line → Option String
  alias_sku aliases line =
      find (λ a. str_eq (env.lower a.alias_text) (env.lower line.product_name)) aliases >>= λ a.
      given (some (env.trim a.target_sku))

  unfoldable pub verified_sku : List Product → Line → Option String
  verified_sku products line = given line.sku >>= λ s.
      find (λ p. str_eq p.sku s && p.active) products >>= λ p. given (some (env.trim p.sku))

  unfoldable pub known_sku : Tables → Line → Option String
  known_sku t line = elim (alias_sku t.aliases line) [
    | some s ↦ some s
    | none ↦ verified_sku t.products line
  ]

  unfoldable pub resolve_item : (sku : String) → Line → Tables → Tables
  resolve_item sku line t = record t {
    items =
        upsert_item
          (record {
            item_id = line.id;
            invoice_id = invoice;
            item_status = item_resolved;
            resolved_sku = some sku;
            resolved_unit = line.uom;
            quantity = line.quantity;
            unresolved_reason = none;
          })
          (λ old. record old {
            item_status = item_resolved;
            resolved_sku = some sku;
            resolved_unit = line.uom;
            quantity = line.quantity;
            unresolved_reason = none;
          })
          t.items;
  }

  unfoldable pub tier_one : List Line → Progress → Progress
  tier_one [] p = p
  tier_one (line ∷ lines) p = elim (known_sku p.tables line) [
    | some sku ↦
        tier_one lines
          (record p { tables = resolve_item sku line p.tables; resolved = suc p.resolved })
    | none ↦ tier_one lines (record p { still = p.still ++ line ∷ [] })
  ]

  -- A message is sent, and its question stored.
  unfoldable pub send_question :
      Number → (sku name : String) (confidence : ℕ) → Line → Tables → Tables
  send_question chat sku name confidence line t = record t {
    sent = suc t.sent;
    questions =
        t.questions
        ++ record {
          id = env.row_id (length t.questions);
          invoice_id = invoice;
          item_id = line.id;
          platform_user_id = job.platform_user_id;
          chat_id = chat;
          sent_message_id = env.message_id t.sent;
          product_name = line.product_name;
          suggested_sku = sku;
          suggested_name = name;
          confidence = confidence;
          question_status = q_pending;
          expires_at = env.expires_at;
        }
          ∷ [];
  }

  unfoldable pub suggest : Number → (sku name : String) (confidence : ℕ) → Line → Tables → Tables
  suggest chat sku name confidence line t = send_question chat sku name confidence line (record t {
    items =
        upsert_item
          (record {
            item_id = line.id;
            invoice_id = invoice;
            item_status = item_pending;
            resolved_sku = some sku;
            resolved_unit = line.uom;
            quantity = line.quantity;
            unresolved_reason = none;
          })
          (λ old. record old {
            item_status = item_pending;
            resolved_sku = some sku;
            resolved_unit = line.uom;
            quantity = line.quantity;
            unresolved_reason = none;
          })
          t.items;
  })

  -- `INSERT ... DO UPDATE SET status, unresolved_reason`
  unfoldable pub set_open_item : ItemStatus → (reason : String) → Line → Tables → Tables
  set_open_item s reason line t = record t {
    items =
        upsert_item
          (record {
            item_id = line.id;
            invoice_id = invoice;
            item_status = s;
            resolved_sku = none;
            resolved_unit = none;
            quantity = line.quantity;
            unresolved_reason = some reason;
          })
          (λ old. record old { item_status = s; unresolved_reason = some reason }) t.items;
  }

  unfoldable pub ask_for_sku : Number → (reason : String) → Line → Tables → Tables
  ask_for_sku chat reason line t =
      send_question chat "" "" 0 line (set_open_item item_pending reason line t)

  abbrev pub add_pending : (Tables → Tables) → Line → Progress → Progress
  add_pending f line p = record p { tables = f p.tables; pending = p.pending ++ line ∷ [] }

  -- Without a match to go by: the user is asked, or the line is marked.
  unfoldable pub ask_or_mark : (reason : String) → Line → Progress → Progress
  ask_or_mark reason line p = elim (chat_of job) [
    | some chat ↦ add_pending (ask_for_sku chat reason line) line p
    | none ↦ record p {
      tables = set_open_item item_unresolved reason line p.tables;
      still = p.still ++ line ∷ [];
    }
  ]

  unfoldable pub ask_each : (reason : String) → List Line → Progress → Progress
  ask_each reason [] p = p
  ask_each reason (line ∷ lines) p = ask_each reason lines (ask_or_mark reason line p)

  abbrev pub match_of : List AiMatch → Line → Option AiMatch
  match_of matches line =
      find
        (λ m.
          str_eq (env.lower m.invoice_product) (env.lower line.product_name)
          && is_some (given m.matched_code))
        matches

  -- Tier 2, by the confidence of the match.
  unfoldable pub place_match : Tier → Line → Progress → Progress
  place_match (auto sku confidence) line p = record p {
    tables =
        resolve_item sku line
          (record p.tables { aliases = learn line.product_name sku confidence p.tables.aliases });
    resolved = suc p.resolved;
  }
  place_match (suggestion sku name confidence) line p = elim (chat_of job) [
    | some chat ↦ add_pending (suggest chat sku name confidence line) line p
    | none ↦ record p { still = p.still ++ line ∷ [] }
  ]
  place_match unmatched line p = elim (chat_of job) [
    | some chat ↦ add_pending (ask_for_sku chat "mapping_not_found" line) line p
    | none ↦ record p { still = p.still ++ line ∷ [] }
  ]

  unfoldable pub place_each : List AiMatch → List Line → Progress → Progress
  place_each matches [] p = p
  place_each matches (line ∷ lines) p =
      place_each matches lines (place_match (tier_of (match_of matches line)) line p)

  unfoldable pub mark_each : List Line → Tables → Tables
  mark_each [] t = t
  mark_each (line ∷ lines) t =
      mark_each lines (set_open_item item_unresolved "mapping_not_found" line t)

  -- What is done with the lines that tier 1 leaves.
  unfoldable pub tier_two :
      Option (List String → List (String × String) → List AiMatch) → List Line → Progress → Progress
  tier_two none lines p = ask_each "mapping_not_found" lines p
  tier_two (some ai) lines p =
      let catalog = env.search_candidates p.tables.products lines in
      if length catalog == 0
      then ask_each "no_product_cache" lines p
      else (let q = place_each (ai (map Line.product_name lines) catalog) lines p in
          record q { tables = mark_each q.still q.tables })

  unfoldable pub start_progress : Tables → Progress
  start_progress t = record { tables = t; resolved = 0; pending = []; still = [] }

  -- The lines that tier 1 leaves stand in `still`, and go into tier 2.
  unfoldable pub resolve_lines : Tables → Progress
  resolve_lines t =
      let p = tier_one (keep_if (λ l. str_eq l.invoice_id invoice) t.lines) (start_progress t) in
      tier_two env.ai p.still (record p { still = [] })

  -- The summary, to the chat with a button or through the queue.
  unfoldable pub send_summary : Progress → Tables → Tables
  send_summary p t =
      if p.resolved == 0 && (length p.pending == 0 && length p.still == 0)
      then t
      else if env.miniapp && is_some (chat_of job)
      then record t { sent = suc t.sent }
      else record t { queue = t.queue ++ notice ∷ [] }

  unfoldable pub send_sync : Progress → Tables → Tables
  send_sync p t =
      if ltb 0 p.resolved && length p.pending == 0
      then record t { queue = t.queue ++ kiotviet_sync_of invoice ∷ [] }
      else t

-- The guards of the job; `some why` is the error that it throws.
unfoldable pub map_resolve_for :
    (tenant invoice : Option String) (enabled : Bool)
    → Services
    → WorkerJobEnvelope
    → Tables
    → Tables × Option String
map_resolve_for none invoice enabled env job t = (t, some "missing_tenant_id")
map_resolve_for (some tenant) none enabled env job t = (t, some "missing_canonical_invoice_id")
map_resolve_for (some tenant) (some invoice) false env job t = (t, none)
map_resolve_for (some tenant) (some invoice) true env job t =
    let p = resolve_lines env job invoice t in
    (send_sync env job invoice p (send_summary env job invoice p p.tables), none)

unfoldable pub process_map_resolve : Services → WorkerJobEnvelope → Tables → Tables × Option String
process_map_resolve env job t =
    map_resolve_for job.tenant_id job.canonical_invoice_id env.mapping_enabled env job t
