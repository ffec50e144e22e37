-- ===== src/Sync.antt =====
-- apps/worker/src/kiotviet-sync.ts: the resolved lines of an invoice become a purchase order of KiotViet, in
-- the transaction that `processKiotvietSyncJob` of apps/worker/src/index.ts opens. The tables are those of one
-- tenant; what KiotViet has taken is `orders`. A row of a query is read as it is stored. A call of KiotViet
-- and the queue may fail. The audit log and the pause between two calls are left out.
mod Ordered
mod Ended
mod Once
mod Reports
mod Notices
mod Examples
use groceryclaw.Jobs.Again.{of_nullable, of_number}
use groceryclaw.Jobs.{Payload, WorkerJobEnvelope, scalar, str, object, missing}
use groceryclaw.Mapping.{is_item_resolved, given, ItemStatus}
use groceryclaw.Base.{
  ℕ, zero, suc, ◌+◌, ◌-◌, ◌*◌, ◌/◌, ◌%◌, ◌≤◌, ◌<◌, ◌↔◌, ◌⊎◌, String, Bool, true, false, not, ◌&&◌,
  ◌||◌, List, [], ◌∷◌, ◌++◌, map, Option, none, some, ◌≡◌, refl, ◌≢◌, inl, inr, if◌then◌else◌,
  Option-cases, Bool-cases, arith, leb, ltb, ◌==◌, sym, ◌∙◌, ap, subst, str_eq, str_eq_iff,
  str_eq_refl, is_some, any, find, keep_if, length, length-append, guard, ◌>>=◌, ◌>>◌, includes,
  get_or_else, All, max, min, drop,
}

pub record ResolvedRow : Type 0 where
  pub invoice_id : String
  pub item_status : ItemStatus
  pub resolved_sku : Option String
  pub quantity : ℕ
  pub unit_price : ℕ

pub record OrderLine : Type 0 where
  pub sku : String
  pub quantity : ℕ
  pub price : ℕ

pub record PurchaseOrder : Type 0 where
  pub canonical_invoice_id : String
  pub items : List OrderLine
  pub auth_token : String
  pub retailer : String

-- What `createPurchaseOrder` returns or throws. An error may come after KiotViet took the order: the call was
-- aborted when its time was over, or the answer could not be read.
pub data Creation : Type 0 where
  created : (external_reference_id : String) → Creation
  refused : (message : String) → Creation
  taken_unseen : (message : String) → Creation

pub data SyncStatus : Type 0 where
  success failure skipped : SyncStatus

-- A row of `sync_results`: its reference, or the reason.
pub record SyncResult : Type 0 where
  pub invoice_id : String
  pub sync_status : SyncStatus
  pub detail : String

pub record SyncDb : Type 0 where
  pub rows : List ResolvedRow
  pub keys : List String
  pub results : List SyncResult
  pub token_cache : Option (String × ℕ)
  pub orders : List PurchaseOrder
  pub calls : ℕ
  pub queue : List Payload

pub data SecretType : Type 0 where
  kiotviet_client_credentials kiotviet_token : SecretType

pub record SecretPayload : Type 0 where
  pub client_id : Option String
  pub client_secret : Option String
  pub token : Option String

-- The active secret of a tenant, after its decryption.
pub data Secret : Type 0 where
  absent : Secret
  unreadable : (message : String) → Secret
  readable : SecretPayload → Secret

-- The platform, KiotViet and the settings. `create_purchase_order` is told how many calls came before, and
-- `queue_error`, the error that queueing a notice throws, how many results stand in the table.
pub record Platform : Type 0 where
  pub sync_enabled : Bool
  pub max_retries : ℕ
  pub has_mek : Bool
  pub retailer : String
  pub trim : String → String
  pub text_length : String → ℕ
  pub secret : SecretType → Secret
  pub exchange : (client_id client_secret : String) → Option (String × Option ℕ)
  pub create_purchase_order : (calls : ℕ) → PurchaseOrder → Creation
  pub queue_error : (results : ℕ) → Option String
  pub has_pool : Bool
  pub redact_error : String → String

-- apps/worker/src/kiotviet-adapter.ts, `isRetriableKiotvietError`
abbrev pub is_retriable : String → Bool
is_retriable m = includes ("kv_rate_limited" ∷ "kv_server_error" ∷ "kv_timeout" ∷ []) m

unfoldable pub cached_token : Platform → (now : ℕ) → Option (String × ℕ) → Option String
cached_token env now none = none
cached_token env now (some (token, expires_at)) =
    if ltb now expires_at && ltb 10 (env.text_length (env.trim token))
    then some (env.trim token)
    else none

-- The token that the credentials were exchanged for, which is kept until a minute before its end.
unfoldable pub exchanged : (now : ℕ) → Option (String × Option ℕ) → SyncDb → SyncDb × Option String
exchanged now none db = (db, none)
exchanged now (some (token, expires_in)) db = if str_eq token "" then (db, none) else (
  record db { token_cache = some (token, now + get_or_else expires_in 3600 * 1000 - 60000) },
  some token,
)

-- `resolveKiotvietOAuthToken`
unfoldable pub resolve_token :
    Platform
    → (now : ℕ) → (client_id client_secret : Option String) → SyncDb
    → SyncDb × Option String
resolve_token env now none client_secret db = (db, none)
resolve_token env now (some id) none db = (db, none)
resolve_token env now (some id) (some s) db = elim (cached_token env now db.token_cache) [
  | some token ↦ (db, some token)
  | none ↦ exchanged now (env.exchange id s) db
]

-- The token of the job: empty where there is none, or the error that reading a secret throws.
pub data TokenSearch : Type 0 where
  token_is : String → TokenSearch
  search_threw : (message : String) → TokenSearch

unfoldable pub legacy_token : (trim : String → String) → Secret → TokenSearch
legacy_token trim absent = token_is ""
legacy_token trim (unreadable m) = search_threw m
legacy_token trim (readable p) = elim p.token [
  | none ↦ token_is ""
  | some t ↦ if str_eq (trim t) "" then token_is "" else token_is t
]

unfoldable pub find_token : Platform → (now : ℕ) → Secret → SyncDb → SyncDb × TokenSearch
find_token env now absent db = (db, legacy_token env.trim (env.secret kiotviet_token))
find_token env now (unreadable m) db = (db, search_threw m)
find_token env now (readable p) db =
    let r = resolve_token env now (given p.client_id) (given p.client_secret) db in
    (
      r.0,
      elim r.1 [ some t ↦ token_is t | none ↦ legacy_token env.trim (env.secret kiotviet_token) ],
    )

abbrev pub is_resolved_row : (invoice : String) → ResolvedRow → Bool
is_resolved_row invoice r =
    str_eq r.invoice_id invoice
    && (is_item_resolved r.item_status && (is_some (given r.resolved_sku) && ltb 0 r.quantity))

abbrev pub order_line : ResolvedRow → OrderLine
order_line r = record {
  sku = get_or_else r.resolved_sku "";
  quantity = r.quantity;
  price = r.unit_price;
}

abbrev pub items_of : (invoice : String) → List ResolvedRow → List OrderLine
items_of invoice rows = map order_line (keep_if (is_resolved_row invoice) rows)

-- The notice to the user: it has no `inbound_event_id`.
abbrev pub sync_notice : WorkerJobEnvelope → (message : String) → Payload
sync_notice job message = record {
  job_type = scalar (str "NOTIFY_USER");
  notification_type = scalar (str "GENERIC_INFO");
  tenant_id = of_nullable job.tenant_id;
  platform_user_id = scalar (str job.platform_user_id);
  telegram_chat_id = of_number job.telegram_chat_id;
  correlation_id = scalar (str job.correlation_id);
  message_id = scalar (str job.message_id);
  template_vars = object (("message", str message) ∷ []);
  inbound_event_id = missing;
  user_id = missing;
  file_id = missing;
  canonical_invoice_id = missing;
  enqueued_at_ms = missing;
  message_text = missing;
  reply_to_message_id = missing;
}

abbrev pub add_result : (invoice : String) → SyncStatus → (detail : String) → SyncDb → SyncDb
add_result invoice s detail db = record db {
  results = db.results ++ record { invoice_id = invoice; sync_status = s; detail = detail } ∷ [];
}

module _ (env : Platform) (job : WorkerJobEnvelope) (invoice : String) where
  unfoldable pub tell : (message : String) → SyncDb → SyncDb × Option String
  tell message db = elim (env.queue_error (length db.results)) [
    | none ↦ (record db { queue = db.queue ++ sync_notice job message ∷ [] }, none)
    | some why ↦ (db, some why)
  ]

  -- An invoice that is not synchronised: the result, and a notice.
  abbrev pub fail_sync : (reason : String) → SyncDb → SyncDb × Option String
  fail_sync reason db = tell reason (add_result invoice failure reason db)

  -- `INSERT INTO idempotency_keys ... ON CONFLICT DO NOTHING`
  abbrev pub add_key : List String → List String
  add_key keys = if includes keys invoice then keys else keys ++ invoice ∷ []

  -- What one call of KiotViet leads to, inside the `try`: a success is kept under the key of the invoice and
  -- told to the user. `some why` is the error that is caught.
  unfoldable pub record_order : PurchaseOrder → Creation → SyncDb → SyncDb × Option String
  record_order order (refused why) db = (db, some why)
  record_order order (taken_unseen why) db =
      (record db { orders = db.orders ++ order ∷ [] }, some why)
  record_order order (created ref) db = tell ref (
      add_result invoice success ref
        (record db { orders = db.orders ++ order ∷ []; keys = add_key db.keys }))

  -- The loop: the attempts that are left and the last error, which stands behind the tables at its end.
  unfoldable pub try_orders :
      PurchaseOrder → (left : ℕ) → (last_error : String) → SyncDb → SyncDb × Option String
  try_orders order zero last_error db = (db, some last_error)
  try_orders order (suc left) last_error db =
      let r =
        record_order order (env.create_purchase_order db.calls order)
          (record db { calls = suc db.calls }) in
      elim r.1 [
        | none ↦ (r.0, none)
        | some why ↦
            let rest = try_orders order left why r.0 in
            if not (is_retriable why) || left == 0 then (r.0, some why) else rest
      ]

  -- After the loop: without a success, the last error is the result.
  unfoldable pub after_loop : SyncDb × Option String → SyncDb × Option String
  after_loop (db, none) = (db, none)
  after_loop (db, some why) = fail_sync why db

  unfoldable pub place_order : (token : String) → List OrderLine → SyncDb → SyncDb × Option String
  place_order token items db =
      let order : PurchaseOrder = record {
        canonical_invoice_id = invoice;
        items = items;
        auth_token = token;
        retailer = env.retailer;
      } in
      after_loop (try_orders order env.max_retries "" db)

  -- With a key for the secrets, an order needs a token.
  unfoldable pub order_with : List OrderLine → SyncDb → TokenSearch → SyncDb × Option String
  order_with items db (search_threw m) = (db, some m)
  order_with items db (token_is t) =
      if str_eq t "" then fail_sync "missing_active_secret" db else place_order t items db

  unfoldable pub order_now :
      (has_mek : Bool) → (now : ℕ) → List OrderLine → SyncDb → SyncDb × Option String
  order_now false now items db = place_order "" items db
  order_now true now items db =
      let search = find_token env now (env.secret kiotviet_client_credentials) db in
      order_with items search.0 search.1

  unfoldable pub sync_invoice : (now : ℕ) → SyncDb → SyncDb × Option String
  sync_invoice now db =
      let items = items_of invoice db.rows in
      if includes db.keys invoice
      then (db, none)
      else if length items == 0
      then fail_sync "no_resolved_items" db
      else if str_eq env.retailer ""
      then fail_sync "missing_retailer" db
      else order_now env.has_mek now items db

-- The guards of the job; `some why` is the error that it throws.
unfoldable pub sync_for :
    (tenant invoice : Option String) (enabled : Bool)
    → Platform
    → WorkerJobEnvelope
    → (now : ℕ) → SyncDb
    → SyncDb × Option String
sync_for none invoice enabled env job now db = (db, some "invalid_sync_job")
sync_for (some tenant) none enabled env job now db = (db, some "invalid_sync_job")
sync_for (some tenant) (some invoice) false env job now db =
    (add_result invoice skipped "sync_disabled" db, none)
sync_for (some tenant) (some invoice) true env job now db = sync_invoice env job invoice now db

unfoldable pub process_kiotviet_sync :
    Platform → WorkerJobEnvelope → (now : ℕ) → SyncDb → SyncDb × Option String
process_kiotviet_sync env job now db =
    sync_for job.tenant_id job.canonical_invoice_id env.sync_enabled env job now db

-- packages/common/src/pg.ts, `runTenantScopedTransaction`: an error undoes the statements, and neither the calls
-- of KiotViet nor what was queued; its message is redacted.
unfoldable pub in_transaction :
    (redact_error : String → String) → SyncDb → SyncDb × Option String → SyncDb × Option String
in_transaction redact_error before (after, none) = (after, none)
in_transaction redact_error before (after, some why) = (
  record before { orders = after.orders; calls = after.calls; queue = after.queue },
  some (redact_error why),
)

unfoldable pub in_session :
    (has_pool : Bool)
    → (redact_error : String → String) → SyncDb
    → SyncDb × Option String
    → SyncDb × Option String
in_session true redact_error before r = in_transaction redact_error before r
in_session false redact_error before r = r

-- `processKiotvietSyncJob`
unfoldable pub process_kiotviet_sync_job :
    Platform → WorkerJobEnvelope → (now : ℕ) → SyncDb → SyncDb × Option String
process_kiotviet_sync_job env job now db = elim (given job.tenant_id) [
  | none ↦ (db, some "kiotviet_sync_missing_tenant")
  | some tenant ↦ in_session env.has_pool env.redact_error db (process_kiotviet_sync env job now db)
]
