-- ===== src/Sync/Notices.antt =====
-- What becomes of the notices about a synchronisation (apps/worker/src/kiotviet-sync.ts, and the validation of
-- packages/common/src/jobs.ts).
use groceryclaw.Inbound.Queued.{IsRefused}
use groceryclaw.Jobs.Valid.{validate, read_ids, nullable, as_non_empty_string, read_header}
use groceryclaw.Jobs.{WorkerJobEnvelope}
use groceryclaw.Sync.{
  Platform, SyncDb, refused, sync_notice, order_with, sync_for, order_now, record_order, find_token,
  sync_invoice, process_kiotviet_sync, resolve_token, PurchaseOrder, items_of, place_order,
  exchanged, Creation, OrderLine, TokenSearch, Secret, kiotviet_client_credentials, created,
  search_threw, token_is, after_loop, taken_unseen, tell, try_orders, is_retriable,
}
use groceryclaw.Base.{
  not, ◌||◌, ℕ, String, Bool, true, false, List, Option, none, some, ◌≡◌, refl, inl, inr,
  Option-cases, Bool-cases, arith, ◌==◌, str_eq, length, includes, All, All-append, subst, suc, sym,
  zero,
}

module _ (trim : String → String) (env : Platform) (job : WorkerJobEnvelope) where
  sync_notice-IsRefused : (message : String) → IsRefused trim (sync_notice job message)
  unfolding validate read_ids nullable as_non_empty_string
  sync_notice-IsRefused message = elim (Option-cases (read_header trim (sync_notice job message))) [
    | inl none' ↦ rw none' refl
    | inr (h, e) ↦ rw e (ground arith)
  ]

  -- Every notice of the queue is refused.
  abbrev AreRefused : SyncDb → Type 0
  AreRefused db = All (IsRefused trim) db.queue

  tell-AreRefused :
      (invoice message : String) (db : SyncDb)
      → AreRefused db
      → AreRefused (tell env job invoice message db).0
  unfolding tell
  tell-AreRefused invoice message db h = elim (Option-cases (env.queue_error (length db.results))) [
    | inl fine ↦
        rw (fine, tell)
          (All-append (IsRefused trim) db.queue _ h (sync_notice-IsRefused message, tt))
    | inr (why, e) ↦ rw (e, tell) h
  ]

  record_order-AreRefused :
      (invoice : String) (order : PurchaseOrder) (c : Creation) (db : SyncDb)
      → AreRefused db
      → AreRefused (record_order env job invoice order c db).0
  unfolding record_order
  record_order-AreRefused invoice order (refused why) db h = h
  record_order-AreRefused invoice order (taken_unseen why) db h = h
  record_order-AreRefused invoice order (created ref) db h = tell-AreRefused invoice ref _ h

  try_orders-AreRefused :
      (invoice : String) (order : PurchaseOrder) (left : ℕ) (last : String) (db : SyncDb)
      → AreRefused db
      → AreRefused (try_orders env job invoice order left last db).0
  unfolding try_orders
  try_orders-AreRefused invoice order zero last db h = h
  try_orders-AreRefused invoice order (suc left) last db h =
      let called = record db { calls = suc db.calls } in
      let r =
        record_order env job invoice order (env.create_purchase_order db.calls order) called in
      let refused' : AreRefused r.0 = record_order-AreRefused invoice order _ called h in
      elim (Option-cases r.1) [
        | inl done ↦ rw (done, try_orders) refused'
        | inr (why, e) ↦ elim (Bool-cases (not (is_retriable why) || left == 0)) [
          | inl last' ↦ rw (e, last', try_orders) refused'
          | inr again ↦
              rw (e, again, try_orders) (try_orders-AreRefused invoice order left why r.0 refused')
        ]
      ]

  after_loop-AreRefused :
      (invoice : String) (r : SyncDb × Option String)
      → AreRefused r.0
      → AreRefused (after_loop env job invoice r).0
  unfolding after_loop
  after_loop-AreRefused invoice (db, none) h = h
  after_loop-AreRefused invoice (db, some why) h = tell-AreRefused invoice why _ h

  order_with-AreRefused :
      (invoice : String) (items : List OrderLine) (db : SyncDb) (s : TokenSearch)
      → AreRefused db
      → AreRefused (order_with env job invoice items db s).0
  unfolding order_with place_order
  order_with-AreRefused invoice items db (search_threw m) h = h
  order_with-AreRefused invoice items db (token_is t) h = elim (Bool-cases (str_eq t "")) [
    | inl empty' ↦ rw empty' (tell-AreRefused invoice "missing_active_secret" _ h)
    | inr token ↦
        rw token (
          after_loop-AreRefused invoice _ (try_orders-AreRefused invoice _ env.max_retries "" db h))
  ]

  find_token_tells :
      (now : ℕ) (s : Secret) (db : SyncDb) → (find_token env now s db).0.queue ≡ db.queue
  unfolding find_token resolve_token exchanged
  find_token_tells now s db = ground arith

  order_now-AreRefused :
      (invoice : String) (mek : Bool) (now : ℕ) (items : List OrderLine) (db : SyncDb)
      → AreRefused db
      → AreRefused (order_now env job invoice mek now items db).0
  unfolding order_now place_order
  order_now-AreRefused invoice false now items db h =
      after_loop-AreRefused invoice _ (try_orders-AreRefused invoice _ env.max_retries "" db h)
  order_now-AreRefused invoice true now items db h =
      let search = find_token env now (env.secret kiotviet_client_credentials) db in
      order_with-AreRefused invoice items search.0 search.1
        (subst (All (IsRefused trim)) (sym (find_token_tells now _ db)) h)

  sync_invoice-AreRefused :
      (invoice : String) (now : ℕ) (db : SyncDb)
      → AreRefused db
      → AreRefused (sync_invoice env job invoice now db).0
  unfolding sync_invoice
  sync_invoice-AreRefused invoice now db h = elim (Bool-cases (includes db.keys invoice)) [
    | inl known ↦ rw (known, sync_invoice) h
    | inr fresh ↦ elim (Bool-cases (length (items_of invoice db.rows) == 0)) [
      | inl nothing' ↦
          rw (fresh, nothing', sync_invoice) (tell-AreRefused invoice "no_resolved_items" _ h)
      | inr some' ↦ elim (Bool-cases (str_eq env.retailer "")) [
        | inl nobody ↦
            rw (fresh, some', nobody, sync_invoice) (tell-AreRefused invoice "missing_retailer" _ h)
        | inr shop ↦
            rw (fresh, some', shop, sync_invoice)
              (order_now-AreRefused invoice env.has_mek now (items_of invoice db.rows) db h)
      ]
    ]
  ]

  sync_for-AreRefused :
      (tenant invoice : Option String) (enabled : Bool) (now : ℕ) (db : SyncDb)
      → AreRefused db
      → AreRefused (sync_for tenant invoice enabled env job now db).0
  unfolding sync_for
  sync_for-AreRefused none invoice enabled now db h = h
  sync_for-AreRefused (some tenant) none enabled now db h = h
  sync_for-AreRefused (some tenant) (some invoice) false now db h = h
  sync_for-AreRefused (some tenant) (some invoice) true now db h =
      sync_invoice-AreRefused invoice now db h

  -- Every notice that a synchronisation queues for the user, of success or of failure, is refused by the
  -- validation of jobs, since it names no inbound event, not even as null.
  pub process_kiotviet_sync-IsRefused :
      (now : ℕ) (db : SyncDb)
      → All (IsRefused trim) db.queue
      → All (IsRefused trim) (process_kiotviet_sync env job now db).0.queue
  unfolding process_kiotviet_sync
  process_kiotviet_sync-IsRefused now db h =
      sync_for-AreRefused job.tenant_id job.canonical_invoice_id env.sync_enabled now db h
