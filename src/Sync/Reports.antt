-- ===== src/Sync/Reports.antt =====
-- What a run of the synchronisation writes down, and how often it calls KiotViet
-- (apps/worker/src/kiotviet-sync.ts).
use groceryclaw.Jobs.{WorkerJobEnvelope}
use groceryclaw.Sync.{
  Platform, try_orders, SyncDb, PurchaseOrder, place_order, record_order, OrderLine, order_with,
  sync_for, order_now, fail_sync, sync_invoice, find_token, created, process_kiotviet_sync,
  Creation, items_of, TokenSearch, resolve_token, skipped, kiotviet_client_credentials, failure,
  refused, success, exchanged, search_threw, token_is, Secret, is_retriable, taken_unseen,
  SyncStatus, add_result, tell, SyncResult, after_loop, add_key,
}
use groceryclaw.Base.{
  ◌++◌, ◌⊎◌, not, ◌||◌, ℕ, zero, suc, ◌+◌, ◌≤◌, String, Bool, true, false, List, [], ◌∷◌, Option,
  none, some, ◌≡◌, refl, inl, inr, Bool-cases, arith, ◌==◌, sym, ◌∙◌, ap, subst, str_eq, length,
  length-append, includes, Option-cases,
}

module _ (env : Platform) (job : WorkerJobEnvelope) (invoice : String) where
  abbrev pub result_of : SyncStatus → (detail : String) → SyncResult
  result_of s detail = record { invoice_id = invoice; sync_status = s; detail = detail }

  -- What a run writes: one result, or a success and then a failure, where queueing the notice of the success
  -- threw the failure's reason.
  abbrev pub IsWritten : (before after : List SyncResult) → Type 0
  IsWritten before after =
      ((s : SyncStatus) × (detail : String) × (after ≡ before ++ result_of s detail ∷ []))
      ⊎ ((ref : String) × (why : String) × (env.queue_error (suc (length before)) ≡ some why)
          × (after ≡ (before ++ result_of success ref ∷ []) ++ result_of failure why ∷ []))

  -- This, and no more calls than the settings allow.
  abbrev pub IsReported : SyncDb → SyncDb → Type 0
  IsReported db after =
      IsWritten db.results after.results × (after.calls ≤ db.calls + env.max_retries)

  tell_writes :
      (message : String) (db : SyncDb)
      → ((tell env job invoice message db).0.results ≡ db.results)
        × ((tell env job invoice message db).0.calls ≡ db.calls)
  unfolding tell
  tell_writes message db = ground arith

  tell-cases :
      (message : String) (db : SyncDb)
      → (tell env job invoice message db).1 ≡ env.queue_error (length db.results)
  unfolding tell
  tell-cases message db = ground arith

  fail_sync-IsReported :
      (reason : String) (db : SyncDb) → IsReported db (fail_sync env job invoice reason db).0
  fail_sync-IsReported reason db =
      let (results, calls) = tell_writes reason (add_result invoice failure reason db) in
      (inl (failure, reason, results), omega (arith, calls))

  -- The end of the loop: a success on record, an error and nothing written, or a success on record and the
  -- error of its notice.
  abbrev IsEnded : (before : List SyncResult) → SyncDb × Option String → Type 0
  IsEnded before r =
      ((r.1 ≡ none) × (ref : String) × (r.0.results ≡ before ++ result_of success ref ∷ []))
      ⊎ (((why : String) × (r.1 ≡ some why) × (r.0.results ≡ before))
          ⊎ ((why : String) × (ref : String) × (r.1 ≡ some why)
              × (env.queue_error (suc (length before)) ≡ some why)
              × (r.0.results ≡ before ++ result_of success ref ∷ [])))

  record_order-calls :
      (order : PurchaseOrder) (c : Creation) (db : SyncDb)
      → (record_order env job invoice order c db).0.calls ≡ db.calls
  unfolding record_order tell
  record_order-calls order (refused why) db = refl
  record_order-calls order (taken_unseen why) db = refl
  record_order-calls order (created ref) db = ground arith

  record_order-IsEnded :
      (order : PurchaseOrder) (c : Creation) (db : SyncDb)
      → IsEnded db.results (record_order env job invoice order c db)
  unfolding record_order
  record_order-IsEnded order (refused why) db = inr (inl (why, refl, refl))
  record_order-IsEnded order (taken_unseen why) db = inr (inl (why, refl, refl))
  record_order-IsEnded order (created ref) db =
      let u =
        add_result invoice success ref (record db {
          orders = db.orders ++ order ∷ [];
          keys = add_key env job invoice db.keys;
        }) in
      let (results, calls) = tell_writes ref u in
      let count : length u.results ≡ suc (length db.results) =
        length-append db.results (result_of success ref ∷ []) ∙ omega arith in
      let told = tell-cases ref u ∙ ap env.queue_error count in
      elim (Option-cases (env.queue_error (suc (length db.results)))) [
        | inl fine ↦ inl (told ∙ fine, ref, results)
        | inr (why, e) ↦ inr (inr (why, ref, told ∙ e, e, results))
      ]

  after_loop-IsReported :
      (db : SyncDb) (r : SyncDb × Option String)
      → IsEnded db.results r
      → r.0.calls ≤ db.calls + env.max_retries
      → IsReported db (after_loop env job invoice r).0
  unfolding after_loop
  after_loop-IsReported db (u, none) (inl (e, ref, results)) le = (inl (success, ref, results), le)
  after_loop-IsReported db (u, none) (inr (inl (why, e, results))) le = absurd (ground (arith, e))
  after_loop-IsReported db (u, none) (inr (inr (why, ref, e, failed, results))) le =
      absurd (ground (arith, e))
  after_loop-IsReported db (u, some w) (inl (e, ref, results)) le = absurd (ground (arith, e))
  after_loop-IsReported db (u, some w) (inr (inl (why, e, results))) le =
      let (written, calls) = tell_writes w (add_result invoice failure w u) in
      (
        inl (failure, w, written ∙ ap (λ rs. rs ++ result_of failure w ∷ []) results),
        omega (arith, calls, le),
      )
  after_loop-IsReported db (u, some w) (inr (inr (why, ref, e, failed, results))) le =
      let (written, calls) = tell_writes w (add_result invoice failure w u) in
      let same : why ≡ w = ground (arith, e) in
      (
        inr (
          ref,
          w,
          failed ∙ ap some same,
          written ∙ ap (λ rs. rs ++ result_of failure w ∷ []) results,
        ),
        omega (arith, calls, le),
      )

find_token_writes :
    (env : Platform) (now : ℕ) (s : Secret) (db : SyncDb)
    → ((find_token env now s db).0.results ≡ db.results)
      × ((find_token env now s db).0.calls ≡ db.calls)
unfolding find_token resolve_token exchanged
find_token_writes env now s db = ground arith

-- The queue's errors are not among those that KiotViet is called again for.
abbrev pub IsFinal : Platform → Type 0
IsFinal env =
    (results : ℕ) (why : String) → env.queue_error results ≡ some why → is_retriable why ≡ false

module _ (env : Platform) (job : WorkerJobEnvelope) (invoice : String) (final : IsFinal env) where
  try_orders-IsEnded :
      (order : PurchaseOrder) (left : ℕ) (last : String) (db : SyncDb)
      → IsEnded env job invoice db.results (try_orders env job invoice order left last db)
        × ((try_orders env job invoice order left last db).0.calls ≤ db.calls + left)
  unfolding try_orders
  try_orders-IsEnded order zero last db = (inr (inl (last, refl, refl)), omega arith)
  try_orders-IsEnded order (suc left) last db =
      let called = record db { calls = suc db.calls } in
      let c = env.create_purchase_order db.calls order in
      let r = record_order env job invoice order c called in
      let calls = record_order-calls env job invoice order c called in
      elim (record_order-IsEnded env job invoice order c called) [
        | inl (done, ref, results) ↦
            rw (done, try_orders) (inl (refl, ref, results), omega (arith, calls))
        | inr (inl (why, failed, results)) ↦
            elim (Bool-cases (not (is_retriable why) || left == 0)) [
              | inl last' ↦
                  rw (failed, last', try_orders)
                    (inr (inl (why, refl, results)), omega (arith, calls))
              | inr again ↦
                  let (more, le) = try_orders-IsEnded order left why r.0 in
                  rw (failed, again, try_orders)
                    (
                      subst
                          (λ rs.
                            IsEnded env job invoice rs
                              (try_orders env job invoice order left why r.0))
                          results more,
                      omega (arith, calls, le),
                    )
            ]
        | inr (inr (why, ref, failed, e, results)) ↦
            elim (Bool-cases (not (is_retriable why) || left == 0)) [
              | inl last' ↦
                  rw (failed, last', try_orders)
                    (inr (inr (why, ref, refl, e, results)), omega (arith, calls))
              | inr again ↦ absurd (ground (arith, again, final _ why e))
            ]
      ]

  place_order-IsReported :
      (token : String) (items : List OrderLine) (db : SyncDb)
      → IsReported env job invoice db (place_order env job invoice token items db).0
  unfolding place_order
  place_order-IsReported token items db =
      let (ended, le) = try_orders-IsEnded _ env.max_retries "" db in
      after_loop-IsReported env job invoice db _ ended le

  order_with-IsReported :
      (items : List OrderLine) (db : SyncDb) (s : TokenSearch)
      → (order_with env job invoice items db s).1 ≡ none
      → IsReported env job invoice db (order_with env job invoice items db s).0
  unfolding order_with
  order_with-IsReported items db (search_threw m) e = absurd (ground (arith, e))
  order_with-IsReported items db (token_is t) e = elim (Bool-cases (str_eq t "")) [
    | inl empty' ↦ rw empty' (fail_sync-IsReported env job invoice "missing_active_secret" db)
    | inr token ↦ rw token (place_order-IsReported t items db)
  ]

  order_now-IsReported :
      (mek : Bool) (now : ℕ) (items : List OrderLine) (db : SyncDb)
      → (order_now env job invoice mek now items db).1 ≡ none
      → IsReported env job invoice db (order_now env job invoice mek now items db).0
  unfolding order_now
  order_now-IsReported false now items db e = place_order-IsReported "" items db
  order_now-IsReported true now items db e =
      let search = find_token env now (env.secret kiotviet_client_credentials) db in
      let (results, calls) =
        find_token_writes env now (env.secret kiotviet_client_credentials) db in
      let (more, le) = order_with-IsReported items search.0 search.1 e in
      (
        subst
            (λ rs.
              IsWritten env job invoice rs
                (order_with env job invoice items search.0 search.1).0.results)
            results more,
        omega (arith, le, calls),
      )

  sync_invoice-IsReported :
      (now : ℕ) (db : SyncDb)
      → includes db.keys invoice ≡ false
      → (sync_invoice env job invoice now db).1 ≡ none
      → IsReported env job invoice db (sync_invoice env job invoice now db).0
  unfolding sync_invoice
  sync_invoice-IsReported now db fresh =
      elim (Bool-cases (length (items_of invoice db.rows) == 0)) [
        | inl nothing' ↦ λ _.
            rw (fresh, nothing', sync_invoice)
              (fail_sync-IsReported env job invoice "no_resolved_items" db)
        | inr some' ↦ elim (Bool-cases (str_eq env.retailer "")) [
          | inl nobody ↦ λ _.
              rw (fresh, some', nobody, sync_invoice)
                (fail_sync-IsReported env job invoice "missing_retailer" db)
          | inr shop ↦
              rw (fresh, some', shop, sync_invoice)
                (order_now-IsReported env.has_mek now (items_of invoice db.rows) db)
        ]
      ]

sync_for-IsReported :
    (tenant : Option String) (invoice : String) (enabled : Bool) (env : Platform)
    (job : WorkerJobEnvelope) (now : ℕ) (db : SyncDb)
    → IsFinal env
    → includes db.keys invoice ≡ false
    → (sync_for tenant (some invoice) enabled env job now db).1 ≡ none
    → IsReported env job invoice db (sync_for tenant (some invoice) enabled env job now db).0
unfolding sync_for
sync_for-IsReported none invoice enabled env job now db final fresh e = absurd (ground (arith, e))
sync_for-IsReported (some tenant) invoice false env job now db final fresh e =
    (inl (skipped, "sync_disabled", refl), omega arith)
sync_for-IsReported (some tenant) invoice true env job now db final fresh e =
    sync_invoice-IsReported env job invoice final now db fresh e

-- A run that throws no error, for an invoice that has no key yet, calls KiotViet at most as often as the
-- settings allow and adds to the results exactly one, of this invoice, or else exactly two of it: a success,
-- and a failure whose reason is the error that queueing the notice of the success threw. This is of a queue
-- whose errors do not look like those of KiotViet that are tried again.
pub process_kiotviet_sync-IsReported :
    (env : Platform) (job : WorkerJobEnvelope) (now : ℕ) (invoice : String) (db : SyncDb)
    → IsFinal env
    → job.canonical_invoice_id ≡ some invoice
    → includes db.keys invoice ≡ false
    → (process_kiotviet_sync env job now db).1 ≡ none
    → IsReported env job invoice db (process_kiotviet_sync env job now db).0
unfolding process_kiotviet_sync
process_kiotviet_sync-IsReported env job now invoice db final e fresh =
    let same : process_kiotviet_sync env job now db
        ≡ sync_for job.tenant_id (some invoice) env.sync_enabled env job now db =
      ap (λ i. sync_for job.tenant_id i env.sync_enabled env job now db) e in
    subst (λ r. r.1 ≡ none → IsReported env job invoice db r.0) (sym same)
      (sync_for-IsReported job.tenant_id invoice env.sync_enabled env job now db final fresh)
