-- ===== src/Sync/Ordered.antt =====
-- What a run of the synchronisation orders (apps/worker/src/kiotviet-sync.ts).
use groceryclaw.Jobs.{WorkerJobEnvelope}
use groceryclaw.Sync.{
  PurchaseOrder, Platform, SyncDb, place_order, record_order, order_with, Creation, OrderLine,
  TokenSearch, refused, search_threw, created, token_is, find_token, sync_invoice, order_now,
  resolve_token, items_of, kiotviet_client_credentials, exchanged, Secret, try_orders, after_loop,
  tell, fail_sync, add_result, failure, is_retriable, taken_unseen, success, add_key,
}
use groceryclaw.Base.{
  ◌≢◌, ◌⊎◌, ℕ, suc, ◌+◌, ◌≤◌, String, Bool, true, false, ◌||◌, List, [], ◌∷◌, ◌++◌, Option, none,
  some, ◌≡◌, refl, inl, inr, if◌then◌else◌, Bool-cases, arith, ◌==◌, ◌∙◌, ap, str_eq, str_eq_iff,
  length, includes, Option-cases, not, zero,
}

-- The purchase orders that KiotViet has taken for an invoice.
unfoldable pub orders_for : (invoice : String) → List PurchaseOrder → ℕ
orders_for invoice [] = 0
orders_for invoice (o ∷ os) =
    let rest = orders_for invoice os in
    if str_eq o.canonical_invoice_id invoice then suc rest else rest

abbrev pub most : Bool → ℕ
most true = 1
most false = 0

-- An invoice that has an order has a key, and has one order.
abbrev pub IsOrderedOnce : SyncDb → Type 0
IsOrderedOnce db = (i : String) → orders_for i db.orders ≤ most (includes db.keys i)

orders_for-append :
    (i : String) (os : List PurchaseOrder) (o : PurchaseOrder)
    → orders_for i (os ++ o ∷ [])
      ≡ orders_for i os + (if str_eq o.canonical_invoice_id i then 1 else 0)
unfolding orders_for
orders_for-append i [] o = ground arith
orders_for-append i (p ∷ os) o = ground (arith, orders_for-append i os o)

includes-append :
    (ks : List String) (k i : String) → includes (ks ++ k ∷ []) i ≡ (includes ks i || str_eq k i)
includes-append [] k i = ground arith
includes-append (x ∷ ks) k i = ground (arith, includes-append ks k i)

pub same_orders :
    (u db : SyncDb) → u.orders ≡ db.orders → u.keys ≡ db.keys → IsOrderedOnce db → IsOrderedOnce u
same_orders u db orders keys h i =
    omega (arith, h i, ap (orders_for i) orders, ap (λ ks. most (includes ks i)) keys)

-- Looking for a token changes no order and no key.
pub find_token_keeps :
    (env : Platform) (now : ℕ) (s : Secret) (db : SyncDb)
    → ((find_token env now s db).0.orders ≡ db.orders)
      × ((find_token env now s db).0.keys ≡ db.keys)
unfolding find_token resolve_token exchanged
find_token_keeps env now s db = ground arith

-- The orders and the keys are those of before.
abbrev IsKept : SyncDb → SyncDb → Type 0
IsKept db u = (u.orders ≡ db.orders) × (u.keys ≡ db.keys)

kept-IsOrderedOnce : (u db : SyncDb) → IsKept db u → IsOrderedOnce db → IsOrderedOnce u
kept-IsOrderedOnce u db (orders, keys) = same_orders u db orders keys

-- A queue that takes every notice.
abbrev pub IsQueueUp : Platform → Type 0
IsQueueUp env = (results : ℕ) → env.queue_error results ≡ none

-- A call of KiotViet that ends in an error has left no order behind.
abbrev pub IsAnswered : Platform → Type 0
IsAnswered env =
    (calls : ℕ) (order : PurchaseOrder) (why : String)
    → env.create_purchase_order calls order ≢ taken_unseen why

module _ (env : Platform) (job : WorkerJobEnvelope) (invoice : String) (up : IsQueueUp env) where
  pub tell_lem : (message : String) (db : SyncDb) → (tell env job invoice message db).1 ≡ none
  unfolding tell
  tell_lem message db = ground (arith, up (length db.results))

module _ (env : Platform) (job : WorkerJobEnvelope) (invoice : String) (up : IsQueueUp env)
    (answered : IsAnswered env) where
  one_more :
      (db : SyncDb) (order : PurchaseOrder)
      → order.canonical_invoice_id ≡ invoice
      → includes db.keys invoice ≡ false
      → IsOrderedOnce db
      → (i : String)
      → orders_for i (db.orders ++ order ∷ []) ≤ most (includes (db.keys ++ invoice ∷ []) i)
  one_more db order e fresh h i = ground (
    arith,
    e,
    fresh,
    h i,
    h invoice,
    orders_for-append i db.orders order,
    includes-append db.keys invoice i,
    str_eq_iff invoice i,
    ap (λ j. str_eq j i) e,
  )

  tell-IsKept : (message : String) (db : SyncDb) → IsKept db (tell env job invoice message db).0
  unfolding tell
  tell-IsKept message db = ground arith

  fail_sync-IsOrderedOnce :
      (reason : String) (db : SyncDb)
      → IsOrderedOnce db
      → IsOrderedOnce (fail_sync env job invoice reason db).0
  fail_sync-IsOrderedOnce reason db h =
      let failed = add_result invoice failure reason db in
      kept-IsOrderedOnce (tell env job invoice reason failed).0 failed (tell-IsKept reason failed) h

  -- A call leaves the tables as they were, and an error, or makes the one order.
  IsTried : SyncDb → SyncDb × Option String → Type 0
  IsTried db r = IsOrderedOnce r.0 × ((r.1 ≡ none) ⊎ IsKept db r.0)

  record_order-IsTried :
      (order : PurchaseOrder) (c : Creation) (db : SyncDb)
      → order.canonical_invoice_id ≡ invoice
      → includes db.keys invoice ≡ false
      → ((why : String) → c ≢ taken_unseen why)
      → IsOrderedOnce db
      → IsTried db (record_order env job invoice order c db)
  unfolding record_order IsTried
  record_order-IsTried order (refused why) db e fresh seen h = (h, inr (refl, refl))
  record_order-IsTried order (taken_unseen why) db e fresh seen h = absurd (seen why refl)
  record_order-IsTried order (created ref) db e fresh seen h =
      let u =
        add_result invoice success ref (record db {
          orders = db.orders ++ order ∷ [];
          keys = add_key env job invoice db.keys;
        }) in
      let keys : add_key env job invoice db.keys ≡ db.keys ++ invoice ∷ [] = rw fresh refl in
      (
        kept-IsOrderedOnce (tell env job invoice ref u).0 u (tell-IsKept ref u)
            (λ i. rw keys (one_more db order e fresh h i)),
        inl (tell_lem env job invoice up ref u),
      )

  try_orders-IsOrderedOnce :
      (order : PurchaseOrder) (left : ℕ) (last : String) (db : SyncDb)
      → order.canonical_invoice_id ≡ invoice
      → includes db.keys invoice ≡ false
      → IsOrderedOnce db
      → IsOrderedOnce (try_orders env job invoice order left last db).0
  unfolding try_orders IsTried
  try_orders-IsOrderedOnce order zero last db e fresh h = h
  try_orders-IsOrderedOnce order (suc left) last db e fresh h =
      let called = record db { calls = suc db.calls } in
      let c = env.create_purchase_order db.calls order in
      let (once, kept) = record_order-IsTried order c called e fresh (answered db.calls order) h in
      elim (Option-cases (record_order env job invoice order c called).1) [
        | inl done ↦ rw (done, try_orders) once
        | inr (why, failed) ↦ elim (Bool-cases (not (is_retriable why) || left == 0)) [
          | inl last' ↦ rw (failed, last', try_orders) once
          | inr again ↦
              let keys : includes (record_order env job invoice order c called).0.keys invoice
                  ≡ false =
                elim kept [
                  | inl done ↦ absurd (ground (arith, done, failed))
                  | inr (_, same) ↦ ap (λ ks. includes ks invoice) same ∙ fresh
                ] in
              rw (failed, again, try_orders)
                (try_orders-IsOrderedOnce order left why
                  (record_order env job invoice order c called).0 e keys once)
        ]
      ]

  after_loop-IsOrderedOnce :
      (r : SyncDb × Option String)
      → IsOrderedOnce r.0
      → IsOrderedOnce (after_loop env job invoice r).0
  unfolding after_loop
  after_loop-IsOrderedOnce (db, none) h = h
  after_loop-IsOrderedOnce (db, some why) h = fail_sync-IsOrderedOnce why db h

  place_order-IsOrderedOnce :
      (token : String) (items : List OrderLine) (db : SyncDb)
      → includes db.keys invoice ≡ false
      → IsOrderedOnce db
      → IsOrderedOnce (place_order env job invoice token items db).0
  unfolding place_order
  place_order-IsOrderedOnce token items db fresh h =
      after_loop-IsOrderedOnce _ (try_orders-IsOrderedOnce _ env.max_retries "" db refl fresh h)

  order_with-IsOrderedOnce :
      (items : List OrderLine) (db : SyncDb) (s : TokenSearch)
      → includes db.keys invoice ≡ false
      → IsOrderedOnce db
      → IsOrderedOnce (order_with env job invoice items db s).0
  unfolding order_with
  order_with-IsOrderedOnce items db (search_threw m) fresh h = h
  order_with-IsOrderedOnce items db (token_is t) fresh h = elim (Bool-cases (str_eq t "")) [
    | inl empty' ↦ rw empty' (fail_sync-IsOrderedOnce "missing_active_secret" db h)
    | inr token ↦ rw token (place_order-IsOrderedOnce t items db fresh h)
  ]

  order_now-IsOrderedOnce :
      (mek : Bool) (now : ℕ) (items : List OrderLine) (db : SyncDb)
      → includes db.keys invoice ≡ false
      → IsOrderedOnce db
      → IsOrderedOnce (order_now env job invoice mek now items db).0
  unfolding order_now
  order_now-IsOrderedOnce false now items db fresh h = place_order-IsOrderedOnce "" items db fresh h
  order_now-IsOrderedOnce true now items db fresh h =
      let search = find_token env now (env.secret kiotviet_client_credentials) db in
      let (orders, keys) = find_token_keeps env now (env.secret kiotviet_client_credentials) db in
      order_with-IsOrderedOnce items search.0 search.1 (ap (λ ks. includes ks invoice) keys ∙ fresh)
        (same_orders search.0 db orders keys h)

  pub sync_invoice-IsOrderedOnce :
      (now : ℕ) (db : SyncDb)
      → IsOrderedOnce db
      → IsOrderedOnce (sync_invoice env job invoice now db).0
  unfolding sync_invoice
  sync_invoice-IsOrderedOnce now db h = elim (Bool-cases (includes db.keys invoice)) [
    | inl known ↦ rw (known, sync_invoice) h
    | inr fresh ↦ elim (Bool-cases (length (items_of invoice db.rows) == 0)) [
      | inl nothing' ↦
          rw (fresh, nothing', sync_invoice) (fail_sync-IsOrderedOnce "no_resolved_items" db h)
      | inr some' ↦ elim (Bool-cases (str_eq env.retailer "")) [
        | inl nobody ↦
            rw (fresh, some', nobody, sync_invoice)
              (fail_sync-IsOrderedOnce "missing_retailer" db h)
        | inr shop ↦
            rw (fresh, some', shop, sync_invoice)
              (order_now-IsOrderedOnce env.has_mek now (items_of invoice db.rows) db fresh h)
      ]
    ]
  ]
