-- ===== src/Sync/Ended.antt =====
-- How a run of the synchronisation ends (apps/worker/src/kiotviet-sync.ts).
use groceryclaw.Sync.Ordered.{IsQueueUp, find_token_keeps, tell_lem}
use groceryclaw.Jobs.{WorkerJobEnvelope}
use groceryclaw.Sync.{
  Platform, SyncDb, place_order, order_with, OrderLine, TokenSearch, search_threw, token_is,
  find_token, sync_invoice, order_now, items_of, kiotviet_client_credentials, after_loop,
  add_result, failure,
}
use groceryclaw.Base.{
  ◌⊎◌, ℕ, String, Bool, true, false, List, Option, none, some, ◌≡◌, refl, inl, inr, Bool-cases,
  ◌==◌, ◌∙◌, str_eq, length, includes,
}

module _ (env : Platform) (job : WorkerJobEnvelope) (invoice : String) (up : IsQueueUp env) where
  -- A run without an error, or one that ordered nothing.
  abbrev pub Ends : SyncDb → SyncDb × Option String → Type 0
  Ends db r = (r.1 ≡ none) ⊎ (r.0.orders ≡ db.orders)

  after_loop-Ends :
      (db : SyncDb) (r : SyncDb × Option String) → Ends db (after_loop env job invoice r)
  unfolding after_loop
  after_loop-Ends db (u, none) = inl refl
  after_loop-Ends db (u, some why) =
      inl (tell_lem env job invoice up why (add_result invoice failure why u))

  order_with-Ends :
      (items : List OrderLine) (db : SyncDb) (s : TokenSearch)
      → Ends db (order_with env job invoice items db s)
  unfolding order_with place_order
  order_with-Ends items db (search_threw m) = inr refl
  order_with-Ends items db (token_is t) = elim (Bool-cases (str_eq t "")) [
    | inl empty' ↦ rw empty' (
        inl (
          tell_lem env job invoice up "missing_active_secret"
            (add_result invoice failure "missing_active_secret" db)))
    | inr token ↦ rw token (after_loop-Ends db _)
  ]

  order_now-Ends :
      (mek : Bool) (now : ℕ) (items : List OrderLine) (db : SyncDb)
      → Ends db (order_now env job invoice mek now items db)
  unfolding order_now place_order
  order_now-Ends false now items db = after_loop-Ends db _
  order_now-Ends true now items db =
      let search = find_token env now (env.secret kiotviet_client_credentials) db in
      let (orders, keys) = find_token_keeps env now (env.secret kiotviet_client_credentials) db in
      elim (order_with-Ends items search.0 search.1) [
        | inl done ↦ inl done
        | inr same ↦ inr (same ∙ orders)
      ]

  pub sync_invoice-Ends : (now : ℕ) (db : SyncDb) → Ends db (sync_invoice env job invoice now db)
  unfolding sync_invoice
  sync_invoice-Ends now db = elim (Bool-cases (includes db.keys invoice)) [
    | inl known ↦ rw (known, sync_invoice) (inl refl)
    | inr fresh ↦ elim (Bool-cases (length (items_of invoice db.rows) == 0)) [
      | inl nothing' ↦
          rw (fresh, nothing', sync_invoice)
            (inl (
              tell_lem env job invoice up "no_resolved_items"
                (add_result invoice failure "no_resolved_items" db)))
      | inr some' ↦ elim (Bool-cases (str_eq env.retailer "")) [
        | inl nobody ↦
            rw (fresh, some', nobody, sync_invoice)
              (inl (
                tell_lem env job invoice up "missing_retailer"
                  (add_result invoice failure "missing_retailer" db)))
        | inr shop ↦
            rw (fresh, some', shop, sync_invoice)
              (order_now-Ends env.has_mek now (items_of invoice db.rows) db)
      ]
    ]
  ]
