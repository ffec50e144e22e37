-- ===== src/Sync/Once.antt =====
-- At most one purchase order for an invoice (apps/worker/src/kiotviet-sync.ts).
use groceryclaw.Sync.Ended.{sync_invoice-Ends}
use groceryclaw.Sync.Ordered.{
  most, orders_for, IsQueueUp, IsAnswered, IsOrderedOnce, same_orders, sync_invoice-IsOrderedOnce,
}
use groceryclaw.Mapping.{given}
use groceryclaw.Jobs.{WorkerJobEnvelope}
use groceryclaw.Sync.{
  Platform, SyncDb, process_kiotviet_sync, sync_for, ResolvedRow, process_kiotviet_sync_job,
  in_transaction, in_session,
}
use groceryclaw.Base.{
  ◌⊎◌, ℕ, ◌≤◌, String, Bool, true, false, List, [], ◌∷◌, Option, none, some, ◌≡◌, refl, inl, inr,
  arith, ap, includes, Option-cases, All,
}

-- The tables after a run hold at most one order of each invoice, and so they do when it is undone.
abbrev IsSafeRun : SyncDb → SyncDb × Option String → Type 0
IsSafeRun db r = IsOrderedOnce r.0 × ((r.1 ≡ none) ⊎ (r.0.orders ≡ db.orders))

sync_for-IsSafeRun :
    (tenant invoice : Option String) (enabled : Bool) (env : Platform) (job : WorkerJobEnvelope)
    (now : ℕ) (db : SyncDb)
    → IsQueueUp env
    → IsAnswered env
    → IsOrderedOnce db
    → IsSafeRun db (sync_for tenant invoice enabled env job now db)
unfolding sync_for
sync_for-IsSafeRun none invoice enabled env job now db up answered h = (h, inr refl)
sync_for-IsSafeRun (some tenant) none enabled env job now db up answered h = (h, inr refl)
sync_for-IsSafeRun (some tenant) (some invoice) false env job now db up answered h = (h, inr refl)
sync_for-IsSafeRun (some tenant) (some invoice) true env job now db up answered h = (
  sync_invoice-IsOrderedOnce env job invoice up answered now db h,
  sync_invoice-Ends env job invoice up now db,
)

in_transaction-IsOrderedOnce :
    (redact : String → String) (db : SyncDb) (r : SyncDb × Option String)
    → IsOrderedOnce db
    → IsSafeRun db r
    → IsOrderedOnce (in_transaction redact db r).0
unfolding in_transaction
in_transaction-IsOrderedOnce redact db (u, none) h (once, ends) = once
in_transaction-IsOrderedOnce redact db (u, some why) h (once, inl done) =
    absurd (ground (arith, done))
in_transaction-IsOrderedOnce redact db (u, some why) h (once, inr same) =
    same_orders (record db { orders = u.orders; calls = u.calls; queue = u.queue }) db same refl h

in_session-IsOrderedOnce :
    (pool : Bool) (redact : String → String) (db : SyncDb) (r : SyncDb × Option String)
    → IsOrderedOnce db
    → IsSafeRun db r
    → IsOrderedOnce (in_session pool redact db r).0
unfolding in_session
in_session-IsOrderedOnce true redact db r h safe = in_transaction-IsOrderedOnce redact db r h safe
in_session-IsOrderedOnce false redact db r h safe = safe.0

process_kiotviet_sync_job-IsOrderedOnce :
    (env : Platform) (job : WorkerJobEnvelope) (now : ℕ) (db : SyncDb)
    → IsQueueUp env
    → IsAnswered env
    → IsOrderedOnce db
    → IsOrderedOnce (process_kiotviet_sync_job env job now db).0
unfolding process_kiotviet_sync_job process_kiotviet_sync
process_kiotviet_sync_job-IsOrderedOnce env job now db up answered h =
    let r = process_kiotviet_sync env job now db in
    let safe : IsSafeRun db r =
      sync_for-IsSafeRun job.tenant_id job.canonical_invoice_id env.sync_enabled env job now db up
        answered h in
    elim (Option-cases (given job.tenant_id)) [
      | inl none' ↦ rw (none', process_kiotviet_sync_job) h
      | inr (tenant, e) ↦
          rw (e, process_kiotviet_sync_job)
            (in_session-IsOrderedOnce env.has_pool env.redact_error db r h safe)
    ]

-- What happens to the tables of a tenant, one after the other: jobs, each with its platform, and other jobs
-- that change the lines.
pub data SyncSteps : List Platform → SyncDb → SyncDb → Type 0 where
  still : {db : SyncDb} → SyncSteps [] db db
  and_sync :
      {envs : List Platform} {t u : SyncDb}
      → SyncSteps envs t u
      → (env : Platform) (job : WorkerJobEnvelope) (now : ℕ)
      → SyncSteps (env ∷ envs) t (process_kiotviet_sync_job env job now u).0
  and_lines :
      {envs : List Platform} {t u : SyncDb}
      → SyncSteps envs t u
      → (rows : List ResolvedRow) → SyncSteps envs t (record u { rows = rows })

SyncSteps-IsOrderedOnce :
    {envs : List Platform} {t u : SyncDb}
    → SyncSteps envs t u
    → All IsAnswered envs
    → All IsQueueUp envs
    → IsOrderedOnce t
    → IsOrderedOnce u
SyncSteps-IsOrderedOnce still answered up h = h
SyncSteps-IsOrderedOnce (and_sync {u} s env job now) answered up h =
    process_kiotviet_sync_job-IsOrderedOnce env job now u up.0 answered.0
      (SyncSteps-IsOrderedOnce s answered.1 up.1 h)
SyncSteps-IsOrderedOnce (and_lines s rows) answered up h = SyncSteps-IsOrderedOnce s answered up h

most-le : (b : Bool) → most b ≤ 1
most-le true = omega arith
most-le false = omega arith

-- However often the jobs of an invoice run one after the other, each in its transaction, whatever their
-- settings, whatever KiotViet answers and however the lines change in between, KiotViet takes at most one
-- purchase order for each invoice, if it starts with none. This is provided that a call of KiotViet that ends
-- in an error has left no order behind, and that the queue takes the notices.
pub orders_for_le_one :
    {envs : List Platform} {t u : SyncDb}
    → SyncSteps envs t u
    → All IsAnswered envs
    → All IsQueueUp envs
    → t.orders ≡ []
    → (invoice : String) → orders_for invoice u.orders ≤ 1
unfolding orders_for
orders_for_le_one {t} {u} s answered up none' invoice = omega (
  arith,
  SyncSteps-IsOrderedOnce s answered up (λ i. ground (arith, ap (orders_for i) none')) invoice,
  most-le (includes u.keys invoice),
)
