-- ===== src/Memory/Refined.antt =====
-- The two stores of apps/mcp-server/src/memory-store.ts and apps/mcp-server/src/pg-store.ts keep the same rules.
use groceryclaw.Memory.Rows.{IsTable}
use groceryclaw.Memory.Undo.{IsNewId}
use groceryclaw.Memory.InPostgres.{pg_store, pg-IsLawful}
use groceryclaw.Memory.InMemory.{memory_store, memory-IsLawful}
use groceryclaw.Memory.Postgres.{pg_list_preferences, by_age}
use groceryclaw.Memory.{list_preferences}
use groceryclaw.Memory.Store.{run, replay, AreFresh, rule-run, Change, shown_rule}
use groceryclaw.Base.{String, Bool, List, [], none, ◌≡◌, arith}

module _ (tenant : String) (before : String → String → Bool) where
  -- Both stores implement the map that takes a speaker, a kind and a subject to a rule: after any run of
  -- remembering and forgetting, from empty tables, what `listPreferences` of the store in memory shows and what
  -- that of the store in Postgres shows is for each of them the rule that the run gives it. To remember a rule
  -- sets that of its speaker, kind and subject; to forget is to delete, by the identifiers that the list shows,
  -- a speaker's rules that pass a test. Each new row's identifier is assumed to be none of those in its table.
  pub stores-replay :
      (cs : List Change)
      → AreFresh (memory_store tenant) IsNewId cs []
      → AreFresh (pg_store tenant before) IsNewId cs []
      → ((λ k. shown_rule (memory_store tenant) k (run (memory_store tenant) cs []))
          ≡ replay cs (λ k. none))
        × ((λ k. shown_rule (pg_store tenant before) k (run (pg_store tenant before) cs []))
            ≡ replay cs (λ k. none))
  unfolding list_preferences pg_list_preferences by_age
  stores-replay cs fresh fresh' = (
    rule-run (memory_store tenant) IsNewId (IsTable tenant) (memory-IsLawful tenant) cs []
        ((λ k. omega arith), tt) fresh,
    rule-run (pg_store tenant before) IsNewId (IsTable tenant) (pg-IsLawful tenant before) cs []
        ((λ k. omega arith), tt) fresh',
  )
