-- ===== src/Lib.antt =====
-- GroceryClaw, a voice and chat assistant for small grocery shops: models of the parts that carry its
-- own logic, and what is proved of them. Each file opens with the source file that it models; paths
-- are those of the repository.
--
-- - OAuth: the authorization server in front of the shop tools. OAuth.antt holds the records and the
--   state of apps/mcp-server/src/oauth/store.ts (`MemoryOAuthStore`): the Maps are association lists in
--   insertion order (Base/Assoc.antt). OAuth/Clients, Accounts, Codes and Tokens are its calls;
--   OAuth/Login and OAuth/Exchange are the sign-in and the token endpoint of
--   apps/mcp-server/src/oauth/server.ts. OAuth/History has the calls as a step relation; the proofs on
--   runs of it stand in Tracking, Families, Replay, CodeUse, Access and WellFormed. SignUp is on the
--   life of an account.
-- - Shop: the purchase-order drafts of apps/mcp-server/src/memory-store.ts and the tool
--   `confirm_reorder` of apps/mcp-server/src/tools.ts. A draft is made by `create_drafts` and confirmed
--   by the digest of its token.
-- - Agent: a turn of the voice host, apps/alexa-sim/src/agent.ts: Agent/Turn has the host's rules for
--   one tool call, Agent/Rounds the loop over the brain's answers and the trimming of the history.
-- - Limits: the token buckets of packages/common/src/rate-limiter.ts, the notifier's limits of
--   packages/common/src/notifier-rate-limit.ts and the daily guard of apps/alexa-sim/src/spend-guard.ts.
-- - Memory: the standing rules that an owner asks the shop to remember: the preferences of
--   apps/mcp-server/src/memory-store.ts and the tools of apps/mcp-server/src/memory-tools.ts. Memory/Apply is
--   `applyPreferences` of apps/mcp-server/src/preferences.ts, whose functions on words are arguments.
--   Memory/Store is the interface to the rules that two stores implement: Memory/InMemory, and
--   Memory/InPostgres over the statements of apps/mcp-server/src/pg-store.ts in Memory/Postgres.
-- - Reorder: how much to order of a product, apps/mcp-server/src/analytics.ts; exact fractions stand for
--   the code's floating-point numbers.
-- - Queue: a job of packages/common/src/bullmq-lite.ts, its attempts and their backoff.
-- - Jobs: the job envelopes of the worker and their validation, packages/common/src/jobs.ts. A value of the
--   JSON text is a data type with what the code tells apart.
-- - Fetch: the guards on URLs and the download of packages/common/src/ssrf-fetcher.ts.
-- - Gateway: the updates of the Telegram bot, apps/gateway/src/server.ts. Gateway/Update parses one
--   (packages/common/src/telegram-types.ts), Gateway/Invite looks for a code of invitation
--   (packages/common/src/invite-intent.ts), Gateway/Linked and Gateway/Route have the tables and the message of
--   a member of a shop, Gateway/Handle the whole of one update, Gateway/Server the webhook with its secret
--   (packages/common/src/telegram-webhook-auth.ts) and the polling loop.
-- - Inbound: the pipeline for XML invoices, apps/worker/src/process-inbound.ts: the tables are lists.
-- - Mapping: the products of an invoice's lines. Mapping/Resolve is apps/worker/src/mapping-resolve.ts,
--   Mapping/Answer is apps/worker/src/process-confirm-mapping.ts and the expiry of questions of
--   apps/worker/src/notifier.ts; Asked and Reach have the jobs as a step relation.
-- - Sync: the purchase order that is made of an invoice's resolved lines, apps/worker/src/kiotviet-sync.ts. The
--   queue may fail, and KiotViet may take an order without an answer.
-- - Notify: the notifier, apps/worker/src/notifier.ts: Notify.antt has the rows that wait for a user,
--   Notify/Send the sending under the limits of Limits/Notifier, and the flush.
-- - Worker: the dispatch of a job and what becomes of its errors, apps/worker/src/index.ts, over the states of
--   Inbound, Mapping, Sync and Notify.
--
-- How they interact: the voice host (Agent) calls the shop's tools, of which Shop models `confirm_reorder`
-- and Memory the rules; the tools' server lets a request in by a token of OAuth. The Limits guard the
-- notifier and the voice host. The Gateway turns a message of Telegram into a job, with the questions of
-- Mapping that wait for an answer and the Limits on invitations. The Worker takes a job of the Queue,
-- validates it (Jobs), and runs its handler: Inbound stores an invoice and queues the job that
-- Mapping/Resolve handles, whose questions Mapping/Answer takes the answers to; Sync makes the purchase
-- order in the end.
--
-- What the models fix. A call of a store reads the clock once, and its time is an argument; where the
-- source reads it twice the model has two times (`now` and `later`). Identifiers, digests, password
-- checks, pattern tests and the shop's provisioning are arguments. Numbers are natural numbers: a
-- difference that may be negative is written out by cases. The loop of a voice turn runs for at most 4
-- rounds, as in the code, by recursion on the rounds left. The runs of a queued job are counted on fuel,
-- which is at least the number of its attempts; the calls of a purchase order by recursion on the
-- attempts that are left. All other recursion is on lists and on JSON values.
-- In the limiters, token counts are in 60 000ths of a token and money in a fixed fraction of a dollar, so
-- that rounding of floating-point numbers is not modelled. Each asynchronous call runs to its end before
-- the next, except that a sign-up is also split into its check and its commit.
--
-- Not modelled: the other HTTP servers and the pages, the operator endpoints and metrics of the gateway,
-- the other statements of the Postgres stores, the Redis lists, the other handlers of the worker, the
-- invoice parsers, the adapters of other services, the brains themselves, and speech. A tool call that
-- throws an exception in a voice turn, latencies and token usage are left out as well, and so are SQL
-- statements that fail and transactions that are rolled back, except the one that consumes an invitation and that of a synchronisation.
pub mod Agent
pub mod Base
pub mod Fetch
pub mod Gateway
pub mod Inbound
pub mod Jobs
pub mod Limits
pub mod Mapping
pub mod Memory
pub mod Notify
pub mod OAuth
pub mod Queue
pub mod Reorder
pub mod Shop
pub mod Sync
pub mod Worker
