-- ===== src/Lib.antt =====
-- Stow's backend: the read models of the savings contract (backend/src).
--
-- The savings contract emits events. The indexer (backend/src/indexer/indexer.service.ts) fetches
-- them page by page, stores each as a row, and applies the pending rows: some topics it handles
-- itself (the withdrawal queue, the harvest history), every other one goes to the savings
-- projection (backend/src/savings-projection/savings-projection.service.ts), which writes the
-- read models of the services: goals, balances, groups, locked plans and yield positions.
--
-- Files:
--   Prelude: the shared library. Table and Cache are the interfaces of the two third-party
--     stores, TypeORM's repository and the cache manager; their laws are the documented effect
--     of save, find, set, get and del, and a list and a function meet them. Rows adds the reads,
--     updates and deletions by a test on the columns. Result is the small
--     monad of calls that may throw, over a state; a throw keeps the writes made before it.
--     Refine relates a service to its specification.
--   Amounts: what `BigInt(text)` and `String(...)` make of the strings that carry amounts.
--   Balances: backend/src/savings/balance.service.ts. Goals: backend/src/goals/goals.service.ts.
--   Groups, LockedPlans, Yields: backend/src/savings/groups.service.ts, locked-plans.service.ts
--     and savings.service.ts.
--   Events: the decoded payloads. Projection: the projection service.
--   Indexer: the indexer service, with State for its tables, Handlers for the events
--     and Backfill for the ledgers fetched again.
--   Roundup: backend/src/savings-roundup/services/roundup-calculator.service.ts; in Service, with
--     Records for its tables, roundup.service.ts, which credits the balances.
--   Webhooks: backend/src/webhooks, the dispatcher of outgoing deliveries, and in Inbound the guard
--     of incoming ones.
--   Idempotency: backend/src/common/idempotency, the keys and the interceptor.
--   Soroban: backend/src/soroban/soroban.service.ts, the retries and the paging of the RPC client.
--   Listener: backend/src/soroban/soroban.listener.ts. It fetches the same events as the indexer
--     and applies them to the same projections, with a checkpoint of its own. Both runs
--     the two over one event.
--   Reconciliation: backend/src/indexer/reconciliation.service.ts, over the indexer's state.
--   Signing: backend/src/common, services/request-signer.service.ts and
--     guards/request-signature.guard.ts. RateLimit: middleware/rate-limit.middleware.ts.
--   ApiKeys: backend/src/auth/api-key.service.ts.
--   Auth: backend/src/auth, auth.service.ts in Sessions (the refresh tokens), State, Wallet and
--     Passkeys, over maps in Entries; oauth.service.ts in OAuth, with Callback for what follows the
--     provider's answer.
--   Referral: backend/src/users/referral.service.ts, and in Anchor the deposit sessions of
--     backend/src/savings/anchor.service.ts, the first of which qualifies a referral.
--   Filtering: backend/src/common/filtering.service.ts: the texts and types, the plan of a request
--     in Plan, in Meaning what its clauses select, over the database's comparisons, and in Requests
--     what a request means without clauses or parameters.
--
-- A service method `fooBar(x)` is the definition `foo_bar`, a function from the state of its
-- stores to a result and the new state. Awaited calls run one after the other: two requests that
-- interleave inside one method are not modelled. Loops run over lists and need no
-- fuel, but for the recursion of `acquire`, where a fuel of 2 is proved to be enough, and the loop
-- over the pages of `getEvents`, where one more than the number of events allowed is, if no page
-- with events is without an event that can be read. `backfillEvents` stops after 1000 pages in the
-- source, and that bound is the recursion's.
--
-- Not modelled: logging, clocks but for the time of a call, database-made columns, the RPC
-- itself and the transactions sent to it, the delivery of notifications, the summaries and yield
-- rates of the savings service, the controllers, the Rust contract and the web client.
pub mod Prelude
pub mod Amounts
pub mod Balances
pub mod Goals
pub mod Groups
pub mod LockedPlans
pub mod Yields
pub mod Events
pub mod Projection
pub mod Indexer
pub mod Roundup
pub mod Webhooks
pub mod Idempotency
pub mod Soroban
pub mod Listener
pub mod Reconciliation
pub mod Signing
pub mod RateLimit
pub mod ApiKeys
pub mod Auth
pub mod Referral
pub mod Filtering
