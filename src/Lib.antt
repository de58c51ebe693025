-- ===== src/Lib.antt =====
-- Verification library of the cixtech backend, a custody and payment engine (backend/src,
-- backend/types). Deposits arrive at pool addresses and are booked in a double-entry ledger; payouts
-- are judged by a policy, locked in the ledger, signed and broadcast.
--
-- Which file models which part:
--
--   Prelude        strings as lists of code units, `bigint` as ℤ, maps and tables as association
--                  lists
--   Errors         the exceptions of backend/src/common/exceptions as values of `Result`
--   Effect         code that changes a state and may throw after it did
--   Ledger         backend/src/ledger, backend/src/stores/memory-ledger.store.ts and
--                  sql-ledger.store.ts, backend/src/queries/ledger.queries.ts and
--                  backend/src/services/ledger.service.ts
--     Types, Accounts, Balanced, Flows, Solvency
--                  entries, account keys, assertBalanced, the posting flows, solvencyDrift
--     Store        the interface LedgerStore with its laws, which Memory.Laws and Sql.Sound fill
--     Memory, Sql  the two stores: the state of MemoryLedgerStore, and the tables journal_entry,
--                  posting and balance under the statements of the queries
--     Totals       the loop of totalsByType that both stores run
--     Service      LedgerService over any store
--   Policy         backend/src/chains/payout/policy.ts, backend/src/stores/policy.store.ts,
--                  backend/src/stores/approval.store.ts and
--                  backend/src/queries/policy.queries.ts
--     Engine       PolicyEngine over the state of its collaborators
--     KillSwitch, Allowlist, Velocity, Approvals
--                  the collaborators and ApprovalStore over their tables
--   Pool           backend/src/attribution, backend/src/stores/pool.store.ts and
--                  backend/src/queries/pool-address.queries.ts
--     State        the states of a deposit address
--     Sql, Manager the table pool_address under SqlPoolStore, and PoolManager over it
--     Gather       PoolGatherer
--     Lease        GatherLease over pool_gather_lease
--     Config       GatherConfigStore over gather_config, and its part of
--                  backend/src/queries/ai.queries.ts
--   Webhooks       backend/src/chains/webhooks.ts and backend/src/queries/webhook.queries.ts: the
--                  outbox and the dispatcher
--   Sweep          backend/src/chains/treasury/fee-sweep-planner.ts, with the LIKE of the database
--                  for backend/src/queries/infra.queries.ts
--   Payout         backend/src/services/payout.service.ts, backend/src/chains/payout and
--                  backend/src/queries/payout.queries.ts
--     Authorization
--                  the tokens of AuthorizationSigner and the AuthorizingBroadcaster
--     Journal      PayoutJournal over the table payout_intent
--     World, Calls the state and the collaborators of PayoutService, and its calls of them
--     Legs, FeeSweep, Service, Approve
--                  the loop over the legs, sweepFee, payout and approve
--   Deposits       backend/src/chains/ingest and backend/src/chains/reconcile
--     Ingest       DepositIngestor: a deposit is attributed, screened and booked, or reversed
--     Watcher      DepositWatcher: the polls, and what they hand to the outbox
--     Reconcile    ExternalReconciler
--   Tron           backend/src/chains/tron/tron-tx-verify.ts
--     Hex, Fields, Decode, Verify
--                  texts of hexadecimal digits, readFields, decodeTronRawData and
--                  verifiedTronSigningHash
--   Gas            backend/src/chains/treasury/gas-station.ts
--     Station      GasStation: the status of a float, its monitor and provision
--
-- State is passed explicitly. A transaction that throws rolls back, so an operation returns a new
-- state only inside `ok`. Dates are milliseconds as natural numbers, messages and contexts of
-- exceptions are left out, and the texts of denials are constructors. Every loop of the source is a
-- recursion over a list, so no fuel is needed but for two: the digits of a number take n + 1 rounds
-- for n, and the reader of protobuf fields as many rounds as the buffer has bytes, since each takes
-- one. A payout is an effect: it keeps what its steps changed before one of them threw. The
-- broadcaster, the strategies that prepare an address, the fee sweep planner and the functions of
-- node:crypto are its parameters, and the requests that the broadcaster is handed are recorded.
--
-- Not modelled: the remaining services, chain clients, HTTP handlers, the frontend, the database
-- driver and its failures. Concurrency enters where the source serialises it: a transaction under
-- a lock is one step. LedgerService.lockPayout reads the balance and posts without a transaction
-- around the two: its model reads in one state and posts in another, and the theorems on it are
-- about a call that no other one comes between, as the payout service's are.
pub mod Prelude
pub mod Errors
pub mod Effect
pub mod Ledger
pub mod Policy
pub mod Pool
pub mod Webhooks
pub mod Sweep
pub mod Payout
pub mod Deposits
pub mod Tron
pub mod Gas
