-- ===== src/Lib.antt =====
-- Gally Explorer: the logic of the front end of the Gally protocol (frontend-explorer), which shows
-- tokenised assets and lets investors and keepers call the Move contract (gally_core).
--
-- An action of a user is an intent. An executor validates it, reports the states of a life cycle and
-- returns a result: the mock executor invents a digest, the live one resolves the objects that the
-- action needs, builds a plan of Move calls, turns the plan into a transaction and asks the wallet.
-- What was submitted is kept in an optimistic store, which dismisses the alerts of the bell. A
-- keeper's view derives from assets and disputes which permissionless calls can run.
--
-- The parts, where the files that one entry names stand in one folder unless it says so:
--   Domain            frontend-explorer/lib/types.ts: assets, tranches, accumulators and disputes
--   Format            frontend-explorer/lib/format.ts: the fixed present and usd
--   Tx.Intents        frontend-explorer/lib/tx/intents.ts: TxIntent, optimisticKey, validateIntent
--   Tx.Lifecycle      frontend-explorer/lib/tx/types.ts: TxStatus, TxLifecycle, TxResult
--   Tx.Digest         frontend-explorer/lib/tx/executor.ts: fnv and the text of mockDigest
--   Tx.Executor       frontend-explorer/lib/tx/executor.ts: executeIntent
--   Tx.Plan           frontend-explorer/lib/tx/ptb.ts: buildPlan; Tx.Plan.Moves has the signatures
--                     of the entry points of gally_core/sources, which plans are compared with, and
--                     Tx.Plan.Declared the names of all functions there
--   Tx.Transaction    frontend-explorer/lib/tx/ptb.ts: hexBytes and planToTransaction
--   Tx.Humanize       frontend-explorer/lib/tx/executorLive.ts: humanizeError
--   Tx.Live           frontend-explorer/lib/tx/executorLive.ts: executeIntentLive
--   Tx.Context        frontend-explorer/lib/tx/resolve.ts, buildCtx.ts and config.ts:
--                     resolveLiveRefs, buildCtx and requireTxConfig
--   Keeper            frontend-explorer/lib/mock/cranks.ts: the cranks of an asset, an accumulator, a
--                     dispute, and all of them
--   Health            frontend-explorer/lib/mock/health.ts: nextTrancheOf, graceOf and
--                     compensationLayersOf
--   Data              frontend-explorer/lib/data: Client is client.ts; Wire and Records are wire.ts;
--                     Assets, Validators, Feeds, Governance and Disputes are map.ts; Events is
--                     events.ts; Position is position.ts; Updates has useLive.ts and
--                     ws.ts
--   Data.Live         frontend-explorer/lib/data/live.ts: Market lists assets, Detail reads one,
--                     Activity has the feeds, Find the resolver and the search, Solvent the pool of
--                     an asset against what is owed, Totals the figures of the home page
--   Docs              frontend-explorer/lib/docs/search.ts: rankDocs
--   Store             frontend-explorer/lib/tx/optimistic.ts, and watchlist.ts and notifications.ts
--                     of frontend-explorer/lib; Toaster is
--                     frontend-explorer/components/notifications/Toaster.tsx
--   Session           frontend-explorer/lib/tx/notify.ts, and whole runs of the drivers of useTx.ts
--                     and, in Session.Wallet, useTxLive.ts beside it; Session.Driver has either
--                     driver from one await to the next, for the dialogs
--   Walrus            frontend-explorer/lib/walrus/client.ts: uploadBlob, fetchAndVerify and the ids
--                     of blobs
--   Action            frontend-explorer/components/tx/ActionButton.tsx: the amounts and the dialog of
--                     an action, over either driver; ClaimAll is ClaimAllAction.tsx beside it
--   Pager             frontend-explorer/components/ui/Pager.tsx: the pages of a list and their numbers
--   Explorer          frontend-explorer/components/asset/AssetsExplorer.tsx: the list of assets, its
--                     filters, orders and pages
--   Challenge         frontend-explorer/components/tx/DisputeAction.tsx: the dialog of a dispute and
--                     its evidence, which Walrus uploads
--   Prelude           what the parts share: lists, sorting, texts, integers and fractions
--   Tests             runs on concrete inputs
--
-- The live source asks the indexer for records, maps them to the domain types and puts them in
-- order; a request that fails counts as an empty answer. The keeper's view, the dialogs and the totals
-- stand on what it gives.
--
-- Strings are lists of UTF-16 units. Amounts are exact: an amount in an intent is a fraction, one of
-- the domain types a whole number of millionths; rounding of 64-bit floats is not modelled. Case is
-- changed in ASCII only. The hash keeps its 32 bits. Effects of an asynchronous function are the list
-- of its reports and requests in order, with its result. A function that throws returns a sum or an
-- Option. localStorage is a value that is passed on, with the server, a full storage and a text that
-- does not parse as cases. A request is what it comes to: aborted, unreachable, or answered with a
-- status and a body that may not parse; the same request is answered the same while one view is read.
--
-- Fuel: the digits of a number n in hexadecimal or decimal run on n + 1 steps, and each step divides
-- by the base, so that they never run out; usd sets nine groups of digits apart, which covers all
-- amounts of the chain (2^64 millionths are five groups).
--
-- Parameters: JSON.stringify, the toLowerCase of the search of the documentation and of the list
-- of assets, toLocaleString and encodeURIComponent, SHA-256, the wallet, the readers of the RPC
-- node and of the indexer, the requests to the indexer, to the publisher and to the aggregator,
-- the present time of the keeper's view, and the clock. Any behaviour of theirs is allowed; no
-- hypothesis is made.
--
-- Not modelled: what the Sui SDK refuses while a transaction is put together, such as a number above
-- 64 bits; of live.ts, getProtocolConfig and getReceipts, which read loosely typed fields of
-- chain objects; the mock holder ledger, the search over fixtures and the fixtures; React
-- components and hooks but the dialogs of an action and of a dispute, the list of assets, the
-- toasts and the hooks of live values, with the snapshot caches of the stores; generated
-- documentation; the Move contracts, the indexer and the simulation bot, which are other programs.
pub mod Prelude
pub mod Domain
pub mod Format
pub mod Tx
pub mod Keeper
pub mod Health
pub mod Data
pub mod Docs
pub mod Store
pub mod Session
pub mod Walrus
pub mod Action
pub mod Pager
pub mod Explorer
pub mod Challenge
pub mod Tests
