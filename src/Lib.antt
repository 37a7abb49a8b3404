-- ===== src/Lib.antt =====
-- The trading services of Trenches: a verification library.
--
-- The program watches social posts and on-chain pools, decides on trades, sizes and submits them,
-- and manages the open positions. Its services talk by server-sent events and HTTP; each keeps its
-- state in memory, and writes to a database. Modelled are the parts that keep that state and the
-- functions that decide:
--
--   * Util/TtlCache, Util/Math: the expiring cache, packages/util/src/ttlCache.ts (`TtlCache`), and
--     math.ts.
--   * Util/Sse: the client by which the services follow each other's events,
--     packages/util/src/sseClient.ts (`createSSEClient`).
--   * Narrative/Dedupe, Narrative/WatchWindows, Narrative/PhraseTracker: the classes of
--     services/narrative-miner/src/dedupe.ts, watchWindows.ts and phraseTracker.ts.
--   * Narrative/Baseline, Narrative/Clusters, Narrative/Matcher: of the same directory, baseline.ts
--     (`BaselineManager`), cluster.ts (`LshIndex`, `ClusterManager`) with the vectors of embedding.ts,
--     and matcher.ts (`AhoCorasick`, `Matcher`).
--   * Persistence/WriteQueue: packages/persistence/src/writeQueue.ts (`createWriteQueue`).
--   * Policy/Pending, Policy/Sizing, Policy/Constrained, Policy/Leader, Policy/Bandit:
--     pendingSelections.ts, sizing.ts, sizing_constrained.ts (`chooseSize`), leader.ts and bandit.ts
--     (`LinUCBBandit`) of services/policy-engine/src.
--   * Policy/Plan, Policy/Alpha: of the same directory, slippage.ts, tip.ts, context.ts, and the stream
--     handler of index.ts (`bootstrap`): the gate of the alpha scores, the guards and the plan.
--   * Positions/Fills, Positions/Exits, Positions/Evaluation, Positions/Refresh, Positions/Storage,
--     Positions/Stops: services/position-manager/src/index.ts (`handleFillEvent` and `updateMae`;
--     `triggerExit`, which uses the expiring cache of Util; `evaluatePosition`; `refreshPrices`, which
--     calls it; `persistPosition` and `hydratePositions`, with `listOpenPositions` of
--     packages/persistence/src/sqlite.ts) and survival_stops.ts (`computeStops`).
--   * Executor/Routes, Executor/Pricing: services/executor/src/routeQuarantine.ts, with the row of
--     packages/persistence/src/sqlite.ts (`upsertRouteStat`), migrationPreset.ts, and
--     `computePriorityFeeMicroLamports` of index.ts.
--   * Executor/FeeBandit, Executor/Sender: of the same directory, fee-bandit.ts and sender.ts
--     (`TransactionSender`).
--   * Safety: the checks of services/safety-engine/src (tokenSafety.ts, lpSafety.ts, holderSafety.ts,
--     rugguard.ts) and Safety/Engine, their composition in index.ts (`evaluateCandidate`,
--     `evaluateGating`), which keeps its results in the expiring cache of Util.
--
-- A class is a record, a method a function from the arguments, the clock included, and the record to
-- the answer and the new record. JavaScript's Map is Base/Dict, an association list in the order of
-- insertion. Times and counters are natural numbers; all other numbers are of any type with the
-- operations of Base/Number, and what is used of their order are the laws of `IsOrdered`, which hold
-- of doubles, NaN and Infinity included, and of the concrete numbers of Base/Fixed. No claim is made
-- on rounding. All loops are structural recursion, but for the loops of
-- Narrative/Matcher/Automaton along the references between nodes: these run on fuel, and an answer
-- `none` says that the fuel did not suffice, since one of them does not end.
--
-- Histories are lists of what the environment does. The functions between two awaits are atomic, as
-- they are in JavaScript; the client of Util/Sse is cut at its one await, the queue of
-- Persistence/WriteQueue at the await of a task. Three handlers are atomic here although the program
-- awaits in them: an evaluation of Positions/Evaluation awaits the executor at each exit, the sale of
-- Positions/Fills that closes a position awaits the oracle, and an evaluation of Safety/Engine awaits
-- the RPC between the read and the write of the cache. Histories in which another fill or evaluation
-- of the same mint is handled during such an await are not covered, and the results on these parts
-- say nothing of them, but for Positions/Evaluation/Closed, where an evaluation may be cut at its
-- awaits.
--
-- Not modelled: HTTP servers, RPC and provider clients, SQL beyond the rows of the route statistics
-- and of the open positions, metrics, logs, configuration loading, the training of the learned
-- models, and the services whose work is only to call these: agent-core, alpha-ranker, features-job,
-- leader-wallets, migration-watcher, onchain-discovery, price-updater, rpc-monitor and
-- social-ingestor. They hold little state, or their behaviour is that of code outside the repository. The
-- answers of the Solana RPC, of Jito and of the database are arguments.
pub mod Base
pub mod Util
pub mod Narrative
pub mod Persistence
pub mod Policy
pub mod Positions
pub mod Executor
pub mod Safety
