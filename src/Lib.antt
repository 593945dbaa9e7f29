-- ===== src/Lib.antt =====
-- The verification library of evm-toolkit, a collection of TypeScript packages for EVM clients.
--
-- The program. chain-source observes a chain and hands blocks and mempool contents to its two
-- consumers: gas-oracle turns them into fee recommendations in four tiers, and tx-tracker turns
-- them into observations of single transactions. wallet-adapter and tx-flight-react show
-- transactions in flight, and siwe-store keeps the nonces and sessions of a sign-in.
-- unchained-reader looks addresses up in an index of the chain.
--
-- What models what.
-- Base: Boolean tests, lists, sorting, texts, association lists, lists with a number per entry,
--   decimal digits and signed integers, over the native numbers.
-- Gas: packages/gas-oracle/src.
--   Gas/Types, Gas/State: types.ts, transport.ts and the types of chain-source/src/types.ts; a
--   transaction, a block, a sample, the tiers, and the published snapshot `GasOracleState`.
--   Gas/Tip: `effectiveTip`, `detectTrend`, `cappedTip` of math.ts. Gas/Percentile:
--   `computePercentiles`, `gasWeightedPercentiles`. Gas/Tiers: `computeTiers`. Gas/Blob:
--   `computeBlobBaseFee`.
--   Gas/Ring: `incorporateBlock` of ring.ts, on the ring of recent blocks, oldest first.
--   Gas/Samples: samples.ts and `flattenTxPool`.
--   Gas/Position, Gas/Classify, Gas/Replacement: block-position.ts, classify-tip.ts and
--   replacement.ts, which read a snapshot.
--   Gas/Reduce: `reducePollInputs` of oracle.ts, from the last snapshot and one poll's inputs to
--   the next snapshot, and sequences of cycles as `handleBlock` makes them.
--   Gas/Lifecycle: the other state of `createGasOracle` (attached, started, subscribers, the
--   timer) and a step for each event: start, stop, subscribe, unsubscribe, a change of the page's
--   visibility, the timer, a mempool snapshot.
-- Tracker: packages/tx-tracker/src.
--   Tracker/Reorg: reorg.ts, `appendBlock` and `detectDivergences` on the tracker's window of
--   blocks. Tracker/Events: events.ts. Tracker/Selectors: selectors.ts.
--   Tracker/Observations, Tracker/Snapshots: observations.ts, what one block and one mempool
--   snapshot decide of one record. Tracker/State: the state of `createTxTracker`, `subscribe` and its unsubscribe
--   function. Tracker/Blocks: `onBlock` with `handleReorgs` and the end of the retention.
--   Tracker/Capabilities: `handleCapabilityChange`. Tracker/Bulk: the matches of the bulk
--   subscriptions. Tracker/Mempool: `onMempool`.
--   Tracker/Runs: one record through any sequence of blocks, snapshots and reorgs. Tracker/Polls:
--   `runReceiptPollFallback`, `runMinedProbe` and `runStatusPoll` of one record.
--   Tracker/Store: `createInMemoryStore` of store.ts, and in Tracker/Store/Refines what it
--   promises. Tracker/Group: group.ts and group-events.ts; Tracker/Group/Runs a group under any
--   member events, Tracker/Group/Stream the iterator of `events()`.
--   Tracker/Wait: `waitForTransaction` on the events of a record.
-- Siwe: packages/siwe-store/src, nonce-store.ts (Siwe/Nonces) and session-store.ts
--   (Siwe/Sessions); the state is the store's map, and a call takes the clock's reading and the
--   generated nonce or token as arguments.
-- Flight: packages/tx-flight-react/src/store/reducers.ts on the state of src/types.ts there, with
--   the transactions of packages/wallet-adapter/src/tx-status.ts; Flight/Store: store.ts beside it.
-- Unchained/Chunk: packages/unchained-reader/src/chunk.ts, the lookup of an address in an index
--   chunk, on the bytes of both.
-- Examples: concrete inputs, tests, and the theorems at those inputs.
--
-- How the source is read. A `bigint` that is never negative and a `number` that counts or tells
-- the time are native numbers; where a value can be negative (options, queries) it is a ℤ. A
-- hexadecimal quantity stands for the number that it spells, and an error of its parser is left
-- out. Texts are lists of character codes, and `toLowerCase` is that of ASCII. `sort` is a stable
-- insertion sort with the source's comparator. A `Map` is an association list with one entry for
-- a key. The percentiles that the source computes with floating point are fractions.
--
-- Bounds. The loop of `computeBlobBaseFee` runs on the fuel `blob_fuel`, which is proved to be
-- enough for every input. The binary search of chunk.ts runs on one more than the number of
-- records, which is proved to be enough for tables of at most 2^31. All other loops are
-- structural. A ring window below 1 is read as 0, which caps nothing, as in the source.
--
-- Not modelled: the transports and network calls, `bridgeGap` (the blocks that it fetched are an
-- input of a cycle) and other events during an awaited cycle, the viem wrappers, presets and
-- labels of gas-oracle; of tracker.ts the persisted subscriptions, the stop of the tracker and of
-- bulk subscriptions, and other events while a receipt is awaited; the local-storage store and the
-- other helpers around the tracker; chain-source; the React components and the storage of their list; the Redis stores; the other packages
-- (cryptography of the platform, generated data, command line tools, clients of services).
pub mod Base
pub mod Gas
pub mod Tracker
pub mod Unchained
pub mod Siwe
pub mod Flight
pub mod Examples
