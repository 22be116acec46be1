-- ===== src/Lib.antt =====
-- Verification library of scalar-commons: the off-chain TypeScript services of the chain and the generator of
-- its experiments, as pure definitions with the theorems that make them correct. It is one library of
-- six parts.
--
-- Base: Boolean tests on native numbers, list lemmas, `Comparable` (decidable equality by a test),
-- `Dict` (a `Map` as an association list with two laws), `Result` with its bind, and decimal numerals as
-- texts, with the padding and stripping of zeros.
--
-- Faucet, the service that hands out test tokens (faucet/src):
--   Faucet/RateLimiter models rateLimiter.ts, the sliding-window limiter per address and per IP.
--     `try_acquire`, `release` and `prune` are tryAcquire, release and prune; the clock is an argument.
--     Times are whole milliseconds. An entry list is kept newest first, in the source newest last.
--     Histories of operations are lists of steps with a time; a ledger that forgets nothing is the
--     specification that the limiter is compared with.
--   Faucet/Drip models FaucetService of faucet.ts, which calls the limiter. `drip` is the method drip, with
--     its three guards, its two awaits and its hand-back of the slot. The chain client of chain.ts and
--     normalizeAddress are parameters. What other requests do to the limiter and to the chain while
--     a request waits is an argument of `drip`.
--   Faucet/Server is clientIp and POST /drip of server.ts: the header that names the client, the size limit of
--     the body, and the status and the retry-after of the answer. Parsing the body is a parameter.
--   Faucet/Amount is amount.ts: CMN amounts parsed and printed. A text is the list of its character codes.
--
-- Sdk, the client library (sdk/src):
--   Sdk/Bytes and Sdk/Reader are little-endian numbers and the cursor class Reader of
--     messaging/envelope.ts. A byte is a number; `u32le` and `u64le` keep the range checks of the source.
--   Sdk/Envelope is the codec: encodeEnvelope, decodeEnvelope, encodeSignedMessage and
--     decodeSignedMessage. SCALE's compact length prefix is polkadot-js's, and a parameter with its round
--     trip below 2^32.
--   Sdk/Nonces is NonceTracker and OutboundNonces; the tracker's key is the pair of the accounts.
--   Sdk/Inbox is MessageInbox.receive. `check_message` holds the eight rules in the order of the source, and
--     `receive` commits the nonce if all pass. Hash, signature check, address codec and the opener of
--     sealed bodies are the fields of `Platform`; a throw is `none` or `err`.
--   Sdk/Outbox is createMessage of envelope.ts, and OnChainTransport.send and decodeSendCall of
--     messaging/transport.ts. The chain between them is the hypothesis that a block carries the submitted
--     arguments. The five arguments are a record, so the check for a missing one has no counterpart.
--   Sdk/Subscription is subscribeMessages of messaging/transport.ts. Its queue handles one head at a time, so
--     a run is a list of finalized heads, each with what the node answers while it is handled; a failed
--     request ends the handling of its head, and the next head goes on from the block that failed.
--     Which messages a block carries is told from its records in Sdk/Subscription/Messages, apart from the scan.
--   Sdk/Retry is withRetry of retry.ts with isDeterministicFailure of errors.ts. The loop is recursion on the
--     attempts that are left, so it needs no fuel.
--   Sdk/Sample is a concrete platform for the examples.
--
-- Indexer, the history service (indexer/src):
--   Indexer/Store is the write side of store.ts. The SQL tables are lists of rows and dictionaries, each
--     statement is the list operation it stands for, and ROLLBACK is the store before.
--   Indexer/Queries is its read side: filters, LIMIT and OFFSET as take and drop, COUNT as length. Its insertion
--     sort stands for SQLite's ORDER BY and translates no code; what is asked of a query, the filters and
--     the order of the chain, is stated apart from both, in Indexer/Queries/Asked.
--   Indexer/Decode and Indexer/Ingest are decode.ts and ingest.ts: fetchIndexedBlock makes the rows of a block,
--     which the store saves, from what the node answers for a height. isAccountType and JSON.stringify
--     are parameters. A codec and a JSON value are trees with their own lists of items and members.
--   Indexer/Follower is ChainIndexer of indexer.ts, which writes to the store: the backfill, the catch-up
--     to a finalized head, the waiters and stop. fetchIndexedBlock is a parameter that may fail, and the
--     follower's theorems use of it what Indexer/Ingest defines: the block fetched has the height asked. The
--     loops are recursion on the number of blocks left or on the list of missing ones.
--   Indexer/Activity is activity.ts, the classifier of agent activity that the store's feed applies.
--   Indexer/ChainState is chainState.ts: the bounded scan of a storage map, and the agreements and their
--     statistics on top of it. The node is a parameter that answers page requests. The scan has fuel for
--     limit + 2 pages; each page but the last adds an entry, so the scan ends before the fuel does.
--   Indexer/Pagination is pagination.ts.
--
-- Agent, the reference agent (agent/src):
--   Agent/Action is the interface Chain and the state of types.ts and agent.ts: an action is a function of
--     the agent's memory that may throw, with a bind; `step` catches, as the source's step does. The chain
--     is an arbitrary record of calls on a state, any of which may fail. Keys and events are newest first.
--   Agent/Worker is the class Agent of agent.ts on top of it, tick and all that it calls.
--
-- Explorer, the pages that show the chain (explorer/src):
--   Explorer/Format is format.ts, amounts, hashes and escaped texts, on lists of character codes.
--   Explorer/Accounts is accounts.ts: the walk over a decoded value, a tree of its shapes, down to depth 16.
--   Explorer/Links and Explorer/Routes are routes.ts: references to blocks, the paths of links, and parseRoute, which
--     reads a path and its query. The URL class, decodeURIComponent and isAddress are parameters.
--
-- Experiments, the archetypes of SC-E1 (experiments/sc-e1/archetypes):
--   Experiments/Prng is prng.ts and identity.ts: SplitMix64 on numbers modulo 2^64, and derived seeds.
--   Experiments/Recording is recording-sdk.ts and privileged.ts: each method of the SDK is a constructor of
--     `SdkCall`, `perform` is its effect on the ledger, and a throw is an error that ends the run.
--   Experiments/Settlement is settlement.ts, which calls both: volunteers draw a backoff, and the least of
--     them settles the era.
--   Experiments/Action joins the two in one state: an action may throw, and actions follow each other.
--     Experiments/Archetypes is a1_honest_worker.ts to a5_oracle_colluder.ts and registry.ts on top of it, each
--     archetype a record of its setup and its era. Experiments/Runner is runOne of runner.ts: the setup of all
--     cohorts, then era by era their work and one settlement. Loops are recursion on what is left of them.
--
-- Not modelled: the Rust chain, the other HTTP routes, the servers' configuration, the bindings to polkadot-js,
-- the rendering of web pages, and the scripts; HttpsTransport of the transport, listAccounts and getBlock
-- of the store, the ranking of agents in chainState.ts, the digest of a run, and timers. Numbers are
-- unbounded, as bigint is; JavaScript numbers are taken where they are exact integers.
pub mod Agent
pub mod Base
pub mod Experiments
pub mod Explorer
pub mod Faucet
pub mod Indexer
pub mod Sdk
