-- ===== src/Indexer/ChainState.antt =====
-- indexer/src/chainState.ts: the live reads of the chain's state, for the API. The node is a parameter:
-- a storage map answers page requests, a storage value is an argument.
pub mod Scan
pub mod Escrows
pub mod Stats
