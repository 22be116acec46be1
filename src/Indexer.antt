-- ===== src/Indexer.antt =====
-- The indexer (indexer/src): the store of finalized blocks and the follower that fills it.
pub mod Store
pub mod Follower
pub mod Queries
pub mod Pagination
pub mod ChainState
pub mod Activity
pub mod Decode
pub mod Ingest
