-- ===== src/Store.antt =====
-- src/store.rs: the pipeline's branch functions, the sync transaction, and the eviction of stale
-- rows. The keyed stream is that of the `fold` crate.
pub mod Stream
pub mod Branches
pub mod Sync
pub mod Evict
pub mod Memory
mod Tests
