-- ===== src/Query.antt =====
-- src/query.rs: the answers that are read from the mirror.
pub mod Readers
pub mod Scope
pub mod Ancestors
pub mod Select
pub mod Where
pub mod Bindings
pub mod Inventory
pub mod Search
pub mod Points
pub mod Stats
pub mod Tree
pub mod Sample
mod Tests
