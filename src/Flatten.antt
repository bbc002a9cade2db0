-- ===== src/Flatten.antt =====
-- src/flatten.rs: a file response as the records of the mirror.
pub mod Scan
pub mod Walk
pub mod File
pub mod Tests
