-- ===== src/Memory.antt =====
-- crates/context-db-testkit/src/lib.rs: `MemoryContextStore`, the entry store in memory.
pub mod Pages
pub mod Entries
pub mod Graph
pub mod Scans
