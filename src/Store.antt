-- ===== src/Store.antt =====
-- crates/context-db-testkit/src/version.rs: `MemoryVersionStore`, the version store as a state.
-- Each operation takes the locks it needs and releases them without waiting for another task, so an
-- operation is one step on the state.
pub mod State
pub mod Ancestry
pub mod Integrity
pub mod Reachable
pub mod Commit
pub mod Branches
pub mod Read
pub mod Merge
pub mod Diff
pub mod Pick
pub mod Rewrite
pub mod Reports
pub mod Sync
