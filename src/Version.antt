-- ===== src/Version.antt =====
-- crates/context-db-version: the model of the version graph, and the searches over it.
pub mod Model
pub mod Walk
pub mod Temporal
pub mod Causal
pub mod Names
