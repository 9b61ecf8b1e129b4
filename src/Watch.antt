-- ===== src/Watch.antt =====
-- crates/context-db-core/src/watch.rs: numbered change events, the hub that keeps the latest of them,
-- and the streams that follow it. tokio's broadcast channel is outside: a stream is given what its
-- receiver answers, one `Reply` after another.
pub mod Event
pub mod Hub
pub mod Stream
pub mod Watched
