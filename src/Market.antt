-- ===== src/Market.antt =====
-- crates/context-db-marketplace: the votes on published entries.
pub mod Voting
