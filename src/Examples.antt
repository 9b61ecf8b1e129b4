-- ===== src/Examples.antt =====
-- Concrete stores, and the theorems applied to them.
mod Fixture
mod Graphs
mod Runs
mod Snapshots
mod Reads
mod Scopes
mod Watching
mod Indexes
mod Entries
mod Votes
mod Edges
mod Redaction
