-- ===== src/Content.antt =====
-- crates/context-db-core/src/model.rs: the data model of a stored entry. A float is the bit
-- pattern of its IEEE value, a time stamp a number of time units, a UUID its number, and a JSON
-- value the text that it serialises to: modelled operations copy them, and compare time stamps.
pub mod Types
pub mod Segments
pub mod Kinds
