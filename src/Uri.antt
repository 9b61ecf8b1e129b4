-- ===== src/Uri.antt =====
-- crates/context-db-core/src/uri.rs: the `uwu://` addresses of entries.
pub mod Types
pub mod Parse
pub mod Ops
pub mod Equality
pub mod Laws
pub mod Segments
unfoldable pub use Types.*
unfoldable pub use Parse.*
unfoldable pub use Ops.*
