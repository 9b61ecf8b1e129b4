-- ===== src/Memory/Scans/Complete.antt =====
-- A scan that is read to its end.
use mathlib.Core.List.{Perm}
use mathlib.Core.List.Perm
use uwu_context_db.Prelude.{List}
