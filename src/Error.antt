-- ===== src/Error.antt =====
-- crates/context-db-core/src/error.rs and `VersionError` of crates/context-db-version/src/lib.rs.
-- A wrapped error of another library is carried as its message.
use uwu_context_db.Prelude.{Text, text, ◌++◌}

pub data ContextError : Type 0 where
  not_found invalid_uri storage llm version_conflict permission_denied : Text → ContextError
  serialization io unsupported trust_policy : Text → ContextError

pub data VersionError : Type 0 where
  not_found branch_exists merge_conflict : Text → VersionError
  conflict_session_unavailable conflict_session_incomplete : Text → VersionError
  storage invalid_config : Text → VersionError

-- The `Display` of an error.
abbrev pub context_error_text : ContextError → Text
context_error_text (ContextError.not_found s) = text "not found: " ++ s
context_error_text (ContextError.invalid_uri s) = text "invalid uri: " ++ s
context_error_text (ContextError.storage s) = text "storage: " ++ s
context_error_text (ContextError.llm s) = text "LLM: " ++ s
context_error_text (ContextError.version_conflict s) = text "version conflict: " ++ s
context_error_text (ContextError.permission_denied s) = text "permission denied: " ++ s
context_error_text (ContextError.serialization s) = text "serialization: " ++ s
context_error_text (ContextError.io s) = text "IO: " ++ s
context_error_text (ContextError.unsupported s) = text "unsupported: " ++ s
context_error_text (ContextError.trust_policy s) = text "trust policy violation: " ++ s
