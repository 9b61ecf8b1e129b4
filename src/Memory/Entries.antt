-- ===== src/Memory/Entries.antt =====
-- `ContentRepo`, `VersionOps` and `FsOps::read` of `MemoryContextStore`: the versions of each
-- address. The redaction of write_security.rs and the reader of UTF-8 are parameters.
pub mod Versions
pub mod Reads
use uwu_context_db.Prelude.{
  ℕ, zero, suc, ◌+◌, ◌-◌, Option, none, some, unwrap_or, List, [], ◌∷◌, ◌++◌, nat_beq, nat_eq,
  list_eq, if◌then◌else◌, length, last?, Map, lookup, insert, remove, map, Result, ok, err, Text,
  text,
}
use uwu_context_db.Error.{ContextError}
use uwu_context_db.Uri.Types.{ContextUri, ContentLevel, l0, l1, l2}
use uwu_context_db.Uri.Ops.{as_str, show_usize}
use uwu_context_db.Content.Types.{ContextEntry, ContentPayload, l0_text}
use uwu_context_db.Memory.Pages.{Page, PageRequest, keyset_page}

-- The versions of an address, the latest last, and the bytes put in for it.
pub record Store : Type 0 where
  pub entries : Map Text (List ContextEntry)
  pub l2_blobs : Map Text (List ℕ)

pub record VersionEntry : Type 0 where
  pub version : ℕ
  pub message : Text
  pub ts : ℕ

abbrev pub new : Store
new = record { entries = []; l2_blobs = [] }

abbrev pub versions_of : Store → Text → List ContextEntry
versions_of s key = unwrap_or [] (lookup key s.entries)

abbrev pub latest : Store → Text → Option ContextEntry
latest s key = last? (versions_of s key)

unfoldable pub put_l2_blob : Text → List ℕ → Store → Store
put_l2_blob key bytes s = record s { l2_blobs = insert key bytes s.l2_blobs }

-- The entry as the version `n`, stored at the time `now`.
abbrev pub stamped : ℕ → ℕ → ContextEntry → ContextEntry
stamped n now entry = record entry { mvcc_version = n; updated_at = now }

-- `write`, with the redaction and the clock.
unfoldable pub write :
    (ContextEntry → Result ContextError ContextEntry)
    → ℕ
    → ContextEntry
    → Store
    → Result ContextError ℕ × Store
write sanitize now entry s = elim (sanitize entry) [
  | err e ↦ (err e, s)
  | ok clean ↦
      let key = as_str clean.uri in
      let old = versions_of s key in
      let next = length old + 1 in
      (ok next, record s { entries = insert key (old ++ stamped next now clean ∷ []) s.entries })
]

unfoldable pub delete : ContextUri → Store → Result ContextError (Unit {0}) × Store
delete uri s = (ok tt, record s { entries = remove (as_str uri) s.entries })

unfoldable pub rename : ContextUri → ContextUri → Store → Result ContextError (Unit {0}) × Store
rename from to s = elim (lookup (as_str from) s.entries) [
  | none ↦ (err (ContextError.not_found (as_str from)), s)
  | some versions ↦
      (ok tt, record s { entries = insert (as_str to) versions (remove (as_str from) s.entries) })
]

-- `iter().find(|e| e.mvcc_version == to)`
unfoldable pub version_at : ℕ → List ContextEntry → Option ContextEntry
version_at to [] = none
version_at to (e ∷ es) = if nat_beq e.mvcc_version to then some e else version_at to es

unfoldable pub rollback : ContextUri → ℕ → Store → Result ContextError (Unit {0}) × Store
unfolding version_at
rollback uri to s = elim (lookup (as_str uri) s.entries) [
  | none ↦ (err (ContextError.not_found (as_str uri)), s)
  | some versions ↦ elim (version_at to versions) [
    | none ↦ (
      err (
          ContextError.version_conflict
            (text "no version MvccVersion(" ++ (show_usize to ++ text ")"))),
      s,
    )
    | some target ↦
        let restored = record target { mvcc_version = length versions + 1 } in
        (ok tt, record s { entries = insert (as_str uri) (versions ++ restored ∷ []) s.entries })
  ]
]

-- `dense` of a text, empty for another payload.
abbrev pub dense_text : ContentPayload → Text
dense_text (ContentPayload.text sparse dense full) = dense
dense_text _ = []

-- `read` at `L2`: the bytes put in, unless there are none, else the payload.
abbrev pub full_payload : (List ℕ → Option Text) → Option (List ℕ) → ContextEntry → ContentPayload
full_payload from_utf8 (some (b ∷ bytes)) e =
    ContentPayload.text (l0_text e) (dense_text e.payload) (unwrap_or [] (from_utf8 (b ∷ bytes)))
full_payload from_utf8 _ e = elim e.payload [
  | ContentPayload.text sparse dense full ↦ ContentPayload.text (l0_text e) dense full
  | other ↦ other
]

unfoldable pub read :
    (List ℕ → Option Text) → ContextUri → ContentLevel → Store → Result ContextError ContentPayload
read from_utf8 uri level s = elim (latest s (as_str uri)) [
  | none ↦ err (ContextError.not_found (as_str uri))
  | some e ↦ elim level [
    | l0 ↦ ok (ContentPayload.text (l0_text e) (dense_text e.payload) (l0_text e))
    | l1 ↦ ok (ContentPayload.text (l0_text e) (dense_text e.payload) (l0_text e))
    | l2 ↦ ok (full_payload from_utf8 (lookup (as_str uri) s.l2_blobs) e)
  ]
]

abbrev pub version_entry : ContextEntry → VersionEntry
version_entry e = record { version = e.mvcc_version; message = l0_text e; ts = e.updated_at }

abbrev zeros : ℕ → Text
zeros zero = []
zeros (suc n) = 48 ∷ zeros n

-- `format!("{:020}", version)`
abbrev pub version_key : VersionEntry → Text
version_key v = let digits = show_usize v.version in zeros (20 - length digits) ++ digits

unfoldable pub version_history : ContextUri → PageRequest → Store → Page VersionEntry
version_history uri page s =
    keyset_page version_key (map version_entry (versions_of s (as_str uri))) page
