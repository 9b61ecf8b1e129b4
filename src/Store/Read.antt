-- ===== src/Store/Read.antt =====
-- `log`, `read_at` and `asof_read`.
pub mod Logs
pub mod Times
pub mod Written
pub mod Prefixes
use uwu_context_db.Prelude.{
  ℕ, zero, suc, ◌&&◌, Option, none, some, List, [], ◌∷◌, ◌++◌, ltb, leb, nat_eq, list_eq, pair_eq,
  option_eq, if◌then◌else◌, length, take, Map, unwrap_or, lookup, Result, ok, err, ◌>>=◌, ok_or,
  Text, text, split, join,
}
use uwu_context_db.Error.{VersionError}
use uwu_context_db.Uri.Types.{ContextUri, ContentLevel, l0, l1, l2}
use uwu_context_db.Uri.Parse.{slash}
use uwu_context_db.Uri.Equality.{uri_eq}
use uwu_context_db.Uri.Ops.{as_str}
use uwu_context_db.Content.Types.{ContextEntry, ContentPayload, l0_text, sparse_text}
use uwu_context_db.Version.Model.{CommitId, BranchName, Commit, VersionRef, AsOfTime, LogOpts}
use uwu_context_db.Store.State.{debug_id, Store, External, head, snapshot_of}

-- The loop of `log`: at most `n` commits along first parents.
unfoldable pub first_parents : Map CommitId Commit → ℕ → CommitId → List Commit
first_parents commits zero current = []
first_parents commits (suc n) current = elim (lookup current commits) [
  | none ↦ []
  | some c ↦ elim c.parents [ [] ↦ c ∷ [] | p ∷ ps ↦ c ∷ first_parents commits n p ]
]

abbrev pub branch_head : Store → Text → Option BranchName → Option CommitId
branch_head s scope none = head s scope
branch_head s scope (some name) = elim (lookup (scope, name) s.branches) [
  | none ↦ none
  | some b ↦ some b.head
]

-- `unwrap_or_default()` of a missing start is a fresh id, which no commit has: `fresh`.
unfoldable pub log : CommitId → ContextUri → LogOpts → Store → List Commit
unfolding first_parents
log fresh scope opts s =
    first_parents s.commits (unwrap_or 20 opts.max_count)
      (unwrap_or fresh (branch_head s (as_str scope) opts.branch))

-- The loop `for i in (2..=segments.len()).rev()`: the longest prefix with a head.
unfoldable pub resolve_prefix : Store → ℕ → List Text → Option CommitId
resolve_prefix s zero segs = none
resolve_prefix s (suc zero) segs = none
resolve_prefix s (suc (suc n)) segs = elim (head s (join (slash ∷ []) (take (suc (suc n)) segs))) [
  | some id ↦ some id
  | none ↦ resolve_prefix s (suc n) segs
]

unfoldable pub resolve_head : Store → ContextUri → Option CommitId
unfolding resolve_prefix
resolve_head s uri = let segs = split slash (as_str uri) in resolve_prefix s (length segs) segs

abbrev dense_of : ContentPayload → Text
dense_of (ContentPayload.text sparse dense full) = dense
dense_of _ = []

-- The payload of an entry at a level.
unfoldable pub at_level : ContentLevel → ContextEntry → ContentPayload
unfolding sparse_text
at_level l0 e = ContentPayload.text (l0_text e) (l0_text e) (l0_text e)
at_level l1 e = ContentPayload.text (l0_text e) (dense_of e.payload) (dense_of e.payload)
at_level l2 e = e.payload

-- The error of a read at a branch or a tag, with the `Debug` of the reference.
abbrev unsupported : Text → Text → VersionError
unsupported kind name =
    VersionError.not_found (
      text "unsupported VersionRef for read_at: "
      ++ (kind ++ (b'"' ∷ (name ++ (b'"' ∷ text "))")))))

module _ (ext : External) where
  unfoldable pub resolve_ref : Store → ContextUri → VersionRef → Result VersionError CommitId
  unfolding resolve_head
  resolve_ref s uri (VersionRef.commit id) = ok id
  resolve_ref s uri VersionRef.head =
      ok_or (VersionError.not_found (text "Head ref could not resolve from uri: " ++ as_str uri))
        (resolve_head s uri)
  resolve_ref s uri (VersionRef.branch name) = err (unsupported (text "Branch(BranchName(") name)
  resolve_ref s uri (VersionRef.tag name) = err (unsupported (text "Tag(TagName(") name)

  unfoldable pub read_commit :
      Store → ContextUri → ContentLevel → CommitId → Result VersionError ContentPayload
  unfolding at_level
  read_commit s uri level id = do
    json ←
        ok_or
          (VersionError.not_found
            (text "uri " ++ (as_str uri ++ (text " not found at commit " ++ debug_id ext id))))
          (lookup (as_str uri) (snapshot_of s id))
    entry ← ok_or (VersionError.storage (text "deserialize entry")) (ext.from_json json)
    ok (at_level level entry)

  unfoldable pub read_at :
      ContextUri → VersionRef → ContentLevel → Store → Result VersionError ContentPayload
  unfolding resolve_ref read_commit
  read_at uri ref level s = do id ← resolve_ref s uri ref; read_commit s uri level id

  -- One round of the search for the newest commit that is not after `ts`.
  abbrev newer : ℕ → Option (ℕ × CommitId) → CommitId × Commit → Option (ℕ × CommitId)
  newer ts none (id, c) = if leb c.timestamp ts then some (c.timestamp, id) else none
  newer ts (some (t, best)) (id, c) =
      if leb c.timestamp ts && ltb t c.timestamp then some (c.timestamp, id) else some (t, best)

  unfoldable pub last_before :
      ℕ → Map CommitId Commit → Option (ℕ × CommitId) → Option (ℕ × CommitId)
  last_before ts [] best = best
  last_before ts (e ∷ m) best = last_before ts m (newer ts best e)

  unfoldable pub asof_read :
      ContextUri → AsOfTime → ContentLevel → Store → Result VersionError ContentPayload
  unfolding last_before read_at
  asof_read uri (AsOfTime.commit id) level s = read_at uri (VersionRef.commit id) level s
  asof_read uri (AsOfTime.timestamp ts) level s = elim (last_before ts s.commits none) [
    | none ↦ err (VersionError.not_found (text "no commit before " ++ ext.time.show_time ts))
    | some (t, id) ↦ read_at uri (VersionRef.commit id) level s
  ]
