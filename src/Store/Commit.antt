-- ===== src/Store/Commit.antt =====
-- `commit`, `commit_on_parent` and `put_entry_version`.
pub mod Cases
use uwu_context_db.Prelude.{
  ℕ, ◌+◌, ◌-◌, not, Option, none, some, List, [], ◌∷◌, ◌++◌, arith, ◌==◌, nat_eq, list_eq, pair_eq,
  option_eq, option_beq, if◌then◌else◌, Map, unwrap_or, lookup, insert, remove, Result, ok, err,
  ◌>>=◌, ◌>>◌, ok_or, guard, Text, text,
}
use uwu_context_db.Error.{VersionError}
use uwu_context_db.Uri.Types.{ContextUri}
use uwu_context_db.Uri.Equality.{uri_eq}
use uwu_context_db.Uri.Ops.{as_str}
use uwu_context_db.Content.Types.{ContextEntry}
use uwu_context_db.Version.Model.{
  CommitId, BranchName, Commit, CommitMeta, ChangeSet, UriChange, RenameOp, Branch,
}
use uwu_context_db.Store.State.{
  Snapshot, RefKey, Store, External, Outcome, on_ok, head, option_list, snapshot_of,
  snapshot_of_opt, is_system, system_author, record_commit,
}

module _ (ext : External) where
  -- `for entry in &changes.adds`; the error leaves out serde's own message, here and below.
  unfoldable pub apply_adds : List ContextEntry → Snapshot → Result VersionError Snapshot
  apply_adds [] snap = ok snap
  apply_adds (e ∷ es) snap = do
    json ← ok_or (VersionError.storage (text "serialize added entry")) (ext.to_json e)
    apply_adds es (insert (as_str e.uri) json snap)

  -- `upd.uri != upd.entry.uri`: the derived equality of the whole address.
  unfoldable pub apply_updates : List UriChange → Snapshot → Result VersionError Snapshot
  apply_updates [] snap = ok snap
  apply_updates (u ∷ us) snap = do
    guard (u.uri == u.entry.uri) (
        VersionError.storage (
          text "update URI "
          ++ (as_str u.uri ++ (text " does not match entry URI " ++ as_str u.entry.uri))))
    json ← ok_or (VersionError.storage (text "serialize updated entry")) (ext.to_json u.entry)
    apply_updates us (insert (as_str u.uri) json snap)

unfoldable pub apply_deletes : List ContextUri → Snapshot → Snapshot
apply_deletes [] snap = snap
apply_deletes (d ∷ ds) snap = apply_deletes ds (remove (as_str d) snap)

unfoldable pub rename : RenameOp → Snapshot → Snapshot
rename r snap = elim (lookup (as_str r.from) snap) [
  | none ↦ remove (as_str r.from) snap
  | some v ↦ insert (as_str r.to) v (remove (as_str r.from) snap)
]

unfoldable pub apply_renames : List RenameOp → Snapshot → Snapshot
apply_renames [] snap = snap
apply_renames (r ∷ rs) snap = apply_renames rs (rename r snap)

-- `Some(&branch.head) == parents.first()`, then the branch moves to the new commit.
abbrev move_attached :
    Map RefKey Branch
    → RefKey
    → BranchName
    → Option CommitId
    → CommitId
    → Option Branch
    → Result VersionError (Map RefKey Branch)
move_attached branches key name parent id none =
    err (VersionError.not_found (text "attached branch " ++ name))
move_attached branches key name parent id (some b) =
    if option_beq parent (some b.head)
    then ok (insert key (record b { head = id }) branches)
    else err (VersionError.storage (text "HEAD and attached branch " ++ (name ++ text " diverged")))

abbrev move_branches :
    Store
    → Text
    → Option CommitId
    → CommitId
    → Option BranchName
    → Result VersionError (Map RefKey Branch)
move_branches s scope parent id none = ok s.branches
move_branches s scope parent id (some name) =
    move_attached s.branches (scope, name) name parent id (lookup (scope, name) s.branches)

-- Only the branch that is checked out moves with a commit.
unfoldable pub advance_attached :
    Store → Text → Option CommitId → CommitId → Result VersionError (Map RefKey Branch)
advance_attached s scope parent id =
    move_branches s scope parent id (lookup scope s.attached_branches)

module _ (ext : External) where
  -- The snapshot of a commit: its parent's, then the changes in the order of the source.
  unfoldable pub apply_changes : ChangeSet → Snapshot → Result VersionError Snapshot
  unfolding apply_adds apply_updates apply_deletes apply_renames rename
  apply_changes changes snap = do
    added ← apply_adds ext changes.adds snap
    updated ← apply_updates ext changes.updates added
    ok (apply_renames changes.renames (apply_deletes changes.deletes updated))

  abbrev pub new_commit : CommitId → ℕ → List CommitId → CommitMeta → Commit
  new_commit id now parents meta = record {
    id = id;
    parents = parents;
    tree_hash = text "tree-" ++ ext.show_id id;
    author = system_author (is_system meta.trigger);
    message = ext.debug_trigger meta.trigger;
    timestamp = now;
    metadata = meta;
  }

  -- What a commit computes before it writes.
  unfoldable pub plan_commit :
      CommitId → ContextUri → ChangeSet → Store → Result VersionError (Snapshot × Map RefKey Branch)
  plan_commit id scope changes s = do
    let parent = head s (as_str scope)
    snap ← apply_changes changes (snapshot_of_opt s parent)
    branches ← advance_attached s (as_str scope) parent id
    ok (snap, branches)

  -- `id` is the fresh id, `now` the clock.
  unfoldable pub commit :
      CommitId → ℕ → ContextUri → ChangeSet → CommitMeta → Store → Outcome CommitId
  commit id now scope changes meta s =
      on_ok s (plan_commit id scope changes s) (λ (plan : Snapshot × Map RefKey Branch). (
        ok id,
        record s {
          commits =
              insert id (new_commit id now (option_list (head s (as_str scope))) meta) s.commits;
          entry_snapshots = insert id plan.0 s.entry_snapshots;
          branches = plan.1;
          heads = insert (as_str scope) id s.heads;
        },
      ))

  unfoldable pub commit_on_parent : CommitId → ℕ → CommitId → CommitMeta → Store → CommitId × Store
  commit_on_parent id now parent meta s =
      (id, record_commit (new_commit id now (parent ∷ []) meta) (snapshot_of s parent) s)

  -- `unwrap_or_default`: an entry that does not serialise is stored as the empty text.
  unfoldable pub put_entry_version : CommitId → ContextUri → ContextEntry → Store → Store
  put_entry_version id uri entry s = record s {
    entry_snapshots =
        insert id (insert (as_str uri) (unwrap_or [] (ext.to_json entry)) (snapshot_of s id))
          s.entry_snapshots;
  }
