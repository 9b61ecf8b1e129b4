-- ===== src/Store/Merge.antt =====
-- `merge`: fast forward, and the three-way merge of snapshots.
pub mod Snapshots
pub mod Conflicts
use uwu_context_db.Prelude.{
  ℕ, ◌+◌, ◌-◌, Bool, true, ◌||◌, Option, none, some, List, [], ◌∷◌, ◌++◌, arith, ◌==◌, nat_eq,
  list_eq, pair_eq, option_eq, if◌then◌else◌, contains, Map, keys, lookup, insert, remove, Result,
  ok, err, ◌>>=◌, ◌>>◌, ok_or, Text, text,
}
use uwu_context_db.Error.{VersionError, context_error_text}
use uwu_context_db.Uri.Types.{ContextUri}
use uwu_context_db.Uri.Parse.{parse}
use uwu_context_db.Uri.Equality.{uri_eq}
use uwu_context_db.Uri.Ops.{as_str}
use uwu_context_db.Version.Model.{
  CommitId, BranchName, Commit, ChangeSet, Branch, MergeStrategy, MergeResult, active,
  merge as merge_trigger,
}
use uwu_context_db.Store.State.{
  Snapshot, RefKey, Store, External, Outcome, on_ok, head, snapshot_of, snapshot_of_opt,
  system_author, record_commit,
}
use uwu_context_db.Store.Ancestry.{is_ancestor, merge_base}
use uwu_context_db.Store.Branches.{branch_not_found}

-- The keys of three maps, each once, as the `HashSet` of the source.
unfoldable pub distinct : List Text → List Text
unfolding contains
distinct [] = []
distinct (k ∷ ks) = let rest = distinct ks in if contains rest k then rest else k ∷ rest

abbrev pub put_value : Text → Option Text → Snapshot → Snapshot
put_value uri none snap = remove uri snap
put_value uri (some v) snap = insert uri v snap

module _ (ext : External) where
  abbrev pub conflict_uri : Text → Result VersionError ContextUri
  conflict_uri uri = elim (parse ext.time uri) [
    | ok u ↦ ok u
    | err e ↦ err (VersionError.storage (text "invalid snapshot URI: " ++ context_error_text e))
  ]

  -- One round of the loop over the keys.
  unfoldable pub merge_key :
      MergeStrategy
      → Option Text
      → Option Text
      → Option Text
      → Text
      → Snapshot
      → List ContextUri
      → Result VersionError (Snapshot × List ContextUri)
  merge_key strategy base ours theirs uri merged conflicts =
      if theirs == base
      then ok (merged, conflicts)
      else if ours == base || ours == theirs
      then ok (put_value uri theirs merged, conflicts)
      else elim strategy [
        | MergeStrategy.theirs ↦ ok (put_value uri theirs merged, conflicts)
        | MergeStrategy.ours ↦ ok (merged, conflicts)
        | _ ↦ (do u ← conflict_uri uri; ok (merged, conflicts ++ u ∷ []))
      ]

  unfoldable pub merge_keys :
      MergeStrategy
      → Snapshot
      → Snapshot
      → Snapshot
      → List Text
      → Snapshot
      → List ContextUri
      → Result VersionError (Snapshot × List ContextUri)
  unfolding merge_key
  merge_keys strategy base into from [] merged conflicts = ok (merged, conflicts)
  merge_keys strategy base into from (uri ∷ uris) merged conflicts = do
    (merged', conflicts') ←
        merge_key strategy (lookup uri base) (lookup uri into) (lookup uri from) uri merged
          conflicts
    merge_keys strategy base into from uris merged' conflicts'

  unfoldable pub merge_snapshots :
      MergeStrategy
      → Snapshot
      → Snapshot
      → Snapshot
      → Result VersionError (Snapshot × List ContextUri)
  unfolding merge_keys distinct
  merge_snapshots strategy base into from =
      merge_keys strategy base into from (distinct (keys base ++ (keys from ++ keys into))) into []

-- `branches.get_mut(key)`: the branch moves if it is there.
abbrev pub move_branch : RefKey → (Branch → Branch) → Map RefKey Branch → Map RefKey Branch
move_branch key f branches = elim (lookup key branches) [
  | none ↦ branches
  | some b ↦ insert key (f b) branches
]

abbrev pub with_head : CommitId → Branch → Branch
with_head id b = record b { head = id }

abbrev pub reactivated : CommitId → Branch → Branch
reactivated id b = record b { head = id; lifecycle = active }

abbrev pub is_attached : Store → Text → BranchName → Bool
is_attached s scope name = lookup scope s.attached_branches == some name

-- An explicit fast forward also marks the branch active.
abbrev pub advance : MergeStrategy → CommitId → Branch → Branch
advance MergeStrategy.fast_forward = reactivated
advance _ = with_head

-- The target branch moves, and HEAD with it if the branch is checked out.
abbrev pub move_target : Text → BranchName → CommitId → (Branch → Branch) → Store → Store
move_target scope into id f s = record s {
  branches = move_branch (scope, into) f s.branches;
  heads = if is_attached s scope into then insert scope id s.heads else s.heads;
}

abbrev no_changes : ChangeSet
no_changes = record { adds = []; updates = []; deletes = []; renames = [] }

module _ (ext : External) where
  abbrev pub merge_commit : CommitId → ℕ → BranchName → BranchName → CommitId → CommitId → Commit
  merge_commit id now from into into_head from_head = record {
    id = id;
    parents = into_head ∷ from_head ∷ [];
    tree_hash = text "merge-" ++ ext.show_id id;
    author = system_author true;
    message = text "merge " ++ (from ++ (text " into " ++ into));
    timestamp = now;
    metadata = record {
      trigger = merge_trigger (from ∷ into ∷ []);
      changes = no_changes;
      provenance = [];
    };
  }

  -- The heads of the two branches.
  unfoldable pub branch_heads :
      Text → BranchName → BranchName → Store → Result VersionError (CommitId × CommitId)
  branch_heads scope from into s = do
    f ← ok_or (branch_not_found from) (lookup (scope, from) s.branches)
    i ← ok_or (branch_not_found into) (lookup (scope, into) s.branches)
    ok (f.head, i.head)

  abbrev pub fast_forward :
      Text → BranchName → CommitId → (Branch → Branch) → Store → Outcome MergeResult
  fast_forward scope into from_head f s =
      (ok (record { commit = from_head; conflicts = [] }), move_target scope into from_head f s)

  abbrev pub diverged :
      CommitId
      → ℕ
      → Text
      → BranchName
      → BranchName
      → MergeStrategy
      → CommitId
      → CommitId
      → Store
      → Outcome MergeResult
  diverged id now scope from into strategy from_head into_head s =
      on_ok s
        (merge_snapshots ext strategy (snapshot_of_opt s (merge_base s.commits from_head into_head))
          (snapshot_of s into_head) (snapshot_of s from_head))
        (λ (m : Snapshot × List ContextUri). (
          ok (record { commit = id; conflicts = m.1 }),
          move_target scope into id (with_head id)
              (record_commit (merge_commit id now from into into_head from_head) m.0 s),
        ))

  -- The heads have diverged.
  abbrev pub apart :
      CommitId
      → ℕ
      → Text
      → BranchName
      → BranchName
      → MergeStrategy
      → CommitId
      → CommitId
      → Store
      → Outcome MergeResult
  apart id now scope from into MergeStrategy.fast_forward from_head into_head s =
      (err (VersionError.merge_conflict (text "cannot fast-forward: branches have diverged")), s)
  apart id now scope from into other from_head into_head s =
      diverged id now scope from into other from_head into_head s

  unfoldable pub merge :
      CommitId
      → ℕ
      → ContextUri
      → BranchName
      → BranchName
      → MergeStrategy
      → Store
      → Outcome MergeResult
  merge id now scope from into strategy s =
      on_ok s (branch_heads (as_str scope) from into s) (λ (hs : CommitId × CommitId).
        if is_ancestor s.commits hs.1 hs.0
        then fast_forward (as_str scope) into hs.0 (advance strategy hs.0) s
        else apart id now (as_str scope) from into strategy hs.0 hs.1 s)
