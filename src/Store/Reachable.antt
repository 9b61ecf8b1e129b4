-- ===== src/Store/Reachable.antt =====
-- The runs of the store: `commit`, `create_branch`, `delete_branch`, `create_tag`, `switch_head`,
-- `merge`, `cherry_pick`, `rebase` and `squash`, and `commit_on_parent` of a stored commit, in any
-- order. `put_entry_version`, which rewrites a snapshot, is a change but not a step of a run. `gc`,
-- which removes commits, and `commit_on_parent` of an unknown commit are neither.
pub mod History
use uwu_context_db.Prelude.{
  ℕ, ◌≡◌, false, List, Text, lookup, contains_key, contains_key-insert, contains, insert, unwrap_or,
  [], nat_beq_iff, ok, arith, nat_eq, list_eq, pair_eq,
}
use uwu_context_db.Uri.Types.{ContextUri}
use uwu_context_db.Uri.Ops.{as_str}
use uwu_context_db.Version.Model.{
  CommitId, BranchName, CommitMeta, ChangeSet, BranchType, Tag, MergeStrategy, ConflictStrategy,
}
use uwu_context_db.Store.State.{Store, External, new, snapshot_of}
use uwu_context_db.Store.Branches.{create_branch, delete_branch, create_tag, switch_head}
use uwu_context_db.Content.Types.{ContextEntry}
use uwu_context_db.Store.Commit.{commit, commit_on_parent, put_entry_version}
use uwu_context_db.Store.Merge.{merge}
use uwu_context_db.Store.Pick.{cherry_pick, rebase}
use uwu_context_db.Store.Rewrite.{squash}
use uwu_context_db.Store.Integrity.{HasCommit, IsIntegral}
use uwu_context_db.Store.Integrity.Grow.{grown-IsIntegral, IsKnown-old}
use uwu_context_db.Store.Integrity.Commits.{
  commit-IsIntegral, create_branch-IsIntegral, delete_branch-IsIntegral, switch_head-IsIntegral,
}
use uwu_context_db.Store.Integrity.Merges.{merge-IsIntegral}
use uwu_context_db.Store.Integrity.Picks.{cherry_pick-IsIntegral, rebase-IsIntegral}
use uwu_context_db.Store.Integrity.Rewrites.{squash-IsIntegral}

-- An id that no commit has, as a fresh UUID.
abbrev pub IsFresh : Store → CommitId → Type 0
IsFresh s id = contains_key id s.commits ≡ false

module _ (ext : External) where
  -- One operation, successful or not.
  pub data Step (s : Store) : Store → Type 0 where
    did_commit :
        (id : CommitId) (now : ℕ) (scope : ContextUri) (changes : ChangeSet) (meta : CommitMeta)
        → IsFresh s id
        → Step s (commit ext id now scope changes meta s).1
    did_create_branch :
        (now : ℕ) (scope : ContextUri) (name : BranchName) (from : CommitId) (bt : BranchType)
        → Step s (create_branch ext now scope name from bt s).1
    did_delete_branch :
        (scope : ContextUri) (name : BranchName) → Step s (delete_branch scope name s).1
    did_create_tag : (scope : ContextUri) (tag : Tag) → Step s (create_tag scope tag s)
    did_switch_head : (scope : ContextUri) (name : BranchName) → Step s (switch_head scope name s).1
    did_merge :
        (id : CommitId) (now : ℕ) (scope : ContextUri) (from into : BranchName)
        (strategy : MergeStrategy)
        → IsFresh s id
        → Step s (merge ext id now scope from into strategy s).1
    did_cherry_pick :
        (id : CommitId) (now : ℕ) (scope : ContextUri) (picked : CommitId) (onto : BranchName)
        (strategy : ConflictStrategy)
        → IsFresh s id
        → Step s (cherry_pick ext id now scope picked onto strategy s).1
    did_rebase :
        (id : CommitId) (now : ℕ) (scope : ContextUri) (branch onto : BranchName)
        (strategy : ConflictStrategy)
        → IsFresh s id
        → Step s (rebase ext id now scope branch onto strategy s).1
    did_squash :
        (id : CommitId) (now : ℕ) (scope : ContextUri) (ids : List CommitId) (message : Text)
        → IsFresh s id
        → Step s (squash ext id now scope ids message s).1
    did_commit_on_parent :
        (id : CommitId) (now : ℕ) (parent : CommitId) (meta : CommitMeta)
        → IsFresh s id
        → HasCommit s parent
        → Step s (commit_on_parent ext id now parent meta s).1

  pub data Run (s : Store) : Store → Type 0 where
    start : Run s s
    then_step : {t u : Store} → Run s t → Step t u → Run s u

  -- The steps of a run, and entries put into the snapshot of any commit.
  pub data Changes (s : Store) : Store → Type 0 where
    unchanged : Changes s s
    stepped : {t u : Store} → Changes s t → Step t u → Changes s u
    put :
        {t : Store} (id : CommitId) (uri : ContextUri) (entry : ContextEntry)
        → Changes s t
        → Changes s (put_entry_version ext id uri entry t)

  create_tag-IsIntegral :
      {s : Store} (scope : ContextUri) (tag : Tag)
      → IsIntegral s
      → IsIntegral (create_tag scope tag s)
  unfolding create_tag
  create_tag-IsIntegral scope tag v = record {
    snapshots = v.snapshots;
    parents = v.parents;
    heads = v.heads;
    branch_heads = v.branch_heads;
  }

  commit_on_parent-IsIntegral :
      {s : Store} (id : CommitId) (now : ℕ) (parent : CommitId) (meta : CommitMeta)
      → HasCommit s parent
      → IsIntegral s
      → IsIntegral (commit_on_parent ext id now parent meta s).1
  unfolding commit_on_parent contains
  commit_on_parent-IsIntegral {s} id now parent meta known v =
      grown-IsIntegral id _ _ s.branches s.heads v
        (λ p h. ground (arith, nat_beq_iff parent p, known))
        (λ key b h. IsKnown-old s id b.head (v.branch_heads key b h))
        (λ scope h e. IsKnown-old s id h (v.heads scope h e))

  put_entry_version-IsIntegral :
      {s : Store} (id : CommitId) (uri : ContextUri) (entry : ContextEntry)
      → IsIntegral s
      → IsIntegral (put_entry_version ext id uri entry s)
  unfolding put_entry_version
  put_entry_version-IsIntegral {s} id uri entry v = record {
    snapshots = λ j h. ground (
      arith,
      contains_key-insert id j
          (insert (as_str uri) (unwrap_or [] (ext.to_json entry)) (snapshot_of s id))
          s.entry_snapshots,
      v.snapshots j,
    );
    parents = v.parents;
    heads = v.heads;
    branch_heads = v.branch_heads;
  }

  Step-IsIntegral : {s t : Store} → Step s t → IsIntegral s → IsIntegral t
  Step-IsIntegral (did_commit id now scope changes meta f) v =
      commit-IsIntegral ext id now scope changes meta v
  Step-IsIntegral (did_create_branch now scope name from bt) v =
      create_branch-IsIntegral ext now scope name from bt v
  Step-IsIntegral (did_delete_branch scope name) v = delete_branch-IsIntegral scope name v
  Step-IsIntegral (did_create_tag scope tag) v = create_tag-IsIntegral scope tag v
  Step-IsIntegral (did_switch_head scope name) v = switch_head-IsIntegral scope name v
  Step-IsIntegral (did_merge id now scope from into strategy f) v =
      merge-IsIntegral ext id now scope from into strategy v
  Step-IsIntegral (did_cherry_pick id now scope picked onto strategy f) v =
      cherry_pick-IsIntegral ext id now scope picked onto strategy v
  Step-IsIntegral (did_rebase id now scope branch onto strategy f) v =
      rebase-IsIntegral ext id now scope branch onto strategy v
  Step-IsIntegral (did_squash id now scope ids message f) v =
      squash-IsIntegral ext id now scope ids message v
  Step-IsIntegral (did_commit_on_parent id now parent meta f known) v =
      commit_on_parent-IsIntegral id now parent meta known v

  Changes-IsIntegral : {s t : Store} → Changes s t → IsIntegral s → IsIntegral t
  Changes-IsIntegral unchanged v = v
  Changes-IsIntegral (stepped r o) v = Step-IsIntegral o (Changes-IsIntegral r v)
  Changes-IsIntegral (put id uri entry r) v =
      put_entry_version-IsIntegral id uri entry (Changes-IsIntegral r v)

  new-IsIntegral : (n : ℕ) (s : Store) → new n ≡ ok s → IsIntegral s
  unfolding new lookup
  new-IsIntegral n s h = record {
    snapshots = λ id k. absurd (ground arith);
    parents = λ id p c k m. absurd (ground arith);
    heads = λ scope id k. absurd (ground arith);
    branch_heads = λ key b k. absurd (ground arith);
  }

  -- In every store that `commit`, `create_branch`, `delete_branch`, `create_tag`, `switch_head`,
  -- `merge`, `cherry_pick`, `rebase`, `squash`, `put_entry_version`, and `commit_on_parent` of a stored
  -- commit make of a new one, each new commit having an id that no commit has, each commit has its
  -- snapshot, and the parents of commits, the heads of scopes and the heads of branches are stored
  -- commits. Calls of `gc` are not among the operations, and targets of tags not among the references.
  pub reachable-IsIntegral : (n : ℕ) (s t : Store) → new n ≡ ok s → Changes s t → IsIntegral t
  reachable-IsIntegral n s t made r = Changes-IsIntegral r (new-IsIntegral n s made)
