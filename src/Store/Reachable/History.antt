-- ===== src/Store/Reachable/History.antt =====
-- The stored commits and snapshots over the steps of a run.
use uwu_context_db.Prelude.{
  ℕ, ◌≡◌, refl, false, List, some, inl, inr, Option-cases, Bool-cases, Text, lookup, contains_key,
  insert, lookup-insert, nat_eq, list_eq, pair_eq, nat_beq, nat_beq_iff, ok, err, arith,
}
use uwu_context_db.Uri.Types.{ContextUri}
use uwu_context_db.Uri.Ops.{as_str}
use uwu_context_db.Version.Model.{
  CommitId, BranchName, Commit, CommitMeta, ChangeSet, MergeStrategy, ConflictStrategy,
}
use uwu_context_db.Store.State.{
  Store, External, Snapshot, Outcome, on_ok-state, snapshot_of, snapshot_of_opt,
}
use uwu_context_db.Store.Branches.{create_branch, delete_branch, create_tag, switch_head, ref_key}
use uwu_context_db.Store.Commit.{commit, plan_commit, commit_on_parent}
use uwu_context_db.Store.Ancestry.{is_ancestor, merge_base}
use uwu_context_db.Store.Merge.{merge, branch_heads, merge_snapshots, apart}
use uwu_context_db.Store.Pick.{cherry_pick, rebase, plan_pick, finish_rebase, then_finish}
use uwu_context_db.Store.Rewrite.{squash, plan_squash}
use uwu_context_db.Store.Reachable.{
  IsFresh, Step, Run, did_commit, did_create_branch, did_delete_branch, did_create_tag,
  did_switch_head, did_merge, did_cherry_pick, did_rebase, did_squash, did_commit_on_parent, start,
  then_step,
}

-- `t` has what `s` has stored under an id that `s` knows.
pub record Keeps (s t : Store) : Type 0 where
  pub commits :
      (j : CommitId) (c : Commit) → lookup j s.commits ≡ some c → lookup j t.commits ≡ some c
  pub snapshots :
      (j : CommitId) (c : Commit) (snap : Snapshot)
      → lookup j s.commits ≡ some c
      → lookup j s.entry_snapshots ≡ some snap
      → lookup j t.entry_snapshots ≡ some snap

Keeps-refl : {s : Store} → Keeps s s
Keeps-refl = record { commits = λ j c h. h; snapshots = λ j c snap h k. k }

Keeps-trans : {s t u : Store} → Keeps s t → Keeps t u → Keeps s u
Keeps-trans a b = record {
  commits = λ j c h. b.commits j c (a.commits j c h);
  snapshots = λ j c snap h k. b.snapshots j c snap (a.commits j c h) (a.snapshots j c snap h k);
}

fresh-other :
    (s : Store) (id j : CommitId) (c : Commit)
    → IsFresh s id
    → lookup j s.commits ≡ some c
    → nat_beq id j ≡ false
fresh-other s id j c f h = ground (arith, nat_beq_iff id j)

-- A store with one commit more.
Keeps-insert :
    {s t : Store} (id : CommitId) (c : Commit) (snap : Snapshot)
    → IsFresh s id
    → t.commits ≡ insert id c s.commits
    → t.entry_snapshots ≡ insert id snap s.entry_snapshots
    → Keeps s t
Keeps-insert {s} {t} id c snap f ec es = record {
  commits = λ j d h. ground (arith, ec, lookup-insert id j c s.commits, fresh-other s id j d f h);
  snapshots = λ j d old h k.
      ground (arith, es, lookup-insert id j snap s.entry_snapshots, fresh-other s id j d f h);
}

module _ (ext : External) where
  commit-Keeps :
      {s : Store} (id : CommitId) (now : ℕ) (scope : ContextUri) (changes : ChangeSet)
      (meta : CommitMeta)
      → IsFresh s id
      → Keeps s (commit ext id now scope changes meta s).1
  unfolding commit
  commit-Keeps {s} id now scope changes meta f =
      on_ok-state (Keeps s) s (plan_commit ext id scope changes s) _ Keeps-refl
        λ plan planned. Keeps-insert id _ plan.0 f refl refl

  squash-Keeps :
      {s : Store} (id : CommitId) (now : ℕ) (scope : ContextUri) (ids : List CommitId)
      (message : Text)
      → IsFresh s id
      → Keeps s (squash ext id now scope ids message s).1
  unfolding squash
  squash-Keeps {s} id now scope ids message f =
      on_ok-state (Keeps s) s (plan_squash ext (as_str scope) ids s) _ Keeps-refl
        λ p planned. Keeps-insert id _ _ f refl refl

  pick-Keeps :
      {s : Store} (id : CommitId) (now : ℕ) (scope : ContextUri) (picked : CommitId)
      (onto : BranchName) (strategy : ConflictStrategy)
      → IsFresh s id
      → Keeps s (cherry_pick ext id now scope picked onto strategy s).1
  unfolding cherry_pick
  pick-Keeps {s} id now scope picked onto strategy f =
      on_ok-state (Keeps s) s (plan_pick ext scope picked onto strategy s) _ Keeps-refl
        λ p planned. Keeps-insert id _ p.1 f refl refl

  then_finish-Keeps :
      {s : Store} (scope : ContextUri) (branch : BranchName) (old : CommitId) (o : Outcome CommitId)
      → Keeps s o.1
      → Keeps s (then_finish ext scope branch old o).1
  unfolding finish_rebase
  then_finish-Keeps scope branch old (err e, t) k = k
  then_finish-Keeps {s} scope branch old (ok tip, t) k =
      on_ok-state (Keeps s) t _ _ k
        λ b checked. record { commits = k.commits; snapshots = k.snapshots }

  rebase-Keeps :
      {s : Store} (id : CommitId) (now : ℕ) (scope : ContextUri) (branch onto : BranchName)
      (strategy : ConflictStrategy)
      → IsFresh s id
      → Keeps s (rebase ext id now scope branch onto strategy s).1
  unfolding rebase
  rebase-Keeps {s} id now scope branch onto strategy f =
      on_ok-state (Keeps s) s _ _ Keeps-refl λ old checked.
        then_finish-Keeps scope branch old (cherry_pick ext id now scope old onto strategy s)
          (pick-Keeps id now scope old onto strategy f)

  apart-Keeps :
      {s : Store} (id : CommitId) (now : ℕ) (scope : Text) (from into : BranchName)
      (strategy : MergeStrategy) (from_head into_head : CommitId)
      → IsFresh s id
      → Keeps s (apart ext id now scope from into strategy from_head into_head s).1
  apart-Keeps id now scope from into MergeStrategy.fast_forward fh ih f = Keeps-refl
  apart-Keeps {s} id now scope from into other fh ih f =
      on_ok-state (Keeps s) s
        (merge_snapshots ext other (snapshot_of_opt s (merge_base s.commits fh ih))
          (snapshot_of s ih) (snapshot_of s fh))
        _ Keeps-refl λ m merged. Keeps-insert id _ m.0 f refl refl

  merge-Keeps :
      {s : Store} (id : CommitId) (now : ℕ) (scope : ContextUri) (from into : BranchName)
      (strategy : MergeStrategy)
      → IsFresh s id
      → Keeps s (merge ext id now scope from into strategy s).1
  unfolding merge
  merge-Keeps {s} id now scope from into strategy f =
      on_ok-state (Keeps s) s (branch_heads ext (as_str scope) from into s) _ Keeps-refl λ hs heads.
        elim (Bool-cases (is_ancestor s.commits hs.1 hs.0)) [
          | inl behind ↦ rw behind (record { commits = λ j c h. h; snapshots = λ j c snap h k. k })
          | inr parted ↦
              rw parted (apart-Keeps id now (as_str scope) from into strategy hs.0 hs.1 f)
        ]

  Step-Keeps : {s t : Store} → Step ext s t → Keeps s t
  unfolding create_branch delete_branch create_tag switch_head commit_on_parent
  Step-Keeps (did_commit id now scope changes meta f) = commit-Keeps id now scope changes meta f
  Step-Keeps {s} (did_create_branch now scope name from bt) =
      elim (Bool-cases (contains_key (ref_key scope name) s.branches)) [
        | inl there ↦ rw there Keeps-refl
        | inr new ↦ elim (Bool-cases (contains_key from s.commits)) [
          | inl known ↦
              rw (new, known) (record { commits = λ j c h. h; snapshots = λ j c snap h k. k })
          | inr missing ↦ rw (new, missing) Keeps-refl
        ]
      ]
  Step-Keeps {s} (did_delete_branch scope name) =
      elim (Bool-cases (contains_key (ref_key scope name) s.branches)) [
        | inl there ↦ rw there (record { commits = λ j c h. h; snapshots = λ j c snap h k. k })
        | inr missing ↦ rw missing Keeps-refl
      ]
  Step-Keeps (did_create_tag scope tag) = record {
    commits = λ j c h. h;
    snapshots = λ j c snap h k. k;
  }
  Step-Keeps {s} (did_switch_head scope name) =
      elim (Option-cases (lookup (ref_key scope name) s.branches)) [
        | inl missing ↦ rw (missing, switch_head) Keeps-refl
        | inr (b, there) ↦
            rw (there, switch_head) (record { commits = λ j c h. h; snapshots = λ j c snap h k. k })
      ]
  Step-Keeps (did_merge id now scope from into strategy f) =
      merge-Keeps id now scope from into strategy f
  Step-Keeps (did_cherry_pick id now scope picked onto strategy f) =
      pick-Keeps id now scope picked onto strategy f
  Step-Keeps (did_rebase id now scope branch onto strategy f) =
      rebase-Keeps id now scope branch onto strategy f
  Step-Keeps (did_squash id now scope ids message f) = squash-Keeps id now scope ids message f
  Step-Keeps (did_commit_on_parent id now parent meta f known) = Keeps-insert id _ _ f refl refl

  Run-Keeps : {s t : Store} → Run ext s t → Keeps s t
  Run-Keeps start = Keeps-refl
  Run-Keeps (then_step r o) = Keeps-trans (Run-Keeps r) (Step-Keeps o)

  -- A run of `commit`, `create_branch`, `delete_branch`, `create_tag`, `switch_head`, `merge`,
  -- `cherry_pick`, `rebase`, `squash`, and `commit_on_parent` of a stored commit, in which every new
  -- commit has an id that no commit has, never changes a stored commit or its snapshot. Calls of `gc`
  -- and of `put_entry_version` are no part of such a run.
  pub Run-history :
      (s t : Store) (j : CommitId) (c : Commit) (snap : Snapshot)
      → Run ext s t
      → lookup j s.commits ≡ some c
      → lookup j s.entry_snapshots ≡ some snap
      → (lookup j t.commits ≡ some c) × (lookup j t.entry_snapshots ≡ some snap)
  Run-history s t j c snap r h k =
      ((Run-Keeps r).commits j c h, (Run-Keeps r).snapshots j c snap h k)
