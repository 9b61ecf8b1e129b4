-- ===== src/Store/Sync/Stranded.antt =====
-- Stores where HEAD and the checked-out branch part.
use uwu_context_db.Prelude.{
  ℕ, ◌≡◌, ◌≢◌, inl, inr, some, arith, nat_eq, list_eq, pair_eq, nat_beq_iff, option_eq,
  Option-cases, Map, lookup, lookup-insert, lookup-insert_self, ok, err, text_iff, Text, text,
}
use uwu_context_db.Error.{VersionError}
use uwu_context_db.Uri.Types.{ContextUri}
use uwu_context_db.Uri.Equality.{uri_eq}
use uwu_context_db.Uri.Ops.{as_str}
use uwu_context_db.Version.Model.{
  CommitId, BranchName, CommitMeta, ChangeSet, Branch, ConflictStrategy,
}
use uwu_context_db.Store.State.{Snapshot, RefKey, Store, External, on_ok-result, head}
use uwu_context_db.Store.Commit.{plan_commit, commit, advance_attached}
use uwu_context_db.Store.Merge.{move_branch, with_head}
use uwu_context_db.Store.Pick.{plan_pick, cherry_pick, finish_rebase, rebase}

advance-diverged :
    (s : Store) (scope : Text) (id : CommitId) (name : BranchName) (b : Branch) (h : CommitId)
    → lookup scope s.attached_branches ≡ some name
    → lookup (scope, name) s.branches ≡ some b
    → lookup scope s.heads ≡ some h
    → h ≢ b.head
    → (branches : Map RefKey Branch) → advance_attached s scope (head s scope) id ≢ ok branches
unfolding advance_attached
advance-diverged s scope id name b h attached there at_head apart branches e =
    ground (arith, nat_beq_iff h b.head, apart)

plan-advance :
    (ext : External) (s : Store) (id : CommitId) (scope : ContextUri) (changes : ChangeSet)
    (plan : Snapshot × Map RefKey Branch)
    → plan_commit ext id scope changes s ≡ ok plan
    → advance_attached s (as_str scope) (head s (as_str scope)) id ≡ ok plan.1
unfolding plan_commit
plan-advance ext s id scope changes plan h = ground arith

move_branch_ne :
    (scope : Text) (into name : BranchName) (f : Branch → Branch) (m : Map RefKey Branch)
    → into ≢ name
    → lookup (scope, name) (move_branch (scope, into) f m) ≡ lookup (scope, name) m
move_branch_ne scope into name f m other = elim (Option-cases (lookup (scope, into) m)) [
  | inl missing ↦ rw (missing, move_branch)
  | inr (o, there) ↦
      rw (there, move_branch)
        (ground
          (arith, lookup-insert (scope, into) (scope, name) (f o) m, text_iff into name, other))
]

pair-eta : {A B : Type 0} {p : A × B} {a : A} → p.0 ≡ a → p ≡ (a, p.1)
pair-eta {p = p} e = λ i. (e i, p.1)

module _ (ext : External) where
  -- Where HEAD of a scope is another commit than the head of its checked-out branch, no commit in the
  -- scope succeeds.
  pub commit-diverged :
      (s : Store) (id : CommitId) (now : ℕ) (scope : ContextUri) (changes : ChangeSet)
      (meta : CommitMeta) (name : BranchName) (b : Branch) (h : CommitId)
      → lookup (as_str scope) s.attached_branches ≡ some name
      → lookup (as_str scope, name) s.branches ≡ some b
      → lookup (as_str scope) s.heads ≡ some h
      → h ≢ b.head
      → (commit ext id now scope changes meta s).0 ≢ ok id
  unfolding commit
  commit-diverged s id now scope changes meta name b h attached there at_head parted e =
      let (plan, planned, done) =
        on_ok-result s (plan_commit ext id scope changes s) _ {b = id}
          {s' = (commit ext id now scope changes meta s).1} (pair-eta e) in
      advance-diverged s (as_str scope) id name b h attached there at_head parted plan.1
        (plan-advance ext s id scope changes plan planned)

  -- A cherry-pick that succeeds onto a branch that is not checked out takes HEAD away from the
  -- checked-out branch: where its id is not the head of that branch, no commit in the scope succeeds
  -- afterwards.
  pub cherry_pick-strands :
      (s s' : Store) (id : CommitId) (now : ℕ) (scope : ContextUri) (picked : CommitId)
      (onto name : BranchName) (strategy : ConflictStrategy) (b : Branch) (id' : CommitId)
      (now' : ℕ) (changes : ChangeSet) (meta : CommitMeta)
      → cherry_pick ext id now scope picked onto strategy s ≡ (ok id, s')
      → lookup (as_str scope) s.attached_branches ≡ some name
      → lookup (as_str scope, name) s.branches ≡ some b
      → onto ≢ name
      → id ≢ b.head
      → (commit ext id' now' scope changes meta s').0 ≢ ok id'
  unfolding cherry_pick
  cherry_pick-strands s s' id now scope picked onto name strategy b id' now' changes meta done
        attached there other fresh =
      let (p, planned, e) = on_ok-result s (plan_pick ext scope picked onto strategy s) _ done in
      commit-diverged s' id' now' scope changes meta name b id (ground (arith, attached))
        (ground
          (arith, there, move_branch_ne (as_str scope) onto name (with_head id) s.branches other))
        (ground (arith, lookup-insert_self (as_str scope) id s.heads)) fresh

  picked-refs :
      (s s' : Store) (id : CommitId) (now : ℕ) (scope : ContextUri) (branch : BranchName)
      (strategy : ConflictStrategy) (b : Branch)
      → lookup (as_str scope, branch) s.branches ≡ some b
      → cherry_pick ext id now scope b.head branch strategy s ≡ (ok id, s')
      → (lookup (as_str scope) s'.heads ≡ some id)
        × (lookup (as_str scope, branch) s'.branches ≡ some (with_head id b))
  unfolding cherry_pick
  picked-refs s s' id now scope branch strategy b there picked =
      let (p, planned, e) =
        on_ok-result s (plan_pick ext scope b.head branch strategy s) _ picked in
      (
        ground (arith, lookup-insert_self (as_str scope) id s.heads),
        ground
            (arith, there, lookup-insert_self (as_str scope, branch) (with_head id b) s.branches),
      )

  -- A rebase of a branch onto itself fails after it has moved the branch: where its cherry-pick, with
  -- an id other than the head of the branch, succeeds, the rebase is an error that leaves the state of
  -- the cherry-pick, with HEAD and the branch at the new commit.
  pub rebase_self :
      (s s' : Store) (id : CommitId) (now : ℕ) (scope : ContextUri) (branch : BranchName)
      (strategy : ConflictStrategy) (b : Branch)
      → lookup (as_str scope, branch) s.branches ≡ some b
      → cherry_pick ext id now scope b.head branch strategy s ≡ (ok id, s')
      → id ≢ b.head
      → (rebase ext id now scope branch branch strategy s
          ≡ (err (VersionError.storage (text "rebase branch CAS failed")), s'))
        × (lookup (as_str scope) s'.heads ≡ some id)
        × (lookup (as_str scope, branch) s'.branches ≡ some (with_head id b))
  unfolding rebase finish_rebase
  rebase_self s s' id now scope branch strategy b there picked fresh =
      let moved = picked-refs s s' id now scope branch strategy b there picked in
      (ground (arith, there, picked, moved.1, nat_beq_iff id b.head, fresh), moved.0, moved.1)
