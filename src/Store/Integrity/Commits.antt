-- ===== src/Store/Integrity/Commits.antt =====
-- References over `commit`, `create_branch`, `delete_branch` and `switch_head`.
use uwu_context_db.Prelude.{
  ℕ, ◌≡◌, inl, inr, true, Option, none, some, arith, nat_eq, list_eq, pair_eq, nat_beq_iff,
  option_eq, Bool-cases, Option-cases, contains, Map, lookup, insert, contains_key, lookup-remove,
  ok, Text,
}
use uwu_context_db.Uri.Types.{ContextUri}
use uwu_context_db.Uri.Equality.{uri_eq}
use uwu_context_db.Uri.Ops.{as_str}
use uwu_context_db.Version.Model.{CommitId, BranchName, CommitMeta, ChangeSet, Branch, BranchType}
use uwu_context_db.Store.State.{Snapshot, RefKey, Store, External, on_ok-state, head, option_list}
use uwu_context_db.Store.Branches.{ref_key}
use uwu_context_db.Store.Commit.{plan_commit, commit, advance_attached}
use uwu_context_db.Store.Commit.Cases.{advance-cases}
use uwu_context_db.Store.Branches.{create_branch, delete_branch, switch_head, ref_key, new_branch}
use uwu_context_db.Store.Integrity.{IsIntegral}
use uwu_context_db.Store.Integrity.Grow.{
  IsKnown, IsKnown-self, IsKnown-old, grown-IsIntegral, insert-branch-IsKnown, insert-head-IsKnown,
  refs-IsIntegral, insert-branch-stored, insert-head-stored,
}

advance-IsKnown :
    {s : Store} (scope : Text) (parent : Option CommitId) (id : CommitId)
    (branches : Map RefKey Branch) (key : RefKey) (b : Branch)
    → IsIntegral s
    → advance_attached s scope parent id ≡ ok branches
    → lookup key branches ≡ some b
    → IsKnown s id b.head
advance-IsKnown {s} scope parent id branches key b v h e =
    elim (advance-cases s scope parent id branches h) [
      | inl (detached, same) ↦ IsKnown-old s id b.head (v.branch_heads key b (rw same at e))
      | inr a ↦
          insert-branch-IsKnown id (scope, a.name) key (record a.old { head = id }) b v
            (IsKnown-self s id) (rw (a.moved) at e)
    ]

one_parent : (o : Option CommitId) (p : CommitId) → contains (option_list o) p ≡ true → o ≡ some p
unfolding contains
one_parent none p h = cc
one_parent (some q) p h = ground (arith, nat_beq_iff q p)

plan-branches :
    (ext : External) (id : CommitId) (scope : ContextUri) (changes : ChangeSet) (s : Store)
    (plan : Snapshot × Map RefKey Branch)
    → plan_commit ext id scope changes s ≡ ok plan
    → advance_attached s (as_str scope) (head s (as_str scope)) id ≡ ok plan.1
unfolding plan_commit
plan-branches ext id scope changes s plan h = ground arith

module _ (ext : External) where
  -- A commit, successful or not, keeps the references valid.
  pub commit-IsIntegral :
      {s : Store} (id : CommitId) (now : ℕ) (scope : ContextUri) (changes : ChangeSet)
      (meta : CommitMeta)
      → IsIntegral s
      → IsIntegral (commit ext id now scope changes meta s).1
  unfolding commit
  commit-IsIntegral {s} id now scope changes meta v =
      on_ok-state IsIntegral s (plan_commit ext id scope changes s) _ v λ plan planned.
        grown-IsIntegral id _ plan.0 plan.1 _ v
          (λ p h. v.heads (as_str scope) p (one_parent (head s (as_str scope)) p h))
          (λ key b e.
            advance-IsKnown (as_str scope) (head s (as_str scope)) id plan.1 key b v
              (plan-branches ext id scope changes s plan planned) e)
          (λ sc h e. insert-head-IsKnown id id h (as_str scope) sc v (IsKnown-self s id) e)

  pub create_branch-IsIntegral :
      {s : Store} (now : ℕ) (scope : ContextUri) (name : BranchName) (from : CommitId)
      (bt : BranchType)
      → IsIntegral s
      → IsIntegral (create_branch ext now scope name from bt s).1
  unfolding create_branch
  create_branch-IsIntegral {s} now scope name from bt v =
      elim (Bool-cases (contains_key (ref_key scope name) s.branches)) [
        | inl there ↦ rw there v
        | inr fresh ↦ elim (Bool-cases (contains_key from s.commits)) [
          | inl stored ↦
              rw (fresh, stored)
                (refs-IsIntegral
                  (insert (ref_key scope name) (new_branch name from now bt) s.branches) s.heads
                  s.attached_branches v
                  (λ key b e.
                    insert-branch-stored (ref_key scope name) key (new_branch name from now bt) b v
                      stored e)
                  v.heads)
          | inr missing ↦ rw (fresh, missing) v
        ]
      ]

pub delete_branch-IsIntegral :
    {s : Store} (scope : ContextUri) (name : BranchName)
    → IsIntegral s
    → IsIntegral (delete_branch scope name s).1
unfolding delete_branch
delete_branch-IsIntegral {s} scope name v =
    elim (Bool-cases (contains_key (ref_key scope name) s.branches)) [
      | inl there ↦ rw there (record {
        snapshots = v.snapshots;
        parents = v.parents;
        heads = v.heads;
        branch_heads = λ key b e.
            ground (arith, lookup-remove (ref_key scope name) key s.branches, v.branch_heads key b);
      })
      | inr missing ↦ rw missing v
    ]

pub switch_head-IsIntegral :
    {s : Store} (scope : ContextUri) (name : BranchName)
    → IsIntegral s
    → IsIntegral (switch_head scope name s).1
unfolding switch_head
switch_head-IsIntegral {s} scope name v =
    elim (Option-cases (lookup (ref_key scope name) s.branches)) [
      | inl missing ↦ rw (missing, switch_head) v
      | inr (b, stored) ↦
          rw (stored, switch_head)
            (refs-IsIntegral s.branches (insert (as_str scope) b.head s.heads)
              (insert (as_str scope) name s.attached_branches) v v.branch_heads
              (λ sc h e.
                insert-head-stored b.head h (as_str scope) sc v
                  (v.branch_heads (ref_key scope name) b stored) e))
    ]
