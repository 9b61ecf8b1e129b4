-- ===== src/Store/Integrity/Merges.antt =====
-- References over `merge`.
use uwu_context_db.Prelude.{
  ℕ, ◌≡◌, refl, inl, inr, Bool, true, false, some, [], ◌∷◌, arith, nat_eq, list_eq, pair_eq,
  nat_beq_iff, option_eq, Bool-cases, Option-cases, if◌then◌else◌, contains, lookup, insert, ok,
  Text,
}
use uwu_context_db.Uri.Types.{ContextUri}
use uwu_context_db.Uri.Equality.{uri_eq}
use uwu_context_db.Uri.Ops.{as_str}
use uwu_context_db.Version.Model.{CommitId, BranchName, Branch, MergeStrategy}
use uwu_context_db.Store.State.{RefKey, Store, External, on_ok-state, snapshot_of, snapshot_of_opt}
use uwu_context_db.Store.Ancestry.{is_ancestor, merge_base}
use uwu_context_db.Store.Merge.{
  branch_heads, merge_snapshots, merge, move_branch, move_target, with_head, is_attached,
  merge_commit, diverged, apart, advance,
}
use uwu_context_db.Store.Integrity.{HasCommit, IsIntegral}
use uwu_context_db.Store.Integrity.Grow.{
  IsKnown, IsKnown-self, IsKnown-old, grown-IsIntegral, insert-branch-IsKnown, insert-head-IsKnown,
  refs-IsIntegral, insert-branch-stored, insert-head-stored,
}

-- `get_mut` moves the branch if it is there.
pub move_branch-IsKnown :
    {s : Store} (id : CommitId) (at key : RefKey) (f : Branch → Branch) (b : Branch)
    → IsIntegral s
    → ((o : Branch) → IsKnown s id (f o).head)
    → lookup key (move_branch at f s.branches) ≡ some b
    → IsKnown s id b.head
move_branch-IsKnown {s} id at key f b v k e = elim (Option-cases (lookup at s.branches)) [
  | inl missing ↦ IsKnown-old s id b.head (v.branch_heads key b (rw (missing, move_branch) at e))
  | inr (o, there) ↦ insert-branch-IsKnown id at key (f o) b v (k o) (rw (there, move_branch) at e)
]

pub head-IsKnown :
    {s : Store} (id h : CommitId) (moves : Bool) (at scope : Text)
    → IsIntegral s
    → lookup scope (if moves then insert at id s.heads else s.heads) ≡ some h
    → IsKnown s id h
head-IsKnown {s} id h true at scope v e =
    insert-head-IsKnown id id h at scope v (IsKnown-self s id) e
head-IsKnown {s} id h false at scope v e = IsKnown-old s id h (v.heads scope h e)

move_branch-stored :
    {s : Store} (at key : RefKey) (f : Branch → Branch) (b : Branch)
    → IsIntegral s
    → ((o : Branch) → HasCommit s (f o).head)
    → lookup key (move_branch at f s.branches) ≡ some b
    → HasCommit s b.head
move_branch-stored {s} at key f b v k e = elim (Option-cases (lookup at s.branches)) [
  | inl missing ↦ v.branch_heads key b (rw (missing, move_branch) at e)
  | inr (o, there) ↦ insert-branch-stored at key (f o) b v (k o) (rw (there, move_branch) at e)
]

pub head-stored :
    {s : Store} (id h : CommitId) (moves : Bool) (at scope : Text)
    → IsIntegral s
    → HasCommit s id
    → lookup scope (if moves then insert at id s.heads else s.heads) ≡ some h
    → HasCommit s h
head-stored {s} id h true at scope v k e = insert-head-stored id h at scope v k e
head-stored {s} id h false at scope v k e = v.heads scope h e

-- What `branch_heads` returns are heads of branches.
pub branch_heads-stored :
    (ext : External) (scope : Text) (from into : BranchName) (s : Store) (hs : CommitId × CommitId)
    → branch_heads ext scope from into s ≡ ok hs
    → (f : Branch) × (i : Branch) × (lookup (scope, from) s.branches ≡ some f)
      × (lookup (scope, into) s.branches ≡ some i)
      × (hs ≡ (f.head, i.head))
unfolding branch_heads
branch_heads-stored ext scope from into s hs h =
    elim (Option-cases (lookup (scope, from) s.branches)) [
      | inl missing ↦ absurd (ground arith)
      | inr (f, there) ↦ elim (Option-cases (lookup (scope, into) s.branches)) [
        | inl missing ↦ absurd (ground arith)
        | inr (i, there') ↦ (f, i, there, there', ground arith)
      ]
    ]

two_parents :
    (s : Store) (a b p : CommitId)
    → HasCommit s a
    → HasCommit s b
    → contains (a ∷ b ∷ []) p ≡ true
    → HasCommit s p
unfolding contains
two_parents s a b p ha hb h = ground (arith, nat_beq_iff a p, nat_beq_iff b p)

move_target-IsIntegral :
    {s : Store} (scope : Text) (into : BranchName) (id : CommitId) (f : Branch → Branch)
    → IsIntegral s
    → HasCommit s id
    → ((o : Branch) → (f o).head ≡ id)
    → IsIntegral (move_target scope into id f s)
move_target-IsIntegral {s} scope into id f v k same =
    refs-IsIntegral (move_branch (scope, into) f s.branches)
      (if is_attached s scope into then insert scope id s.heads else s.heads) s.attached_branches v
      (λ key b e. move_branch-stored (scope, into) key f b v (λ o. rw (same o) k) e)
      (λ sc h e. head-stored id h (is_attached s scope into) scope sc v k e)

head-advance :
    (strategy : MergeStrategy) (id : CommitId) (o : Branch) → (advance strategy id o).head ≡ id
head-advance MergeStrategy.fast_forward id o = refl
head-advance _ id o = refl

module _ (ext : External) where
  diverged-IsIntegral :
      {s : Store} (id : CommitId) (now : ℕ) (scope : Text) (from into : BranchName)
      (strategy : MergeStrategy) (from_head into_head : CommitId)
      → IsIntegral s
      → HasCommit s from_head
      → HasCommit s into_head
      → IsIntegral (diverged ext id now scope from into strategy from_head into_head s).1
  diverged-IsIntegral {s} id now scope from into strategy from_head into_head v kf ki =
      on_ok-state IsIntegral s
        (merge_snapshots ext strategy (snapshot_of_opt s (merge_base s.commits from_head into_head))
          (snapshot_of s into_head) (snapshot_of s from_head))
        _ v
        λ m merged.
          grown-IsIntegral id (merge_commit ext id now from into into_head from_head) m.0
            (move_branch (scope, into) (with_head id) s.branches)
            (if is_attached s scope into then insert scope id s.heads else s.heads) v
            (λ p h. two_parents s into_head from_head p ki kf h)
            (λ key b e.
              move_branch-IsKnown id (scope, into) key (with_head id) b v (λ o. IsKnown-self s id)
                e)
            (λ sc h e. head-IsKnown id h (is_attached s scope into) scope sc v e)

  apart-IsIntegral :
      {s : Store} (id : CommitId) (now : ℕ) (scope : Text) (from into : BranchName)
      (strategy : MergeStrategy) (from_head into_head : CommitId)
      → IsIntegral s
      → HasCommit s from_head
      → HasCommit s into_head
      → IsIntegral (apart ext id now scope from into strategy from_head into_head s).1
  apart-IsIntegral id now scope from into MergeStrategy.fast_forward fh ih v kf ki = v
  apart-IsIntegral id now scope from into other fh ih v kf ki =
      diverged-IsIntegral id now scope from into other fh ih v kf ki

  -- Where each commit has its snapshot, and the parents of commits, the heads of scopes and the heads
  -- of branches are stored commits, a merge with any strategy, successful or not, leaves it so.
  pub merge-IsIntegral :
      {s : Store} (id : CommitId) (now : ℕ) (scope : ContextUri) (from into : BranchName)
      (strategy : MergeStrategy)
      → IsIntegral s
      → IsIntegral (merge ext id now scope from into strategy s).1
  unfolding merge
  merge-IsIntegral {s} id now scope from into strategy v =
      on_ok-state IsIntegral s (branch_heads ext (as_str scope) from into s) _ v λ hs found.
        let (f, i, there, there', same) =
          branch_heads-stored ext (as_str scope) from into s hs found in
        let kf : HasCommit s hs.0 = rw same (v.branch_heads _ f there) in
        let ki : HasCommit s hs.1 = rw same (v.branch_heads _ i there') in
        elim (Bool-cases (is_ancestor s.commits hs.1 hs.0)) [
          | inl ancestor ↦ rw ancestor (
              move_target-IsIntegral (as_str scope) into hs.0 (advance strategy hs.0) v kf
                (head-advance strategy hs.0))
          | inr apart ↦
              rw apart (apart-IsIntegral id now (as_str scope) from into strategy hs.0 hs.1 v kf ki)
        ]
