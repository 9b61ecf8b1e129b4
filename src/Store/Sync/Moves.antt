-- ===== src/Store/Sync/Moves.antt =====
-- HEAD and the checked-out branch over switches and merges.
use uwu_context_db.Prelude.{
  ℕ, ◌≡◌, refl, inl, inr, some, arith, ◌==◌, nat_eq, list_eq, pair_eq, option_eq, Bool-cases,
  Option-cases, if◌then◌else◌, Map, lookup, insert, lookup-insert, lookup-insert_self, text_iff,
  opt_iff, Text,
}
use uwu_context_db.Uri.Types.{ContextUri}
use uwu_context_db.Uri.Equality.{uri_eq}
use uwu_context_db.Uri.Ops.{as_str}
use uwu_context_db.Version.Model.{CommitId, BranchName, Commit, Branch, MergeStrategy}
use uwu_context_db.Store.State.{
  Snapshot, Store, External, on_ok-state, snapshot_of, snapshot_of_opt,
}
use uwu_context_db.Store.Ancestry.{is_ancestor, merge_base}
use uwu_context_db.Store.Branches.{ref_key}
use uwu_context_db.Store.Branches.{switch_head, ref_key}
use uwu_context_db.Store.Merge.{
  branch_heads, merge_snapshots, merge, move_branch, move_target, with_head, is_attached, advance,
  diverged, apart,
}
use uwu_context_db.Store.Integrity.Merges.{branch_heads-stored}
use uwu_context_db.Store.Sync.{IsInSync, Agrees}

-- Where HEAD of every scope is the head of its checked-out branch, a switch to a branch, successful or
-- not, leaves it so.
pub switch_head-IsInSync :
    {s : Store} (scope : ContextUri) (name : BranchName)
    → IsInSync s
    → IsInSync (switch_head scope name s).1
unfolding switch_head
switch_head-IsInSync {s} scope name v =
    elim (Option-cases (lookup (ref_key scope name) s.branches)) [
      | inl missing ↦ rw (missing, switch_head) v
      | inr (b, there) ↦
          rw (there, switch_head)
            (record {
              at_branch = λ sc n attached. elim (Bool-cases (as_str scope == sc)) [
                | inl same ↦
                    let e : as_str scope ≡ sc = (text_iff (as_str scope) sc).0 same in
                    let m : name ≡ n =
                      ground
                        (arith, lookup-insert (as_str scope) sc name s.attached_branches, same) in
                    (b, rw (← e, ← m) there, rw e (lookup-insert_self sc b.head s.heads))
                | inr other ↦
                    let (c, there', at_head) = v.at_branch sc n (
                      ground
                        (arith, lookup-insert (as_str scope) sc name s.attached_branches, other)) in
                    (
                      c,
                      there',
                      ground (arith, lookup-insert (as_str scope) sc b.head s.heads, other),
                    )
              ];
            })
    ]

head-advance :
    (strategy : MergeStrategy) (id : CommitId) (o : Branch) → (advance strategy id o).head ≡ id
head-advance MergeStrategy.fast_forward id o = refl
head-advance _ id o = refl

-- The branches and heads that `move_target` leaves, in any state with these.
target-Agrees :
    (s : Store) (scope : Text) (into : BranchName) (id : CommitId) (f : Branch → Branch)
    (o : Branch) (sc : Text) (name : BranchName)
    → IsInSync s
    → lookup (scope, into) s.branches ≡ some o
    → (f o).head ≡ id
    → lookup sc s.attached_branches ≡ some name
    → Agrees
        (insert (scope, into) (f o) s.branches)
        (if is_attached s scope into then insert scope id s.heads else s.heads)
        sc
        name
target-Agrees s scope into id f o sc name v there same attached =
    let (b, at, at_head) = v.at_branch sc name attached in
    elim (Bool-cases (scope == sc)) [
      | inl here ↦
          let e : scope ≡ sc = (text_iff scope sc).0 here in
          elim (Bool-cases (into == name)) [
            | inl target ↦
                let n : into ≡ name = (text_iff into name).0 target in
                (
                  f o,
                  rw (e, n) (lookup-insert_self (sc, name) (f o) s.branches),
                  ground (
                    arith,
                    opt_iff (lookup scope s.attached_branches) (some into),
                    lookup-insert scope sc id s.heads,
                    e,
                    n,
                    same,
                  ),
                )
            | inr apart ↦ (
              b,
              ground (arith, lookup-insert (scope, into) (sc, name) (f o) s.branches, apart),
              ground (
                arith,
                opt_iff (lookup scope s.attached_branches) (some into),
                lookup-insert scope sc id s.heads,
                text_iff into name,
                e,
                apart,
              ),
            )
          ]
      | inr other ↦ (
        b,
        ground (arith, lookup-insert (scope, into) (sc, name) (f o) s.branches, other),
        ground (arith, lookup-insert scope sc id s.heads, other),
      )
    ]

move_target-IsInSync :
    {s : Store} (scope : Text) (into : BranchName) (id : CommitId) (f : Branch → Branch)
    (o : Branch) (commits : Map CommitId Commit) (snapshots : Map CommitId Snapshot)
    → IsInSync s
    → lookup (scope, into) s.branches ≡ some o
    → (f o).head ≡ id
    → IsInSync
        (move_target scope into id f (record s { commits = commits; entry_snapshots = snapshots }))
move_target-IsInSync {s} scope into id f o commits snapshots v there same = record {
  at_branch = λ sc name attached.
      let (b, at, at_head) = target-Agrees s scope into id f o sc name v there same attached in
      (b, rw (there, move_branch) at, at_head);
}

module _ (ext : External) where
  diverged-IsInSync :
      {s : Store} (id : CommitId) (now : ℕ) (scope : Text) (from into : BranchName)
      (strategy : MergeStrategy) (from_head into_head : CommitId) (o : Branch)
      → IsInSync s
      → lookup (scope, into) s.branches ≡ some o
      → IsInSync (diverged ext id now scope from into strategy from_head into_head s).1
  diverged-IsInSync {s} id now scope from into strategy from_head into_head o v there =
      on_ok-state IsInSync s
        (merge_snapshots ext strategy (snapshot_of_opt s (merge_base s.commits from_head into_head))
          (snapshot_of s into_head) (snapshot_of s from_head))
        _ v λ m merged. move_target-IsInSync scope into id (with_head id) o _ _ v there refl

  apart-IsInSync :
      {s : Store} (id : CommitId) (now : ℕ) (scope : Text) (from into : BranchName)
      (strategy : MergeStrategy) (from_head into_head : CommitId) (o : Branch)
      → IsInSync s
      → lookup (scope, into) s.branches ≡ some o
      → IsInSync (apart ext id now scope from into strategy from_head into_head s).1
  apart-IsInSync id now scope from into MergeStrategy.fast_forward fh ih o v there = v
  apart-IsInSync id now scope from into other fh ih o v there =
      diverged-IsInSync id now scope from into other fh ih o v there

  -- Where HEAD of every scope is the head of its checked-out branch, a merge, successful or not, leaves
  -- it so.
  pub merge-IsInSync :
      {s : Store} (id : CommitId) (now : ℕ) (scope : ContextUri) (from into : BranchName)
      (strategy : MergeStrategy)
      → IsInSync s
      → IsInSync (merge ext id now scope from into strategy s).1
  unfolding merge
  merge-IsInSync {s} id now scope from into strategy v =
      on_ok-state IsInSync s (branch_heads ext (as_str scope) from into s) _ v λ hs found.
        let (f, i, there, there', same) =
          branch_heads-stored ext (as_str scope) from into s hs found in
        elim (Bool-cases (is_ancestor s.commits hs.1 hs.0)) [
          | inl ancestor ↦ rw ancestor (
              move_target-IsInSync (as_str scope) into hs.0 (advance strategy hs.0) i s.commits
                s.entry_snapshots v there' (head-advance strategy hs.0 i))
          | inr parted ↦
              rw parted
                (apart-IsInSync id now (as_str scope) from into strategy hs.0 hs.1 i v there')
        ]
