-- ===== src/Store/Sync.antt =====
-- HEAD and the checked-out branch, and when they agree.
pub mod Moves
pub mod Stranded
pub mod Squashed
pub mod Kept
use uwu_context_db.Prelude.{
  ℕ, ◌-◌, ◌≡◌, inl, inr, none, some, arith, ◌==◌, nat_eq, list_eq, pair_eq, nat_beq_iff, option_eq,
  Bool-cases, Option-cases, Map, lookup, insert, lookup-insert, lookup-insert_self, ok, text_iff,
  Text,
}
use uwu_context_db.Uri.Types.{ContextUri}
use uwu_context_db.Uri.Equality.{uri_eq}
use uwu_context_db.Uri.Ops.{as_str}
use uwu_context_db.Version.Model.{CommitId, BranchName, CommitMeta, ChangeSet, Branch}
use uwu_context_db.Store.State.{
  Snapshot, RefKey, Store, External, on_ok-state, head, snapshot_of_opt,
}
use uwu_context_db.Store.Commit.{plan_commit, commit, advance_attached, apply_changes}
use uwu_context_db.Store.Commit.Cases.{Advanced, advance-cases}

-- The branch that a scope has checked out exists, and HEAD of the scope is its head.
pub record IsInSync (s : Store) : Type 0 where
  pub at_branch :
      (scope : Text) (name : BranchName)
      → lookup scope s.attached_branches ≡ some name
      → (b : Branch) × (lookup (scope, name) s.branches ≡ some b)
        × (lookup scope s.heads ≡ some b.head)

-- In sync, the branch of a scope can always advance.
pub advance-ok :
    (s : Store) (scope : Text) (id : CommitId)
    → IsInSync s
    → (branches : Map RefKey Branch) × (advance_attached s scope (head s scope) id ≡ ok branches)
unfolding advance_attached
advance-ok s scope id v = elim (Option-cases (lookup scope s.attached_branches)) [
  | inl detached ↦ (s.branches, ground arith)
  | inr (name, attached) ↦
      let (b, there, at_head) = v.at_branch scope name attached in
      (
        insert (scope, name) (record b { head = id }) s.branches,
        ground (arith, nat_beq_iff b.head b.head),
      )
]

-- A branch that agrees with HEAD of its scope.
abbrev pub Agrees : Map RefKey Branch → Map Text CommitId → Text → BranchName → Type 0
Agrees branches heads scope name =
    (b : Branch) × (lookup (scope, name) branches ≡ some b) × (lookup scope heads ≡ some b.head)

sync-detached :
    (s : Store) (scope : Text) (id : CommitId) (branches : Map RefKey Branch) (sc : Text)
    (name : BranchName)
    → IsInSync s
    → lookup scope s.attached_branches ≡ none
    → branches ≡ s.branches
    → lookup sc s.attached_branches ≡ some name
    → Agrees branches (insert scope id s.heads) sc name
sync-detached s scope id branches sc name v detached same attached =
    let (b, there, at_head) = v.at_branch sc name attached in
    (b, rw same there, ground (arith, text_iff scope sc, lookup-insert scope sc id s.heads))

sync-attached :
    (s : Store) (scope : Text) (id : CommitId) (branches : Map RefKey Branch) (sc : Text)
    (name : BranchName)
    → IsInSync s
    → Advanced s scope (head s scope) id branches
    → lookup sc s.attached_branches ≡ some name
    → Agrees branches (insert scope id s.heads) sc name
sync-attached s scope id branches sc name v a attached = elim (Bool-cases (scope == sc)) [
  | inl same ↦
      let e : scope ≡ sc = (text_iff scope sc).0 same in
      let n : a.name ≡ name = ground (arith, a.attached) in
      (
        record a.old { head = id },
        rw (a.moved, e, n) (lookup-insert_self (sc, name) (record a.old { head = id }) s.branches),
        rw e (lookup-insert_self sc id s.heads),
      )
  | inr other ↦
      let (b, there, at_head) = v.at_branch sc name attached in
      (
        b,
        ground (
          arith,
          a.moved,
          lookup-insert (scope, a.name) (sc, name) (record a.old { head = id }) s.branches,
          other,
        ),
        ground (arith, lookup-insert scope sc id s.heads, other),
      )
]

plan-advance :
    (ext : External) (s : Store) (id : CommitId) (scope : ContextUri) (changes : ChangeSet)
    (plan : Snapshot × Map RefKey Branch)
    → plan_commit ext id scope changes s ≡ ok plan
    → advance_attached s (as_str scope) (head s (as_str scope)) id ≡ ok plan.1
unfolding plan_commit
plan-advance ext s id scope changes plan h = ground arith

module _ (ext : External) where
  -- Where HEAD of every scope is the head of its checked-out branch, a commit succeeds if its changes
  -- apply to the snapshot of HEAD.
  pub commit-ok :
      (s : Store) (id : CommitId) (now : ℕ) (scope : ContextUri) (changes : ChangeSet)
      (meta : CommitMeta) (snap : Snapshot)
      → IsInSync s
      → apply_changes ext changes (snapshot_of_opt s (head s (as_str scope))) ≡ ok snap
      → (commit ext id now scope changes meta s).0 ≡ ok id
  unfolding commit plan_commit
  commit-ok s id now scope changes meta snap v applied =
      let (branches, advanced) = advance-ok s (as_str scope) id v in
      ground (arith, applied, advanced)

  -- Where HEAD of every scope is the head of its checked-out branch, a commit, successful or not, leaves
  -- it so.
  pub commit-IsInSync :
      {s : Store} (id : CommitId) (now : ℕ) (scope : ContextUri) (changes : ChangeSet)
      (meta : CommitMeta)
      → IsInSync s
      → IsInSync (commit ext id now scope changes meta s).1
  unfolding commit
  commit-IsInSync {s} id now scope changes meta v =
      on_ok-state IsInSync s (plan_commit ext id scope changes s) _ v λ plan planned. record {
        at_branch = λ sc name attached.
            elim (advance-cases s (as_str scope) (head s (as_str scope)) id plan.1
              (plan-advance ext s id scope changes plan planned)) [
                | inl (detached, same) ↦
                    sync-detached s (as_str scope) id plan.1 sc name v detached same attached
                | inr a ↦ sync-attached s (as_str scope) id plan.1 sc name v a attached
              ];
      }
