-- ===== src/Store/Integrity/Picks.antt =====
-- References over `cherry_pick` and `rebase`.
use uwu_context_db.Prelude.{
  ℕ, ◌≡◌, refl, inl, inr, true, [], ◌∷◌, arith, nat_eq, list_eq, pair_eq, nat_beq_iff, option_eq,
  Option-cases, if◌then◌else◌, contains, unwrap_or, lookup, insert, ok, err, contains_key-insert,
}
use uwu_context_db.Uri.Types.{ContextUri}
use uwu_context_db.Uri.Equality.{uri_eq}
use uwu_context_db.Uri.Ops.{as_str}
use uwu_context_db.Version.Model.{CommitId, BranchName, Commit, ConflictStrategy}
use uwu_context_db.Store.State.{
  Snapshot, RefKey, Store, External, Outcome, on_ok-state, on_ok-result,
}
use uwu_context_db.Store.Branches.{ref_key}
use uwu_context_db.Store.Merge.{move_branch, with_head, is_attached}
use uwu_context_db.Store.Pick.{
  plan_pick, cherry_pick, finish_rebase, rebase, target_head, picked_commit, then_finish,
}
use uwu_context_db.Store.Integrity.{HasCommit, IsIntegral}
use uwu_context_db.Store.Integrity.Grow.{
  IsKnown-self, grown-IsIntegral, insert-head-IsKnown, refs-IsIntegral, insert-branch-stored,
}
use uwu_context_db.Store.Integrity.Merges.{move_branch-IsKnown, head-stored}

module _ (ext : External) where
  planned-source :
      (s : Store) (scope : ContextUri) (commit : CommitId) (onto : BranchName)
      (strategy : ConflictStrategy) (p : Commit × Snapshot)
      → plan_pick ext scope commit onto strategy s ≡ ok p
      → HasCommit s commit
  unfolding plan_pick
  planned-source s scope commit onto strategy p h = ground arith

  pick_parent :
      {s : Store} (key : RefKey) (commit p : CommitId)
      → IsIntegral s
      → HasCommit s commit
      → contains (unwrap_or commit (target_head (lookup key s.branches)) ∷ []) p ≡ true
      → HasCommit s p
  unfolding contains
  pick_parent {s} key commit p v k h = elim (Option-cases (lookup key s.branches)) [
    | inl missing ↦ ground (arith, nat_beq_iff commit p)
    | inr (b, there) ↦ ground (arith, nat_beq_iff b.head p, v.branch_heads key b there)
  ]

  -- Where each commit has its snapshot, and the parents of commits, the heads of scopes and the heads
  -- of branches are stored commits, a cherry-pick, successful or not, leaves it so.
  pub cherry_pick-IsIntegral :
      {s : Store} (id : CommitId) (now : ℕ) (scope : ContextUri) (commit : CommitId)
      (onto : BranchName) (strategy : ConflictStrategy)
      → IsIntegral s
      → IsIntegral (cherry_pick ext id now scope commit onto strategy s).1
  unfolding cherry_pick
  cherry_pick-IsIntegral {s} id now scope commit onto strategy v =
      on_ok-state IsIntegral s (plan_pick ext scope commit onto strategy s) _ v λ p planned.
        grown-IsIntegral id _ p.1 (move_branch (ref_key scope onto) (with_head id) s.branches)
          (insert (as_str scope) id s.heads) v
          (λ q h.
            pick_parent (ref_key scope onto) commit q v
              (planned-source s scope commit onto strategy p planned) h)
          (λ key b e.
            move_branch-IsKnown id (ref_key scope onto) key (with_head id) b v
              (λ o. IsKnown-self s id) e)
          (λ sc h e. insert-head-IsKnown id id h (as_str scope) sc v (IsKnown-self s id) e)

  -- What a successful cherry-pick returns is stored.
  cherry_pick-stored :
      (s s' : Store) (id tip : CommitId) (now : ℕ) (scope : ContextUri) (commit : CommitId)
      (onto : BranchName) (strategy : ConflictStrategy)
      → cherry_pick ext id now scope commit onto strategy s ≡ (ok tip, s')
      → HasCommit s' tip
  unfolding cherry_pick
  cherry_pick-stored s s' id tip now scope commit onto strategy h =
      let (p, planned, e) = on_ok-result s (plan_pick ext scope commit onto strategy s) _ h in
      let made =
        picked_commit ext id now (target_head (lookup (ref_key scope onto) s.branches)) commit
          p.0 in
      ground (arith, nat_beq_iff id id, contains_key-insert id id made s.commits)

  finish-IsIntegral :
      {s : Store} (scope : ContextUri) (branch : BranchName) (old tip : CommitId)
      → IsIntegral s
      → HasCommit s tip
      → IsIntegral (finish_rebase ext scope branch old tip s).1
  unfolding finish_rebase
  finish-IsIntegral {s} scope branch old tip v k = on_ok-state IsIntegral s _ _ v λ b checked.
      refs-IsIntegral (insert (ref_key scope branch) (with_head tip b) s.branches)
        (if is_attached s (as_str scope) branch then insert (as_str scope) tip s.heads else s.heads)
        s.attached_branches v
        (λ key c e. insert-branch-stored (ref_key scope branch) key (with_head tip b) c v k e)
        (λ sc h e. head-stored tip h (is_attached s (as_str scope) branch) (as_str scope) sc v k e)

  then_finish-IsIntegral :
      (scope : ContextUri) (branch : BranchName) (old : CommitId) (o : Outcome CommitId)
      → IsIntegral o.1
      → ((tip : CommitId) → o ≡ (ok tip, o.1) → HasCommit o.1 tip)
      → IsIntegral (then_finish ext scope branch old o).1
  then_finish-IsIntegral scope branch old (err e, s) v k = v
  then_finish-IsIntegral scope branch old (ok tip, s) v k =
      finish-IsIntegral scope branch old tip v (k tip refl)

  -- Where each commit has its snapshot, and the parents of commits, the heads of scopes and the heads
  -- of branches are stored commits, a rebase, successful or not, leaves it so.
  pub rebase-IsIntegral :
      {s : Store} (id : CommitId) (now : ℕ) (scope : ContextUri) (branch onto : BranchName)
      (strategy : ConflictStrategy)
      → IsIntegral s
      → IsIntegral (rebase ext id now scope branch onto strategy s).1
  unfolding rebase
  rebase-IsIntegral {s} id now scope branch onto strategy v =
      on_ok-state IsIntegral s _ _ v λ old checked.
        let o = cherry_pick ext id now scope old onto strategy s in
        then_finish-IsIntegral scope branch old o
          (cherry_pick-IsIntegral id now scope old onto strategy v)
          (λ tip e. cherry_pick-stored s o.1 id tip now scope old onto strategy e)
