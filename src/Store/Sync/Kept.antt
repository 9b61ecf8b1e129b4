-- ===== src/Store/Sync/Kept.antt =====
-- Runs of commits, merges, switches, new branches and tags, with HEAD and the checked-out branch.
use uwu_context_db.Prelude.{
  ℕ, ◌≡◌, inl, inr, arith, nat_eq, list_eq, pair_eq, Bool-cases, contains_key, lookup,
  lookup-insert, text_iff, ok,
}
use uwu_context_db.Uri.Types.{ContextUri}
use uwu_context_db.Uri.Ops.{as_str}
use uwu_context_db.Version.Model.{
  CommitId, CommitMeta, ChangeSet, BranchName, BranchType, Tag, MergeStrategy,
}
use uwu_context_db.Store.State.{Store, External, Snapshot, new, head, snapshot_of_opt}
use uwu_context_db.Store.Branches.{create_branch, create_tag, switch_head, ref_key, new_branch}
use uwu_context_db.Store.Commit.{commit, apply_changes}
use uwu_context_db.Store.Merge.{merge}
use uwu_context_db.Store.Sync.{IsInSync, commit-ok, commit-IsInSync}
use uwu_context_db.Store.Sync.Moves.{switch_head-IsInSync, merge-IsInSync}

module _ (ext : External) where
  -- Commits, merges, switches, and new branches and tags, successful or not.
  pub data DailyRun (s : Store) : Store → Type 0 where
    at_start : DailyRun s s
    then_commit :
        {t : Store} (id : CommitId) (now : ℕ) (scope : ContextUri) (changes : ChangeSet)
        (meta : CommitMeta)
        → DailyRun s t
        → DailyRun s (commit ext id now scope changes meta t).1
    then_merge :
        {t : Store} (id : CommitId) (now : ℕ) (scope : ContextUri) (from into : BranchName)
        (strategy : MergeStrategy)
        → DailyRun s t
        → DailyRun s (merge ext id now scope from into strategy t).1
    then_switch :
        {t : Store} (scope : ContextUri) (name : BranchName)
        → DailyRun s t
        → DailyRun s (switch_head scope name t).1
    then_branch :
        {t : Store} (now : ℕ) (scope : ContextUri) (name : BranchName) (from : CommitId)
        (bt : BranchType)
        → DailyRun s t
        → DailyRun s (create_branch ext now scope name from bt t).1
    then_tag :
        {t : Store} (scope : ContextUri) (tag : Tag)
        → DailyRun s t
        → DailyRun s (create_tag scope tag t)

  create_branch-IsInSync :
      {s : Store} (now : ℕ) (scope : ContextUri) (name : BranchName) (from : CommitId)
      (bt : BranchType)
      → IsInSync s
      → IsInSync (create_branch ext now scope name from bt s).1
  unfolding create_branch
  create_branch-IsInSync {s} now scope name from bt v =
      elim (Bool-cases (contains_key (ref_key scope name) s.branches)) [
        | inl there ↦ rw there v
        | inr fresh ↦ elim (Bool-cases (contains_key from s.commits)) [
          | inl known ↦
              rw (fresh, known)
                (record {
                  at_branch = λ sc other attached.
                      let (b, stored, at_head) = v.at_branch sc other attached in
                      (
                        b,
                        ground (
                          arith,
                          stored,
                          fresh,
                          text_iff (as_str scope) sc,
                          text_iff name other,
                          lookup-insert (ref_key scope name) (sc, other)
                              (new_branch name from now bt) s.branches,
                        ),
                        at_head,
                      );
                })
          | inr missing ↦ rw (fresh, missing) v
        ]
      ]

  create_tag-IsInSync :
      {s : Store} (scope : ContextUri) (tag : Tag) → IsInSync s → IsInSync (create_tag scope tag s)
  unfolding create_tag
  create_tag-IsInSync scope tag v = record { at_branch = v.at_branch }

  DailyRun-IsInSync : {s t : Store} → DailyRun s t → IsInSync s → IsInSync t
  DailyRun-IsInSync at_start v = v
  DailyRun-IsInSync (then_commit id now scope changes meta r) v =
      commit-IsInSync ext id now scope changes meta (DailyRun-IsInSync r v)
  DailyRun-IsInSync (then_merge id now scope from into strategy r) v =
      merge-IsInSync ext id now scope from into strategy (DailyRun-IsInSync r v)
  DailyRun-IsInSync (then_switch scope name r) v =
      switch_head-IsInSync scope name (DailyRun-IsInSync r v)
  DailyRun-IsInSync (then_branch now scope name from bt r) v =
      create_branch-IsInSync now scope name from bt (DailyRun-IsInSync r v)
  DailyRun-IsInSync (then_tag scope tag r) v = create_tag-IsInSync scope tag (DailyRun-IsInSync r v)

  new-IsInSync : (n : ℕ) (s : Store) → new n ≡ ok s → IsInSync s
  unfolding new lookup
  new-IsInSync n s h = record { at_branch = λ scope name attached. absurd (ground arith) }

  -- In every store that commits, merges, switches, and new branches and tags make of a new one, a
  -- commit succeeds if its changes apply to the snapshot of HEAD.
  pub DailyRun-commit :
      (n : ℕ) (s t : Store) (id : CommitId) (now : ℕ) (scope : ContextUri) (changes : ChangeSet)
      (meta : CommitMeta) (snap : Snapshot)
      → new n ≡ ok s
      → DailyRun s t
      → apply_changes ext changes (snapshot_of_opt t (head t (as_str scope))) ≡ ok snap
      → (commit ext id now scope changes meta t).0 ≡ ok id
  DailyRun-commit n s t id now scope changes meta snap made r applied =
      commit-ok ext t id now scope changes meta snap (DailyRun-IsInSync r (new-IsInSync n s made))
        applied
