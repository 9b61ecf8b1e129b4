-- ===== src/Store/Sync/Squashed.antt =====
-- What a squash does to the HEAD of another scope.
use uwu_context_db.Prelude.{
  ℕ, ◌≡◌, ◌≢◌, ◌∙◌, ap, some, List, ◌∷◌, arith, nat_eq, nat_beq_iff, list_eq, pair_eq, lookup,
  lookup-insert, text_iff, ok, Text, last?,
}
use uwu_context_db.Uri.Types.{ContextUri}
use uwu_context_db.Uri.Ops.{as_str}
use uwu_context_db.Version.Model.{CommitId, CommitMeta, ChangeSet, SquashResult, Branch, BranchName}
use uwu_context_db.Store.State.{Store, External, on_ok-result}
use uwu_context_db.Store.Commit.{commit}
use uwu_context_db.Store.Rewrite.{squash, plan_squash, moved_head}
use uwu_context_db.Store.Rewrite.Effects.{squash-branches}
use uwu_context_db.Store.Sync.Stranded.{commit-diverged}
use mathlib.Core.Option

module _ (ext : External) where
  squash-other :
      (s s' : Store) (id : CommitId) (now : ℕ) (scope : ContextUri) (ids : List CommitId)
      (message : Text) (r : SquashResult) (other : Text)
      → squash ext id now scope ids message s ≡ (ok r, s')
      → as_str scope ≢ other
      → (lookup other s'.heads ≡ lookup other s.heads)
        × (lookup other s'.attached_branches ≡ lookup other s.attached_branches)
  unfolding squash
  squash-other s s' id now scope ids message r other h apart =
      let (p, planned, e) = on_ok-result s (plan_squash ext (as_str scope) ids s) _ h in
      (
        ground (
          arith,
          lookup-insert (as_str scope) other id s.heads,
          text_iff (as_str scope) other,
          apart,
        ),
        ground arith,
      )

  -- A squash that succeeds, with an id other than its newest commit, moves the branches of every scope
  -- but HEAD of its own scope only: in another scope whose HEAD and checked-out branch were at the newest
  -- squashed commit, no commit succeeds afterwards.
  pub squash-strands :
      (s s' : Store) (id : CommitId) (now : ℕ) (scope : ContextUri) (a : CommitId)
      (ids : List CommitId) (message : Text) (r : SquashResult) (newest : CommitId)
      (other : ContextUri) (name : BranchName) (b : Branch) (id' : CommitId) (now' : ℕ)
      (changes : ChangeSet) (meta : CommitMeta)
      → squash ext id now scope (a ∷ ids) message s ≡ (ok r, s')
      → last? (a ∷ ids) ≡ some newest
      → id ≢ newest
      → as_str scope ≢ as_str other
      → lookup (as_str other) s.attached_branches ≡ some name
      → lookup (as_str other, name) s.branches ≡ some b
      → b.head ≡ newest
      → lookup (as_str other) s.heads ≡ some newest
      → (commit ext id' now' other changes meta s').0 ≢ ok id'
  squash-strands s s' id now scope a ids message r newest other name b id' now' changes meta done
        last fresh apart attached there tip at_head =
      let (moved, free) =
        squash-branches ext s s' id now scope a ids message r newest (as_str other, name) done last
          fresh in
      let (heads, kept) =
        squash-other s s' id now scope (a ∷ ids) message r (as_str other) done apart in
      commit-diverged ext s' id' now' other changes meta name (moved_head newest id b) newest
        (kept ∙ attached) (moved ∙ ap (Option.map (moved_head newest id)) there) (heads ∙ at_head)
        (ground (arith, nat_beq_iff b.head newest, tip, fresh))
