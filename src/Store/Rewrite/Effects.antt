-- ===== src/Store/Rewrite/Effects.antt =====
-- What a squash leaves.
use uwu_context_db.Prelude.{
  ℕ, ◌≡◌, ◌≢◌, Option, some, List, [], ◌∷◌, arith, nat_eq, list_eq, pair_eq, ok, Text, lookup,
  lookup-insert_self, last?, option_beq_iff,
}
use uwu_context_db.Uri.Types.{ContextUri}
use uwu_context_db.Uri.Ops.{as_str}
use uwu_context_db.Version.Model.{CommitId, SquashResult}
use uwu_context_db.Store.State.{Store, External, on_ok-result, snapshot_of, head, RefKey}
use uwu_context_db.Store.Rewrite.{squash, plan_squash, moved_head, first_parent_of, squash_commit}
use uwu_context_db.Store.Integrity.Rewrites.{lookup-redirect}
use mathlib.Core.Option

module _ (ext : External) where
  planned-squash :
      (scope : Text) (a : CommitId) (ids : List CommitId) (s : Store)
      (p : Option CommitId × CommitId)
      → plan_squash ext scope (a ∷ ids) s ≡ ok p
      → (p.0 ≡ first_parent_of (lookup a s.commits)) × (last? (a ∷ ids) ≡ some p.1)
  unfolding plan_squash
  planned-squash scope a [] s p h = absurd (ground arith)
  planned-squash scope a (b ∷ ids) s p h = (ground arith, ground arith)

  -- A squash that succeeds stores one commit with the parent of the oldest and the snapshot of the
  -- newest.
  pub squash-commit :
      (s s' : Store) (id : CommitId) (now : ℕ) (scope : ContextUri) (a : CommitId)
      (ids : List CommitId) (message : Text) (r : SquashResult)
      → squash ext id now scope (a ∷ ids) message s ≡ (ok r, s')
      → (newest : CommitId) × (last? (a ∷ ids) ≡ some newest)
        × (lookup id s'.commits
            ≡ some (squash_commit ext id now (first_parent_of (lookup a s.commits)) message))
        × (snapshot_of s' id ≡ snapshot_of s newest)
  unfolding squash
  squash-commit s s' id now scope a ids message r h =
      let (p, planned, e) = on_ok-result s (plan_squash ext (as_str scope) (a ∷ ids) s) _ h in
      let (first, newest) = planned-squash (as_str scope) a ids s p planned in
      (
        p.1,
        newest,
        ground
            (arith, first, lookup-insert_self id (squash_commit ext id now p.0 message) s.commits),
        ground (arith, lookup-insert_self id (snapshot_of s p.1) s.entry_snapshots),
      )

  -- After a squash with a new id, no branch of any scope and no HEAD of the squashed scope is at the
  -- newest of the squashed commits: each that was is at the new commit, and the others stay.
  pub squash-branches :
      (s s' : Store) (id : CommitId) (now : ℕ) (scope : ContextUri) (a : CommitId)
      (ids : List CommitId) (message : Text) (r : SquashResult) (newest : CommitId) (key : RefKey)
      → squash ext id now scope (a ∷ ids) message s ≡ (ok r, s')
      → last? (a ∷ ids) ≡ some newest
      → id ≢ newest
      → (lookup key s'.branches ≡ Option.map (moved_head newest id) (lookup key s.branches))
        × (head s' (as_str scope) ≢ some newest)
  unfolding squash
  squash-branches s s' id now scope a ids message r newest key h last fresh =
      let (p, planned, e) = on_ok-result s (plan_squash ext (as_str scope) (a ∷ ids) s) _ h in
      let (first, tip) = planned-squash (as_str scope) a ids s p planned in
      let same : p.1 ≡ newest = ground (arith, tip, last) in
      (
        rw (← same) (ground (arith, lookup-redirect p.1 id s.branches key)),
        ground (
          arith,
          fresh,
          same,
          option_beq_iff (head s (as_str scope)) (some p.1),
          lookup-insert_self (as_str scope) id s.heads,
        ),
      )
