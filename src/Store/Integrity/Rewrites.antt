-- ===== src/Store/Integrity/Rewrites.antt =====
-- References over `squash`.
use uwu_context_db.Prelude.{
  ℕ, ◌≡◌, refl, inl, inr, true, Option, some, List, [], ◌∷◌, arith, nat_eq, list_eq, pair_eq,
  nat_beq_iff, option_eq, option_beq, Option-cases, if◌then◌else◌, head?, contains, Map, lookup,
  insert, ok, Text,
}
use uwu_context_db.Uri.Types.{ContextUri}
use uwu_context_db.Uri.Equality.{uri_eq}
use uwu_context_db.Uri.Ops.{as_str}
use uwu_context_db.Version.Model.{CommitId, Branch}
use uwu_context_db.Store.State.{
  RefKey, Store, External, on_ok-state, head, option_list, snapshot_of,
}
use uwu_context_db.Store.Rewrite.{plan_squash, squash, redirect, first_parent_of}
use uwu_context_db.Store.Integrity.{HasCommit, IsIntegral}
use uwu_context_db.Store.Integrity.Grow.{IsKnown, grown-IsIntegral}
use uwu_context_db.Store.Integrity.Merges.{head-IsKnown}
use mathlib.Core.Option
use uwu_context_db.Store.Rewrite.{moved_head}

pub lookup-redirect :
    (old id : CommitId) (m : Map RefKey Branch) (key : RefKey)
    → lookup key (redirect old id m) ≡ Option.map (moved_head old id) (lookup key m)
unfolding redirect lookup
lookup-redirect old id [] key = refl
lookup-redirect old id ((k, b) ∷ m) key = ground (arith, lookup-redirect old id m key)

redirect-IsKnown :
    {s : Store} (old id : CommitId) (key : RefKey) (b : Branch)
    → IsIntegral s
    → lookup key (redirect old id s.branches) ≡ some b
    → IsKnown s id b.head
redirect-IsKnown {s} old id key b v e = elim (Option-cases (lookup key s.branches)) [
  | inl missing ↦ absurd (ground (arith, lookup-redirect old id s.branches key))
  | inr (c, there) ↦
      ground (
        arith,
        lookup-redirect old id s.branches key,
        v.branch_heads key c there,
        nat_beq_iff id id,
      )
]

squash-parent :
    {s : Store} (id p : CommitId)
    → IsIntegral s
    → contains (option_list (first_parent_of (lookup id s.commits))) p ≡ true
    → HasCommit s p
unfolding contains
squash-parent {s} id p v h = elim (Option-cases (lookup id s.commits)) [
  | inl missing ↦ absurd (ground arith)
  | inr (c, there) ↦ first-known c.parents (rw (there) at h) (v.parents id p c there)
]
  where
    first-known :
        (ps : List CommitId)
        → contains (option_list (head? ps)) p ≡ true
        → (contains ps p ≡ true → HasCommit s p)
        → HasCommit s p
    first-known [] h' k = absurd (ground arith)
    first-known (q ∷ qs) h' k = k (ground arith)

module _ (ext : External) where
  planned-parent :
      (scope : Text) (ids : List CommitId) (s : Store) (p : Option CommitId × CommitId)
      → plan_squash ext scope ids s ≡ ok p
      → (a : CommitId) × (p.0 ≡ first_parent_of (lookup a s.commits))
  unfolding plan_squash
  planned-parent scope [] s p h = absurd (ground arith)
  planned-parent scope (a ∷ []) s p h = absurd (ground arith)
  planned-parent scope (a ∷ b ∷ ids) s p h = (a, ground arith)

  -- Where each commit has its snapshot, and the parents of commits, the heads of scopes and the heads
  -- of branches are stored commits, a squash, successful or not, leaves it so.
  pub squash-IsIntegral :
      {s : Store} (id : CommitId) (now : ℕ) (scope : ContextUri) (ids : List CommitId)
      (message : Text)
      → IsIntegral s
      → IsIntegral (squash ext id now scope ids message s).1
  unfolding squash
  squash-IsIntegral {s} id now scope ids message v =
      on_ok-state IsIntegral s (plan_squash ext (as_str scope) ids s) _ v λ p planned.
        let (a, same) = planned-parent (as_str scope) ids s p planned in
        grown-IsIntegral id _ (snapshot_of s p.1) (redirect p.1 id s.branches)
          (if option_beq (head s (as_str scope)) (some p.1)
            then insert (as_str scope) id s.heads
            else s.heads)
          v (λ q h. squash-parent a q v (rw same at h))
          (λ key b e. redirect-IsKnown p.1 id key b v e)
          (λ sc h e.
            head-IsKnown id h (option_beq (head s (as_str scope)) (some p.1)) (as_str scope) sc v e)
