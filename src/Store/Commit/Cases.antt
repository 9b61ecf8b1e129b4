-- ===== src/Store/Commit/Cases.antt =====
-- The two ways in which a commit leaves the branches.
use uwu_context_db.Prelude.{
  ◌≡◌, ◌⊎◌, inl, inr, Option, none, some, arith, nat_eq, list_eq, pair_eq, option_eq,
  option_beq_iff, Option-cases, Map, lookup, insert, ok, Text,
}
use uwu_context_db.Uri.Equality.{uri_eq}
use uwu_context_db.Version.Model.{CommitId, BranchName, Branch}
use uwu_context_db.Store.State.{RefKey, Store}
use uwu_context_db.Store.Commit.{advance_attached}

pub record Advanced (s : Store) (scope : Text) (parent : Option CommitId) (id : CommitId)
    (branches : Map RefKey Branch) : Type 0 where
  pub name : BranchName
  pub old : Branch
  pub attached : lookup scope s.attached_branches ≡ some name
  pub stored : lookup (scope, name) s.branches ≡ some old
  pub at_parent : parent ≡ some old.head
  pub moved : branches ≡ insert (scope, name) (record old { head = id }) s.branches

-- Detached, all branches stay; attached, the branch stood at the parent and moves to the new id.
pub advance-cases :
    (s : Store) (scope : Text) (parent : Option CommitId) (id : CommitId)
    (branches : Map RefKey Branch)
    → advance_attached s scope parent id ≡ ok branches
    → ((lookup scope s.attached_branches ≡ none) × (branches ≡ s.branches))
      ⊎ Advanced s scope parent id branches
unfolding advance_attached
advance-cases s scope parent id branches h =
    elim (Option-cases (lookup scope s.attached_branches)) [
      | inl detached ↦ inl (ground arith)
      | inr (name, attached) ↦ elim (Option-cases (lookup (scope, name) s.branches)) [
        | inl missing ↦ absurd (ground arith)
        | inr (old, stored) ↦ inr (record {
          name = name;
          old = old;
          attached = attached;
          stored = stored;
          at_parent = ground (arith, option_beq_iff parent (some old.head));
          moved = ground arith;
        })
      ]
    ]
