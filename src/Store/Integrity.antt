-- ===== src/Store/Integrity.antt =====
-- Referential integrity of the version store: what it means that each commit has its snapshot, and
-- that parents of commits, heads of scopes and heads of branches are stored commits. The target of a
-- tag, which `create_tag` does not look up, is left out. The children are about the operations one by
-- one; `gc` is not among them.
pub mod Grow
pub mod Commits
pub mod Merges
pub mod Picks
pub mod Rewrites
use uwu_context_db.Prelude.{
  ℕ, ◌≡◌, true, some, arith, nat_eq, list_eq, pair_eq, option_eq, contains, lookup, contains_key,
  Text,
}
use uwu_context_db.Uri.Equality.{uri_eq}
use uwu_context_db.Version.Model.{CommitId, Commit, Branch}
use uwu_context_db.Store.State.{RefKey, Store, head}

abbrev pub HasCommit : Store → CommitId → Type 0
HasCommit s id = contains_key id s.commits ≡ true

pub record IsIntegral (s : Store) : Type 0 where
  pub snapshots : (id : CommitId) → HasCommit s id → contains_key id s.entry_snapshots ≡ true
  pub parents :
      (id p : CommitId) (c : Commit)
      → lookup id s.commits ≡ some c
      → contains c.parents p ≡ true
      → HasCommit s p
  pub heads : (scope : Text) (id : CommitId) → lookup scope s.heads ≡ some id → HasCommit s id
  pub branch_heads :
      (key : RefKey) (b : Branch) → lookup key s.branches ≡ some b → HasCommit s b.head
