-- ===== src/Store/Branches.antt =====
-- Branches, tags and the checked-out branch: `create_branch`, `list_branches`, `delete_branch`,
-- `create_tag`, `list_tags` and `switch_head`.
use uwu_context_db.Prelude.{
  ℕ, none, some, List, [], ◌∷◌, ◌++◌, ◌==◌, nat_eq, list_eq, pair_eq, option_eq, if◌then◌else◌, Map,
  lookup, insert, remove, contains_key, ok, err, Text, text,
}
use uwu_context_db.Error.{VersionError}
use uwu_context_db.Uri.Types.{ContextUri}
use uwu_context_db.Uri.Equality.{uri_eq}
use uwu_context_db.Uri.Ops.{as_str}
use uwu_context_db.Version.Model.{CommitId, BranchName, Branch, BranchType, Tag, active}
use uwu_context_db.Store.State.{RefKey, Store, External, Outcome}

abbrev pub ref_key : ContextUri → Text → RefKey
ref_key scope name = (as_str scope, name)

abbrev pub branch_not_found : BranchName → VersionError
branch_not_found name = VersionError.not_found (text "branch " ++ name)

abbrev pub new_branch : BranchName → CommitId → ℕ → BranchType → Branch
new_branch name from now bt = record {
  name = name;
  head = from;
  created_from = from;
  created_at = now;
  branch_type = bt;
  lifecycle = active;
}

module _ (ext : External) where
  unfoldable pub create_branch :
      ℕ → ContextUri → BranchName → CommitId → BranchType → Store → Outcome Branch
  create_branch now scope name from bt s =
      if contains_key (ref_key scope name) s.branches
      then (err (VersionError.branch_exists name), s)
      else if contains_key from s.commits
      then (
        ok (new_branch name from now bt),
        record s {
          branches = insert (ref_key scope name) (new_branch name from now bt) s.branches;
        },
      )
      else (err (VersionError.not_found (text "commit " ++ ext.show_id from)), s)

-- The values whose key has the scope.
unfoldable pub in_scope {ℓ} : {V : Type ℓ} → Text → Map RefKey V → List V
in_scope scope [] = []
in_scope scope (((sc, n), v) ∷ m) = if sc == scope then v ∷ in_scope scope m else in_scope scope m

unfoldable pub list_branches : ContextUri → Store → List Branch
unfolding in_scope
list_branches scope s = in_scope (as_str scope) s.branches

unfoldable pub delete_branch : ContextUri → BranchName → Store → Outcome (Unit {0})
delete_branch scope name s =
    if contains_key (ref_key scope name) s.branches
    then (ok tt, record s { branches = remove (ref_key scope name) s.branches })
    else (err (branch_not_found name), s)

unfoldable pub create_tag : ContextUri → Tag → Store → Store
create_tag scope t s = record s { tags = insert (ref_key scope t.name) t s.tags }

unfoldable pub list_tags : ContextUri → Store → List Tag
unfolding in_scope
list_tags scope s = in_scope (as_str scope) s.tags

unfoldable pub switch_head : ContextUri → BranchName → Store → Outcome (Unit {0})
switch_head scope name s = elim (lookup (ref_key scope name) s.branches) [
  | none ↦ (err (branch_not_found name), s)
  | some b ↦ (
    ok tt,
    record s {
      heads = insert (as_str scope) b.head s.heads;
      attached_branches = insert (as_str scope) name s.attached_branches;
    },
  )
]
