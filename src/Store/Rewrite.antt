-- ===== src/Store/Rewrite.antt =====
-- `squash` and `gc`.
pub mod Effects
pub mod Collected
use uwu_context_db.Prelude.{
  ℕ, ◌+◌, Bool, true, false, ◌&&◌, ◌||◌, Option, none, some, List, [], ◌∷◌, ◌++◌, nat_beq, nat_eq,
  list_eq, pair_eq, option_eq, option_beq, if◌then◌else◌, length, drop, head?, last?, all_by, Map,
  values, lookup, insert, remove, contains_key, Result, ok, err, ◌>>=◌, ◌>>◌, ok_or, guard, Text,
  text,
}
use uwu_context_db.Error.{VersionError}
use uwu_context_db.Uri.Types.{ContextUri}
use uwu_context_db.Uri.Equality.{uri_eq}
use uwu_context_db.Uri.Ops.{as_str}
use uwu_context_db.Version.Model.{
  CommitId, Commit, CommitMeta, Branch, SquashResult, GcPolicy, GcReport, auto_consolidation,
}
use uwu_context_db.Store.State.{
  RefKey, Store, External, Outcome, on_ok, head, option_list, snapshot_of, system_author,
}
use uwu_context_db.Store.Read.{log}

-- `commits.windows(2)`: each commit has the one before it as its first parent.
unfoldable pub is_first_parent_range : Map CommitId Commit → List CommitId → Bool
is_first_parent_range commits [] = true
is_first_parent_range commits (a ∷ []) = true
is_first_parent_range commits (a ∷ b ∷ ids) =
    (elim (lookup b commits) [ none ↦ false | some c ↦ option_beq (head? c.parents) (some a) ])
    && is_first_parent_range commits (b ∷ ids)

abbrev pub any_head : CommitId → List Branch → Bool
any_head id [] = false
any_head id (b ∷ bs) = nat_beq b.head id || any_head id bs

-- The tip is HEAD of the scope, or the head of a branch of any scope.
unfoldable pub is_referenced : Text → CommitId → Store → Bool
is_referenced scope id s = option_beq (head s scope) (some id) || any_head id (values s.branches)

abbrev pub first_parent_of : Option Commit → Option CommitId
first_parent_of none = none
first_parent_of (some c) = head? c.parents

abbrev pub moved_head : CommitId → CommitId → Branch → Branch
moved_head old id b = if nat_beq b.head old then record b { head = id } else b

-- `for branch in branches.values_mut()`
unfoldable pub redirect : CommitId → CommitId → Map RefKey Branch → Map RefKey Branch
redirect old id [] = []
redirect old id ((k, b) ∷ m) = (k, moved_head old id b) ∷ redirect old id m

abbrev pub no_meta : CommitMeta
no_meta = record {
  trigger = auto_consolidation;
  changes = record { adds = []; updates = []; deletes = []; renames = [] };
  provenance = [];
}

module _ (ext : External) where
  abbrev pub squash_commit : CommitId → ℕ → Option CommitId → Text → Commit
  squash_commit id now parent message = record {
    id = id;
    parents = option_list parent;
    tree_hash = text "squash-" ++ ext.show_id id;
    author = system_author true;
    message = message;
    timestamp = now;
    metadata = no_meta;
  }

  -- The text of the first id without a commit.
  unfoldable pub missing_id : Store → List CommitId → Text
  missing_id s [] = []
  missing_id s (id ∷ ids) = if contains_key id s.commits then missing_id s ids else ext.show_id id

  -- The checks of `squash`: the parent of the oldest commit, and the newest commit.
  unfoldable pub plan_squash :
      Text → List CommitId → Store → Result VersionError (Option CommitId × CommitId)
  unfolding is_first_parent_range is_referenced
  plan_squash scope [] s = err (VersionError.storage (text "squash needs >= 2 commits"))
  plan_squash scope (a ∷ []) s = err (VersionError.storage (text "squash needs >= 2 commits"))
  plan_squash scope (a ∷ b ∷ ids) s = do
    guard (all_by (λ id. contains_key id s.commits) (a ∷ b ∷ ids))
        (VersionError.not_found (text "commit " ++ missing_id s (a ∷ b ∷ ids)))
    guard (is_first_parent_range s.commits (a ∷ b ∷ ids)) (
        VersionError.storage
          (text "squash commits must be a consecutive first-parent range ordered oldest to newest"))
    newest ← ok_or (VersionError.storage (text "squash needs commits")) (last? (a ∷ b ∷ ids))
    guard (is_referenced scope newest s)
        (VersionError.storage (text "squash tip is not referenced by a branch or HEAD"))
    ok (first_parent_of (lookup a s.commits), newest)

  unfoldable pub squash :
      CommitId → ℕ → ContextUri → List CommitId → Text → Store → Outcome SquashResult
  squash id now scope ids message s =
      on_ok s (plan_squash (as_str scope) ids s) (λ (p : Option CommitId × CommitId). (
        ok (record { new_commit = id; squashed_count = length ids }),
        record s {
          commits = insert id (squash_commit id now p.0 message) s.commits;
          entry_snapshots = insert id (snapshot_of s p.1) s.entry_snapshots;
          branches = redirect p.1 id s.branches;
          heads =
              if option_beq (head s (as_str scope)) (some p.1)
              then insert (as_str scope) id s.heads
              else s.heads;
        },
      ))

-- One round of the loop of `gc`.
abbrev pub collect_commit : CommitId → Store × GcReport → Store × GcReport
collect_commit id (s, r) = (
  record s { commits = remove id s.commits; entry_snapshots = remove id s.entry_snapshots },
  record {
    removed_commits = r.removed_commits + 1;
    freed_snapshots =
        (if contains_key id s.entry_snapshots then r.freed_snapshots + 1 else r.freed_snapshots);
  },
)

unfoldable pub collect_commits : List Commit → Store × GcReport → Store × GcReport
collect_commits [] acc = acc
collect_commits (c ∷ cs) acc = collect_commits cs (collect_commit c.id acc)

unfoldable pub gc : CommitId → ContextUri → GcPolicy → Store → GcReport × Store
unfolding collect_commits
gc fresh scope policy s =
    let (s', report) =
      collect_commits
        (drop policy.keep_recent (log fresh scope (record { max_count = none; branch = none }) s))
        (s, record { removed_commits = 0; freed_snapshots = 0 }) in
    (report, s')
