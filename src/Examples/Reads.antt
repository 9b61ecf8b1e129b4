-- ===== src/Examples/Reads.antt =====
-- Reads, logs and reports of the small store.
use uwu_context_db.Prelude.{
  contains_key, not, ◌&&◌, ◌≡◌, ◌<◌, ◌≤◌, ◌⊎◌, ◌++◌, refl, [], ◌∷◌, some, none, text, lookup,
  insert, contains, ok, err, nat_eq, list_eq, pair_eq, list_beq, length, unwrap_or, split,
}
use uwu_context_db.Error.{VersionError}
use uwu_context_db.Uri.Types.{l1, l2}
use uwu_context_db.Uri.Ops.{as_str}
use uwu_context_db.Uri.Parse.{slash}
use uwu_context_db.Version.Model.{CommitId, Commit, LogOpts, VersionRef, AsOfTime, ImpactAnalysis}
use uwu_context_db.Store.State.{Store, snapshot_of}
use uwu_context_db.Store.Commit.{
  commit, plan_commit, apply_changes, apply_adds, apply_updates, apply_deletes, apply_renames,
  advance_attached,
}
use uwu_context_db.Store.Read.{log, read_at, asof_read, at_level, branch_head, resolve_head}
use uwu_context_db.Store.Read.Logs.{IsHistory, log-IsHistory}
use uwu_context_db.Store.Read.Times.{IsReadAt, Stands, asof_read-newest}
use uwu_context_db.Store.Read.Prefixes.{IsLongest, NoHead, resolve_head-IsLongest}
use uwu_context_db.Store.Read.Written.{read_at-commit}
use uwu_context_db.Store.Merge.Conflicts.{texts_of}
use uwu_context_db.Store.Diff.{diff_commits}
use uwu_context_db.Store.Diff.Keys.{diff_commits-keys, parses}
use uwu_context_db.Examples.Fixture.{ext, scope, page, entry, store, adds_entry, by_user}

abbrev committed : Store
committed = (commit ext 9 90 scope adds_entry by_user store).1

read_at-commit_example :
    read_at ext page (VersionRef.commit 9) l2 committed ≡ ok (at_level l2 entry)
unfolding commit plan_commit apply_changes apply_adds apply_updates apply_deletes apply_renames
    advance_attached lookup insert contains list_beq text
read_at-commit_example =
    read_at-commit ext store committed 9 90 scope adds_entry entry [] [] by_user (text "{}") l2 refl
      refl refl refl refl refl

abbrev two_of_main : LogOpts
two_of_main = record { max_count = some 2; branch = some (text "main") }

log-IsHistory_example :
    IsHistory store.commits 2
      (unwrap_or 99 (branch_head store scope.canonical (some (text "main"))))
      (log 99 scope two_of_main store)
    × (length (log 99 scope two_of_main store) ≤ 2)
log-IsHistory_example = log-IsHistory 99 scope two_of_main store

asof_read-newest_example :
    IsReadAt ext 25 page l1 store
    ⊎ (((j : CommitId) (c : Commit) → Stands j c store.commits → 25 < c.timestamp)
        × (asof_read ext page (AsOfTime.timestamp 25) l1 store
            ≡ err (VersionError.not_found (text "no commit before " ++ ext.time.show_time 25))))
asof_read-newest_example = asof_read-newest ext 25 page l1 store

resolve_head-IsLongest_example :
    ((id : CommitId) × IsLongest store
        (split slash (as_str page))
        (length (split slash (as_str page)))
        id
      × (resolve_head store page ≡ some id))
    ⊎ (NoHead store (split slash (as_str page)) (length (split slash (as_str page)))
        × (resolve_head store page ≡ none))
resolve_head-IsLongest_example = resolve_head-IsLongest store page

abbrev impact : ImpactAnalysis
impact = record { commit = 3; downstream_uris = []; affected_branches = text "side" ∷ [] }

diff_commits-keys_example :
    (contains (texts_of (diff_commits ext 1 4 store).adds) page.canonical ≡ (
      contains_key page.canonical (snapshot_of store 4)
      && (not (contains_key page.canonical (snapshot_of store 1)) && parses ext page.canonical)))
    × (contains (texts_of (diff_commits ext 1 4 store).deletes) page.canonical ≡ (
        contains_key page.canonical (snapshot_of store 1)
        && (not (contains_key page.canonical (snapshot_of store 4)) && parses ext page.canonical)))
diff_commits-keys_example = diff_commits-keys ext 1 4 store page.canonical
