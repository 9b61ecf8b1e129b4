-- ===== src/Examples/Runs.antt =====
-- Runs of small stores, commits of stores in and out of sync, squashes and collections.
use uwu_context_db.Prelude.{
  err, ℕ, ◌≡◌, ◌≢◌, refl, false, if◌then◌else◌, length, [], ◌∷◌, some, none, text, lookup, insert,
  remove, contains, ok, nat_eq, list_eq, pair_eq, arith, list_beq, last?,
}
use uwu_context_db.Error.{VersionError}
use uwu_context_db.Uri.Ops.{as_str}
use uwu_context_db.Version.Model.{CommitId, ConflictStrategy, Tag, TagType, GcPolicy, SquashResult}
use uwu_context_db.Store.State.{Store, Snapshot, new, snapshot_of}
use uwu_context_db.Store.Branches.{create_tag}
use uwu_context_db.Store.Commit.{
  commit, commit_on_parent, put_entry_version, plan_commit, apply_changes, apply_adds,
  apply_updates, apply_deletes, apply_renames, advance_attached,
}
use uwu_context_db.Store.Merge.{distinct, with_head}
use uwu_context_db.Store.Pick.{
  cherry_pick, rebase, plan_pick, pick_snapshot, changed_uris, is_conflict, apply_uris,
}
use uwu_context_db.Store.Rewrite.{
  squash, plan_squash, is_first_parent_range, is_referenced, redirect, squash_commit, gc,
}
use uwu_context_db.Store.Rewrite.Effects.{squash-commit}
use uwu_context_db.Store.Rewrite.Collected.{gc-lookup, gc-dangles, has_id, past}
use uwu_context_db.Store.Integrity.{IsIntegral}
use uwu_context_db.Store.Reachable.{
  Changes, unchanged, stepped, put, start, then_step, did_commit, did_commit_on_parent,
  did_create_tag, reachable-IsIntegral,
}
use uwu_context_db.Store.Reachable.History.{Run-history}
use uwu_context_db.Store.Sync.{IsInSync}
use uwu_context_db.Store.Sync.Stranded.{cherry_pick-strands, rebase_self}
use uwu_context_db.Examples.Fixture.{
  ext, scope, page, entry, store, empty, adds_entry, by_user, stored, branch, main_page,
}

abbrev after_commit : Store
after_commit = (commit ext 1 10 scope adds_entry by_user empty).1

-- A commit, a second one on it, and an entry put into the snapshot of that.
abbrev with_entry : Store
with_entry = put_entry_version ext 2 page entry (commit_on_parent ext 2 20 1 by_user after_commit).1

changed : Changes ext empty with_entry
unfolding lookup commit plan_commit apply_changes apply_adds apply_updates apply_deletes
    apply_renames advance_attached insert list_beq text
changed = put 2 page entry (
    stepped (stepped unchanged (did_commit 1 10 scope adds_entry by_user refl))
      (did_commit_on_parent 2 20 1 by_user refl refl))

reachable-IsIntegral_example : IsIntegral with_entry
unfolding new
reachable-IsIntegral_example = reachable-IsIntegral ext 10 empty with_entry refl changed

abbrev released : Tag
released = record {
  name = text "v1";
  target = 4;
  tag_type = TagType.immutable;
  message = [];
  created_by = record { agent_id = none; user_id = none; system = false };
  created_at = 0;
}

Run-history_example :
    (lookup 4 (create_tag scope released store).commits ≡ some (stored 4 40 (2 ∷ [])))
    × (lookup 4 (create_tag scope released store).entry_snapshots ≡ some main_page)
unfolding lookup
Run-history_example =
    Run-history ext store (create_tag scope released store) 4 (stored 4 40 (2 ∷ [])) main_page
      (then_step start (did_create_tag scope released)) refl refl

-- Its references are valid.
integral : IsIntegral store
unfolding lookup contains list_beq text
integral = record {
  snapshots = λ id h. ground arith;
  parents = λ id p c h k. ground arith;
  heads = λ sc id h. ground arith;
  branch_heads = λ key b h. ground arith;
}

-- Its one checked-out branch is at HEAD.
in_sync : IsInSync store
unfolding lookup list_beq text
in_sync = record {
  at_branch = λ sc name attached. (branch (text "main") 4, ground arith, ground arith);
}

abbrev four_pages : Snapshot
four_pages = (page.canonical, text "{}") ∷ []

nine_not_four : ¬ (◌≡◌ {A = ℕ} 9 4)
nine_not_four h = omega (arith, h)

nine_not_three : ¬ (◌≡◌ {A = ℕ} 9 3)
nine_not_three h = omega (arith, h)

side_not_main : text "side" ≢ text "main"
unfolding text
side_not_main h = ground arith

abbrev picked : Store
picked = (cherry_pick ext 9 90 scope 3 (text "side") ConflictStrategy.ours store).1

cherry_pick-strands_example : (commit ext 10 100 scope adds_entry by_user picked).0 ≢ ok 10
unfolding cherry_pick plan_pick pick_snapshot changed_uris is_conflict apply_uris distinct lookup
    insert remove contains list_beq text
cherry_pick-strands_example =
    cherry_pick-strands ext store picked 9 90 scope 3 (text "side") (text "main")
      ConflictStrategy.ours (branch (text "main") 4) 10 100 adds_entry by_user refl refl refl
      side_not_main nine_not_four

abbrev rebased : Store
rebased = (cherry_pick ext 9 90 scope 3 (text "side") ConflictStrategy.ours store).1

rebase_self_example :
    (rebase ext 9 90 scope (text "side") (text "side") ConflictStrategy.ours store
      ≡ (err (VersionError.storage (text "rebase branch CAS failed")), rebased))
    × (lookup (as_str scope) rebased.heads ≡ some 9)
    × (lookup (as_str scope, text "side") rebased.branches
        ≡ some (with_head 9 (branch (text "side") 3)))
unfolding cherry_pick plan_pick pick_snapshot changed_uris is_conflict apply_uris distinct lookup
    insert remove contains list_beq text
rebase_self_example =
    rebase_self ext store rebased 9 90 scope (text "side") ConflictStrategy.ours
      (branch (text "side") 3) refl refl nine_not_three

abbrev squashed : Store
squashed = (squash ext 9 90 scope (2 ∷ 4 ∷ []) (text "both") store).1

abbrev squash_report : SquashResult
squash_report = record { new_commit = 9; squashed_count = 2 }

squash-commit_example :
    (newest : CommitId) × (last? (2 ∷ 4 ∷ []) ≡ some newest)
    × (lookup 9 squashed.commits ≡ some (squash_commit ext 9 90 (some 1) (text "both")))
    × (snapshot_of squashed 9 ≡ snapshot_of store newest)
unfolding squash plan_squash is_first_parent_range is_referenced redirect lookup insert list_beq
    text
squash-commit_example =
    squash-commit ext store squashed 9 90 scope 2 (4 ∷ []) (text "both") squash_report refl

abbrev keep_none : GcPolicy
keep_none = record { keep_recent = 0 }

gc-lookup_example :
    (lookup 2 (gc 99 scope keep_none store).1.commits
      ≡ (if has_id 2 (past 99 scope keep_none store) then none else lookup 2 store.commits))
    × ((gc 99 scope keep_none store).0.removed_commits ≡ length (past 99 scope keep_none store))
gc-lookup_example = gc-lookup 99 scope keep_none store 2

gc-dangles_example : ¬ IsIntegral (gc 99 scope keep_none store).1
unfolding lookup list_beq text
gc-dangles_example =
    gc-dangles 99 scope keep_none store 4 (stored 4 40 (2 ∷ [])) refl refl refl refl
