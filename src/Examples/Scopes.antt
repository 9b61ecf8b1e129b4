-- ===== src/Examples/Scopes.antt =====
-- A daily run, and a squash beside a second scope.
use uwu_context_db.Prelude.{
  ℕ, ◌≡◌, ◌≢◌, refl, [], ◌∷◌, none, text, lookup, insert, ok, arith, list_beq,
}
use uwu_context_db.Uri.Types.{ContextUri}
use uwu_context_db.Version.Model.{SquashResult}
use uwu_context_db.Store.State.{Store, Snapshot, new}
use uwu_context_db.Store.Commit.{
  commit, plan_commit, advance_attached, apply_changes, apply_adds, apply_updates, apply_deletes,
  apply_renames,
}
use uwu_context_db.Store.Rewrite.{
  squash, plan_squash, is_first_parent_range, is_referenced, redirect,
}
use uwu_context_db.Store.Sync.Squashed.{squash-strands}
use uwu_context_db.Store.Sync.Kept.{at_start, then_commit, DailyRun-commit}
use uwu_context_db.Examples.Fixture.{ext, scope, page, store, empty, adds_entry, by_user, branch}

abbrev lab : ContextUri
lab = record {
  tenant = text "acme";
  path = text "acme" ∷ text "lab" ∷ [];
  query = none;
  canonical = text "uwu://acme/lab";
}

-- The second scope has its branch `main` at the commit of the first.
abbrev shared : Store
shared = record store {
  branches = ((lab.canonical, text "main"), branch (text "main") 4) ∷ store.branches;
  heads = (lab.canonical, 4) ∷ store.heads;
  attached_branches = (lab.canonical, text "main") ∷ store.attached_branches;
}

abbrev squashed : Store
squashed = (squash ext 9 90 scope (2 ∷ 4 ∷ []) (text "both") shared).1

abbrev report : SquashResult
report = record { new_commit = 9; squashed_count = 2 }

nine_not_four : ¬ (◌≡◌ {A = ℕ} 9 4)
nine_not_four h = omega (arith, h)

kb_not_lab : text "uwu://acme/kb" ≢ text "uwu://acme/lab"
unfolding text
kb_not_lab h = ground arith

squash-strands_example : (commit ext 10 100 lab adds_entry by_user squashed).0 ≢ ok 10
unfolding squash plan_squash is_first_parent_range is_referenced redirect lookup insert list_beq
    text
squash-strands_example =
    squash-strands ext shared squashed 9 90 scope 2 (4 ∷ []) (text "both") report 4 lab
      (text "main") (branch (text "main") 4) 10 100 adds_entry by_user refl refl nine_not_four
      kb_not_lab refl refl refl refl

abbrev after_commit : Store
after_commit = (commit ext 1 10 scope adds_entry by_user empty).1

abbrev one_page : Snapshot
one_page = (page.canonical, text "{}") ∷ []

DailyRun-commit_example : (commit ext 2 20 scope adds_entry by_user after_commit).0 ≡ ok 2
unfolding new commit plan_commit advance_attached apply_changes apply_adds apply_updates
    apply_deletes apply_renames lookup insert list_beq text
DailyRun-commit_example =
    DailyRun-commit ext 10 empty after_commit 2 20 scope adds_entry by_user one_page refl
      (then_commit 1 10 scope adds_entry by_user at_start) refl
