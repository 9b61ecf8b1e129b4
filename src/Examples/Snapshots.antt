-- ===== src/Examples/Snapshots.antt =====
-- Merges and cherry-picks of small snapshots.
use uwu_context_db.Prelude.{
  ◌≡◌, ◌≢◌, refl, true, [], ◌∷◌, text, lookup, insert, remove, contains, split, split_once,
  strip_prefix, nat_eq, list_eq, arith, list_beq,
}
use uwu_context_db.Uri.Parse.{scheme, is_empty, segments_of, from_string}
use uwu_context_db.Uri.Laws.{IsWellFormed}
use uwu_context_db.Uri.Segments.{parse-IsWellFormed}
use uwu_context_db.Version.Model.{MergeStrategy, ConflictStrategy}
use uwu_context_db.Store.Merge.{merge_snapshots, merge_keys, merge_key, distinct}
use uwu_context_db.Store.Merge.Snapshots.{merged_value, merge_snapshots-lookup}
use uwu_context_db.Store.Merge.Conflicts.{merge_snapshots-conflicts, texts_of}
use uwu_context_db.Store.Pick.{pick_snapshot, changed_uris, is_conflict, apply_uris}
use uwu_context_db.Store.Pick.Snapshots.{picked_value, pick_snapshot-lookup}
use uwu_context_db.Examples.Fixture.{ext, page, base_page, main_page, side_page}

merge_snapshots-lookup_example :
    lookup page.canonical main_page
    ≡ merged_value MergeStrategy.three_way
        (lookup page.canonical base_page)
        (lookup page.canonical main_page)
        (lookup page.canonical side_page)
unfolding merge_snapshots merge_keys merge_key distinct lookup insert remove contains list_beq text
    from_string strip_prefix scheme is_empty segments_of split split_once
merge_snapshots-lookup_example =
    merge_snapshots-lookup ext MergeStrategy.three_way base_page main_page side_page main_page
      (page ∷ []) page.canonical refl

merge_snapshots-conflicts_example : contains (texts_of (page ∷ [])) page.canonical ≡ true
unfolding merge_snapshots merge_keys merge_key distinct lookup insert remove contains list_beq text
    from_string strip_prefix scheme is_empty segments_of split split_once
merge_snapshots-conflicts_example =
    merge_snapshots-conflicts ext MergeStrategy.three_way base_page main_page side_page main_page
      (page ∷ []) page.canonical refl

pick_snapshot-lookup_example :
    lookup page.canonical side_page
    ≡ picked_value ConflictStrategy.theirs
        (lookup page.canonical side_page)
        (lookup page.canonical base_page)
        (lookup page.canonical main_page)
unfolding pick_snapshot changed_uris is_conflict apply_uris distinct lookup insert remove contains
    list_beq text
pick_snapshot-lookup_example =
    pick_snapshot-lookup (text "pick") ConflictStrategy.theirs side_page base_page main_page
      side_page page.canonical refl

side_changed : lookup page.canonical side_page ≢ lookup page.canonical base_page
unfolding lookup list_beq text
side_changed h = ground arith

parse-IsWellFormed_example : IsWellFormed page
unfolding from_string strip_prefix scheme is_empty segments_of split split_once text
parse-IsWellFormed_example = parse-IsWellFormed ext.time page.canonical page refl
