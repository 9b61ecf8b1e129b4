-- ===== src/Store/Pick.antt =====
-- `cherry_pick` and `rebase`.
pub mod Snapshots
use uwu_context_db.Prelude.{
  ℕ, Bool, false, not, ◌&&◌, Option, none, some, List, [], ◌∷◌, ◌++◌, nat_beq, ◌==◌, nat_eq,
  list_eq, pair_eq, option_eq, if◌then◌else◌, head?, filter_by, unwrap_or, keys, lookup, insert,
  Result, ok, err, ◌>>=◌, ◌>>◌, ok_or, guard, Text, text, join, length, text,
}
use uwu_context_db.Error.{VersionError}
use uwu_context_db.Uri.Types.{ContextUri}
use uwu_context_db.Uri.Equality.{uri_eq}
use uwu_context_db.Uri.Ops.{show_usize, as_str}
use uwu_context_db.Version.Model.{CommitId, BranchName, Commit, Branch, ConflictStrategy}
use uwu_context_db.Store.State.{
  debug_id, Snapshot, Store, External, Outcome, on_ok, snapshot_of, snapshot_of_opt,
}
use uwu_context_db.Store.Branches.{ref_key, branch_not_found}
use uwu_context_db.Store.Merge.{distinct, put_value, move_branch, with_head, is_attached}

abbrev pub first_parent : Commit → Option CommitId
first_parent c = head? c.parents

-- `source_snapshot.get(u) != base_snapshot.get(u)`
unfoldable pub changed_uris : Snapshot → Snapshot → List Text
changed_uris source base =
    filter_by (λ u. not (lookup u source == lookup u base)) (distinct (keys source ++ keys base))

-- The target has changed a URI that the commit changes too, and not to the same value.
unfoldable pub is_conflict : Snapshot → Snapshot → Snapshot → Text → Bool
is_conflict source base target u =
    not (lookup u target == lookup u base) && not (lookup u target == lookup u source)

abbrev pub keeps_target : ConflictStrategy → Bool → Bool
keeps_target ConflictStrategy.ours b = b
keeps_target _ b = false

unfoldable pub apply_uris :
    ConflictStrategy → Snapshot → Snapshot → Snapshot → List Text → Snapshot → Snapshot
unfolding is_conflict
apply_uris strategy source base target [] snap = snap
apply_uris strategy source base target (u ∷ us) snap = apply_uris strategy source base target us (
    if keeps_target strategy (is_conflict source base target u)
    then snap
    else put_value u (lookup u source) snap)

-- `cherry-pick … onto …: n URI(s) conflicted: …`
abbrev conflicted : Text → List Text → VersionError
conflicted what uris = VersionError.merge_conflict (
    what
    ++ (text ": "
        ++ (show_usize (length uris) ++ (text " URI(s) conflicted: " ++ join (text ", ") uris))))

abbrev pick_name : External → CommitId → BranchName → Text
pick_name ext commit onto = text "cherry-pick " ++ (debug_id ext commit ++ (text " onto " ++ onto))

-- The snapshot of the picked commit on its target; `what` names the two in the error.
unfoldable pub pick_snapshot :
    Text → ConflictStrategy → Snapshot → Snapshot → Snapshot → Result VersionError Snapshot
unfolding changed_uris is_conflict apply_uris distinct
pick_snapshot what strategy source base target =
    let uris = changed_uris source base in
    let conflicts = filter_by (is_conflict source base target) uris in
    elim strategy [
      | ConflictStrategy.fail ↦ elim conflicts [
        | [] ↦ ok (apply_uris ConflictStrategy.fail source base target uris target)
        | c ∷ cs ↦ err (conflicted what (c ∷ cs))
      ]
      | other ↦ ok (apply_uris other source base target uris target)
    ]

abbrev pub target_head : Option Branch → Option CommitId
target_head none = none
target_head (some b) = some b.head

module _ (ext : External) where
  abbrev pub picked_commit : CommitId → ℕ → Option CommitId → CommitId → Commit → Commit
  picked_commit id now target commit source = record {
    id = id;
    parents = unwrap_or commit target ∷ [];
    tree_hash = text "cherry-" ++ ext.show_id id;
    author = source.author;
    message = text "cherry-pick: " ++ source.message;
    timestamp = now;
    metadata = source.metadata;
  }

  -- What a cherry-pick computes before it writes: the source commit and the new snapshot.
  unfoldable pub plan_pick :
      ContextUri
      → CommitId
      → BranchName
      → ConflictStrategy
      → Store
      → Result VersionError (Commit × Snapshot)
  unfolding pick_snapshot
  plan_pick scope commit onto strategy s = do
    source ←
        ok_or (VersionError.not_found (text "commit " ++ debug_id ext commit))
          (lookup commit s.commits)
    snap ←
        pick_snapshot (pick_name ext commit onto) strategy (snapshot_of s commit)
          (snapshot_of_opt s (first_parent source))
          (snapshot_of_opt s (target_head (lookup (ref_key scope onto) s.branches)))
    ok (source, snap)

  unfoldable pub cherry_pick :
      CommitId
      → ℕ
      → ContextUri
      → CommitId
      → BranchName
      → ConflictStrategy
      → Store
      → Outcome CommitId
  cherry_pick id now scope commit onto strategy s =
      on_ok s (plan_pick scope commit onto strategy s) (λ (p : Commit × Snapshot). (
        ok id,
        record s {
          commits =
              insert id
                (picked_commit id now (target_head (lookup (ref_key scope onto) s.branches)) commit
                  p.0)
                s.commits;
          entry_snapshots = insert id p.1 s.entry_snapshots;
          branches = move_branch (ref_key scope onto) (with_head id) s.branches;
          heads = insert (as_str scope) id s.heads;
        },
      ))

  abbrev pub branch_of : ContextUri → BranchName → Store → Result VersionError Branch
  branch_of scope name s = ok_or (branch_not_found name) (lookup (ref_key scope name) s.branches)

  -- After the pick: the branch moves to the new tip if nothing moved it meanwhile.
  unfoldable pub finish_rebase :
      ContextUri → BranchName → CommitId → CommitId → Store → Outcome (List CommitId)
  finish_rebase scope branch old tip s =
      on_ok s
        (do
          b ← branch_of scope branch s
          guard (nat_beq b.head old) (VersionError.storage (text "rebase branch CAS failed"))
          ok b)
        (λ (b : Branch). (
          ok (tip ∷ []),
          record s {
            branches = insert (ref_key scope branch) (with_head tip b) s.branches;
            heads =
                if is_attached s (as_str scope) branch
                then insert (as_str scope) tip s.heads
                else s.heads;
          },
        ))

  abbrev pub then_finish :
      ContextUri → BranchName → CommitId → Outcome CommitId → Outcome (List CommitId)
  then_finish scope branch old (err e, s) = (err e, s)
  then_finish scope branch old (ok tip, s) = finish_rebase scope branch old tip s

  unfoldable pub rebase :
      CommitId
      → ℕ
      → ContextUri
      → BranchName
      → BranchName
      → ConflictStrategy
      → Store
      → Outcome (List CommitId)
  rebase id now scope branch onto strategy s =
      on_ok s (do b ← branch_of scope branch s; o ← branch_of scope onto s; ok b.head)
        (λ (old : CommitId).
          then_finish scope branch old (cherry_pick id now scope old onto strategy s))
