-- ===== src/Store/Rewrite/Collected.antt =====
-- What `gc` removes.
use uwu_context_db.Prelude.{
  suc, ◌≡◌, ◌∙◌, refl, true, false, Bool, none, some, List, [], ◌∷◌, arith, nat_eq, nat_beq,
  nat_beq_iff, list_eq, pair_eq, if◌then◌else◌, lookup, lookup-remove, Map, drop, length, ◌+◌, ◌||◌,
}
use uwu_context_db.Uri.Types.{ContextUri}
use uwu_context_db.Uri.Ops.{as_str}
use uwu_context_db.Version.Model.{CommitId, Commit, GcPolicy, GcReport}
use uwu_context_db.Store.State.{Store}
use uwu_context_db.Store.Read.{log, first_parents}
use uwu_context_db.Store.Rewrite.{gc, collect_commits, collect_commit}
use uwu_context_db.Store.Integrity.{IsIntegral}

abbrev pub has_id : CommitId → List Commit → Bool
has_id id [] = false
has_id id (c ∷ cs) = nat_beq c.id id || has_id id cs

collect-lookup :
    (cs : List Commit) (s : Store) (r : GcReport) (id : CommitId)
    → lookup id (collect_commits cs (s, r)).0.commits
      ≡ (if has_id id cs then none else lookup id s.commits)
unfolding collect_commits
collect-lookup [] s r id = refl
collect-lookup (c ∷ cs) s r id =
    let acc = collect_commit c.id (s, r) in
    collect-lookup cs acc.0 acc.1 id ∙ ground (arith, lookup-remove c.id id s.commits)

collect-heads :
    (cs : List Commit) (acc : Store × GcReport) → (collect_commits cs acc).0.heads ≡ acc.0.heads
unfolding collect_commits
collect-heads [] acc = refl
collect-heads (c ∷ cs) acc = collect-heads cs (collect_commit c.id acc)

collect-count :
    (cs : List Commit) (acc : Store × GcReport)
    → (collect_commits cs acc).1.removed_commits ≡ acc.1.removed_commits + length cs
unfolding collect_commits
collect-count [] acc = ground arith
collect-count (c ∷ cs) acc = ground (arith, collect-count cs (collect_commit c.id acc))

abbrev pub past : CommitId → ContextUri → GcPolicy → Store → List Commit
past fresh scope policy s =
    drop policy.keep_recent (log fresh scope (record { max_count = none; branch = none }) s)

-- A collection removes exactly the commits of the log of HEAD that follow the `keep_recent` first ones,
-- and reports their number.
pub gc-lookup :
    (fresh : CommitId) (scope : ContextUri) (policy : GcPolicy) (s : Store) (id : CommitId)
    → (lookup id (gc fresh scope policy s).1.commits
        ≡ (if has_id id (past fresh scope policy s) then none else lookup id s.commits))
      × ((gc fresh scope policy s).0.removed_commits ≡ length (past fresh scope policy s))
unfolding gc
gc-lookup fresh scope policy s id = (
  collect-lookup (past fresh scope policy s) s _ id,
  ground (
    arith,
    collect-count (past fresh scope policy s)
        (s, record { removed_commits = 0; freed_snapshots = 0 }),
  ),
)

first_parents-head :
    (commits : Map CommitId Commit) (n h : CommitId) (c : Commit)
    → lookup h commits ≡ some c
    → c.id ≡ h
    → has_id h (first_parents commits (suc n) h) ≡ true
unfolding first_parents
first_parents-head commits n h c stored own =
    rw (stored, first_parents)
      (elim c.parents [
        | [] ↦ ground (arith, own, nat_beq_iff c.id h)
        | p ∷ ps ↦ ground (arith, own, nat_beq_iff c.id h)
      ])

past-head :
    (fresh : CommitId) (scope : ContextUri) (policy : GcPolicy) (s : Store) (h : CommitId)
    (c : Commit)
    → policy.keep_recent ≡ 0
    → lookup (as_str scope) s.heads ≡ some h
    → lookup h s.commits ≡ some c
    → c.id ≡ h
    → has_id h (past fresh scope policy s) ≡ true
unfolding log
past-head fresh scope policy s h c none_kept at_head stored own =
    rw (none_kept, at_head) (first_parents-head s.commits 19 h c stored own)

-- A collection that keeps no recent commit, in a scope whose HEAD is at a commit stored under its own
-- id, leaves a store whose references are not valid.
pub gc-dangles :
    (fresh : CommitId) (scope : ContextUri) (policy : GcPolicy) (s : Store) (h : CommitId)
    (c : Commit)
    → policy.keep_recent ≡ 0
    → lookup (as_str scope) s.heads ≡ some h
    → lookup h s.commits ≡ some c
    → c.id ≡ h
    → ¬ IsIntegral (gc fresh scope policy s).1
unfolding gc
gc-dangles fresh scope policy s h c none_kept at_head stored own v =
    let removed =
      collect-lookup (past fresh scope policy s) s
        (record { removed_commits = 0; freed_snapshots = 0 }) h in
    let headless = v.heads (as_str scope) h (
      rw
        (collect-heads (past fresh scope policy s)
          (s, record { removed_commits = 0; freed_snapshots = 0 }))
        at_head) in
    ground
      (arith, removed, headless, past-head fresh scope policy s h c none_kept at_head stored own)
