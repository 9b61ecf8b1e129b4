-- ===== src/Store/Reports.antt =====
-- `evaluate_semantic_tags`, `provenance`, `impact_analysis` and `evolution`.
pub mod Impact
pub mod Sorted
use uwu_context_db.Prelude.{
  Bool, none, List, [], ◌∷◌, ◌++◌, leb, nat_beq, ◌==◌, nat_eq, list_eq, pair_eq, option_eq,
  if◌then◌else◌, take, filter_by, contains, Map, unwrap_or, lookup, contains_key, Result, ok, err,
  ◌>>=◌, text,
}
use uwu_context_db.Error.{VersionError, ContextError}
use uwu_context_db.Uri.Types.{ContextUri}
use uwu_context_db.Uri.Parse.{parse}
use uwu_context_db.Uri.Equality.{uri_eq}
use uwu_context_db.Uri.Ops.{as_str}
use uwu_context_db.Version.Model.{
  CommitId, BranchName, Commit, Branch, Tag, TagType, TagName, ProvenanceLink, ProvenanceGraph,
  TemporalVersion, ImpactAnalysis,
}
use uwu_context_db.Store.State.{Snapshot, RefKey, Store, External}
use uwu_context_db.Version.Names.{parse_branch_name}
use uwu_context_db.Store.Branches.{list_tags}

unfoldable pub semantic_only : List Tag → List (TagName × CommitId)
semantic_only [] = []
semantic_only (t ∷ ts) = elim t.tag_type [
  | TagType.semantic condition ↦ (t.name, t.target) ∷ semantic_only ts
  | _ ↦ semantic_only ts
]

unfoldable pub evaluate_semantic_tags : ContextUri → Store → List (TagName × CommitId)
unfolding semantic_only list_tags
evaluate_semantic_tags scope s = semantic_only (list_tags scope s)

-- The declared links of every commit whose source is the address.
unfoldable pub links_from : ContextUri → Map CommitId Commit → List ProvenanceLink
links_from uri [] = []
links_from uri ((id, c) ∷ m) =
    filter_by (λ link. link.source_uri == uri) c.metadata.provenance ++ links_from uri m

unfoldable pub provenance : ContextUri → Store → ProvenanceGraph
unfolding links_from
provenance uri s = record { root_uri = uri; nodes = links_from uri s.commits; depth = 0 }

-- A stable sort, as the source's: `le` compares two elements.
unfoldable pub insert_sorted {ℓ} : {A : Type ℓ} → (A → A → Bool) → A → List A → List A
insert_sorted le x [] = x ∷ []
insert_sorted le x (y ∷ ys) = if le x y then x ∷ y ∷ ys else y ∷ insert_sorted le x ys

unfoldable pub sort {ℓ} : {A : Type ℓ} → (A → A → Bool) → List A → List A
unfolding insert_sorted
sort le [] = []
sort le (x ∷ xs) = insert_sorted le x (sort le xs)

abbrev pub newest_first : CommitId × Commit → CommitId × Commit → Bool
newest_first a b = leb b.1.timestamp a.1.timestamp

module _ (ext : External) where
  -- `ContextUri::parse(format!("commit-{}", cid.0))`
  abbrev pub commit_uri : CommitId → Result ContextError ContextUri
  commit_uri id = parse ext.time (text "commit-" ++ ext.show_id id)

  unfoldable pub downstream : CommitId → List (CommitId × Commit) → List ContextUri
  downstream target [] = []
  downstream target ((id, c) ∷ cs) =
      if contains c.parents target
      then (elim (commit_uri id) [ ok u ↦ u ∷ downstream target cs | err e ↦ downstream target cs ])
      else downstream target cs

  unfoldable pub branches_at : CommitId → Map RefKey Branch → Result VersionError (List BranchName)
  branches_at target [] = ok []
  branches_at target (((scope, name), b) ∷ m) =
      if nat_beq b.head target
      then (do n ← parse_branch_name name; ns ← branches_at target m; ok (n ∷ ns))
      else branches_at target m

  unfoldable pub impact_analysis : CommitId → Store → Result VersionError ImpactAnalysis
  unfolding downstream branches_at sort
  impact_analysis commit s = do
    names ← branches_at commit s.branches
    ok (record {
      commit = commit;
      downstream_uris = downstream commit (take s.max_commits (sort newest_first s.commits));
      affected_branches = names;
    })

  abbrev version_of : CommitId → Commit → TemporalVersion
  version_of id c = record {
    commit_id = id;
    timestamp = c.timestamp;
    content_hash = text "hash-" ++ ext.show_id id;
    valid_from = c.timestamp;
    valid_until = none;
  }

  -- The commits whose snapshot has the address.
  unfoldable pub versions_of :
      ContextUri → Map CommitId Snapshot → Map CommitId Commit → List TemporalVersion
  versions_of uri snapshots [] = []
  versions_of uri snapshots ((id, c) ∷ m) =
      if contains_key (as_str uri) (unwrap_or [] (lookup id snapshots))
      then version_of id c ∷ versions_of uri snapshots m
      else versions_of uri snapshots m

  unfoldable pub evolution : ContextUri → Store → List TemporalVersion
  unfolding versions_of sort
  evolution uri s =
      sort (λ a b. leb a.timestamp b.timestamp) (versions_of uri s.entry_snapshots s.commits)
