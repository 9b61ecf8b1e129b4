-- ===== src/Store/Reports/Impact.antt =====
-- The addresses that `impact_analysis` builds for later commits.
use uwu_context_db.Prelude.{
  ◌≡◌, refl, List, [], ◌∷◌, ◌++◌, arith, nat_eq, list_eq, ok, err, text, take, strip_prefix,
}
use uwu_context_db.Error.{ContextError}
use uwu_context_db.Uri.Parse.{from_string, scheme}
use uwu_context_db.Version.Model.{CommitId, Commit, ImpactAnalysis}
use uwu_context_db.Store.State.{Store, External}
use uwu_context_db.Store.Reports.{impact_analysis, downstream, sort, newest_first, commit_uri}

module _ (ext : External) where
  commit_uri-fails :
      (id : CommitId)
      → commit_uri ext id
        ≡ err (
            ContextError.invalid_uri
              (text "missing `uwu://` scheme: " ++ (text "commit-" ++ ext.show_id id)))
  unfolding from_string strip_prefix scheme text
  commit_uri-fails id = refl

  downstream-empty :
      (target : CommitId) (cs : List (CommitId × Commit)) → downstream ext target cs ≡ []
  unfolding downstream
  downstream-empty target [] = refl
  downstream-empty target ((id, c) ∷ cs) =
      rw (commit_uri-fails id) (ground (arith, downstream-empty target cs))

  -- An impact analysis never lists an address downstream of a commit, whatever commits were made after
  -- it.
  pub impact_analysis-downstream :
      (id : CommitId) (s : Store) (r : ImpactAnalysis)
      → impact_analysis ext id s ≡ ok r
      → r.downstream_uris ≡ []
  unfolding impact_analysis
  impact_analysis-downstream id s r h =
      ground (arith, downstream-empty id (take s.max_commits (sort newest_first s.commits)))
