-- ===== src/Store/Diff.antt =====
-- `diff_commits`.
pub mod Keys
use uwu_context_db.Prelude.{
  Bool, true, false, not, Option, none, some, List, [], ◌∷◌, ◌==◌, nat_eq, list_eq, pair_eq,
  option_eq, if◌then◌else◌, lookup, ok, err, Text,
}
use uwu_context_db.Uri.Types.{ContextUri}
use uwu_context_db.Uri.Parse.{parse}
use uwu_context_db.Uri.Equality.{uri_eq}
use uwu_context_db.Version.Model.{CommitId, TreeDiff}
use uwu_context_db.Store.State.{Snapshot, Store, External, snapshot_of}

module _ (ext : External) where
  -- The URIs that parse, as the `if let Ok(u)` of the loops keeps them.
  unfoldable pub parsed : List Text → List ContextUri
  parsed [] = []
  parsed (t ∷ ts) = elim (parse ext.time t) [ ok u ↦ u ∷ parsed ts | err e ↦ parsed ts ]

  -- The keys of `b` for which `keep` holds of the values in `a` and `b`.
  unfoldable pub keys_where : (Option Text → Text → Bool) → Snapshot → Snapshot → List Text
  keys_where keep a [] = []
  keys_where keep a ((k, v) ∷ b) =
      if keep (lookup k a) v then k ∷ keys_where keep a b else keys_where keep a b

  abbrev pub absent : Option Text → Text → Bool
  absent none v = true
  absent (some w) v = false

  abbrev pub differs : Option Text → Text → Bool
  differs none v = false
  differs (some w) v = not (w == v)

  unfoldable pub diff_commits : CommitId → CommitId → Store → TreeDiff
  unfolding keys_where parsed
  diff_commits a b s =
      let map_a = snapshot_of s a in
      let map_b = snapshot_of s b in
      record {
        adds = parsed (keys_where absent map_a map_b);
        updates = parsed (keys_where differs map_a map_b);
        deletes = parsed (keys_where absent map_b map_a);
      }
