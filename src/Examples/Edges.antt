-- ===== src/Examples/Edges.antt =====
-- A change of the graph of the entry store.
use Prim.Native.Nat.{◌%◌, ◌^◌}
use uwu_context_db.Prelude.{
  ◌+◌, ◌≡◌, not, ◌&&◌, ◌==◌, [], ◌∷◌, nat_eq, list_eq, if◌then◌else◌, text,
}
use uwu_context_db.Uri.Ops.{as_str}
use uwu_context_db.Examples.Fixture.{scope, page}
use uwu_context_db.Memory.Graph.{
  Graph, contradicts, supersedes, derived_from, edges_of, revision_of, remove_edge,
}
use uwu_context_db.Memory.Graph.Edges.{has_edge, has_target, remove_edge-has_edge}

abbrev graph : Graph
graph = record {
  edges =
      (
        as_str page,
        (as_str scope, contradicts) ∷ (as_str page, derived_from) ∷ (as_str scope, supersedes) ∷ [],
      )
      ∷ [];
  revisions = (text "acme", 3) ∷ [];
}

remove_edge-has_edge_example :
    (has_edge (remove_edge page scope graph) (as_str page) (as_str page) derived_from ≡ (
      has_edge graph (as_str page) (as_str page) derived_from
      && not (as_str page == as_str page && as_str scope == as_str page)))
    × (revision_of (remove_edge page scope graph) (text "acme") ≡ (
        if text "acme" == text "acme" && has_target (edges_of graph (as_str page)) (as_str scope)
        then (revision_of graph (text "acme") + 1) % 2 ^ 64
        else revision_of graph (text "acme")))
remove_edge-has_edge_example =
    remove_edge-has_edge page scope derived_from (as_str page) (as_str page) (text "acme") graph
