-- ===== src/Memory/Graph/Edges.antt =====
-- Which edges there are after a change, and when the revision moves.
use Prim.Native.Nat.{◌%◌, ◌^◌}
use uwu_context_db.Prelude.{
  ℕ, ◌+◌, ◌≡◌, ◌≤◌, refl, inl, inr, Bool, true, false, Bool-cases, not, ◌&&◌, ◌||◌, Option-cases,
  unwrap_or, List, [], ◌∷◌, ◌++◌, ◌==◌, nat_beq, nat_eq, list_eq, pair_eq, if◌then◌else◌, length,
  filter_by, contains, contains-append, Map, lookup, lookup-insert, insert, Text, text_iff, arith,
}
use uwu_context_db.Uri.Types.{ContextUri}
use uwu_context_db.Uri.Ops.{as_str}
use uwu_context_db.Memory.Graph.{
  GraphRelation, relation_eq, relation_beq, relation_iff, Edge, Graph, edges_of, revision_of,
  bumped, add_edge, remove_edge,
}

abbrev pub has_edge : Graph → Text → Text → GraphRelation → Bool
has_edge g from to kind = contains (edges_of g from) (to, kind)

edges_of-insert :
    (from a : Text) (list : List Edge) (g : Graph) (revisions : Map Text ℕ)
    → edges_of (record { edges = insert from list g.edges; revisions = revisions }) a
      ≡ (if from == a then list else edges_of g a)
edges_of-insert from a list g revisions = ground (arith, lookup-insert from a list g.edges)

revision_of-bumped :
    (tenant at : Text) (g : Graph)
    → unwrap_or 0 (lookup at (bumped tenant g))
      ≡ (if tenant == at then (revision_of g at + 1) % 2 ^ 64 else revision_of g at)
revision_of-bumped tenant at g = ground (
  arith,
  lookup-insert tenant at ((revision_of g tenant + 1) % 2 ^ 64) g.revisions,
  text_iff tenant at,
)

contains-snoc :
    (list : List Edge) (to b : Text) (kind r : GraphRelation)
    → contains (list ++ (to, kind) ∷ []) (b, r)
      ≡ (contains list (b, r) || (to == b && relation_beq kind r))
unfolding contains
contains-snoc list to b kind r = ground (arith, contains-append list ((to, kind) ∷ []) (b, r))

contains-same :
    (list : List Edge) (to b : Text) (kind r : GraphRelation)
    → contains list (to, kind) ≡ true
    → contains list (b, r) ≡ (contains list (b, r) || (to == b && relation_beq kind r))
contains-same list to b kind r h = elim (Bool-cases (to == b && relation_beq kind r)) [
  | inl same ↦
      let text_same : to ≡ b = ground (arith, same, text_iff to b) in
      let kind_same : kind ≡ r = (relation_iff kind r).0 (ground (arith, same)) in
      rw (← text_same, ← kind_same, h) refl
  | inr other ↦ rw other (ground arith)
]

-- An edge that is added is there, no other edge changes, and the revision of a tenant moves by one,
-- modulo 2^64, when it is the tenant of the source and the edge was not there, and else stays.
pub add_edge-has_edge :
    (from to : ContextUri) (kind r : GraphRelation) (a b tenant : Text) (g : Graph)
    → (has_edge (add_edge from to kind g) a b r
        ≡ (has_edge g a b r || (as_str from == a && (as_str to == b && relation_beq kind r))))
      × (revision_of (add_edge from to kind g) tenant ≡ (
          if from.tenant == tenant && not (has_edge g (as_str from) (as_str to) kind)
          then (revision_of g tenant + 1) % 2 ^ 64
          else revision_of g tenant))
unfolding add_edge
add_edge-has_edge from to kind r a b tenant g =
    let list = edges_of g (as_str from) in
    elim (Bool-cases (contains list (as_str to, kind))) [
      | inl old ↦
          rw (add_edge, old)
            (
              ground (
                arith,
                edges_of-insert (as_str from) a list g g.revisions,
                contains-same list (as_str to) b kind r old,
                text_iff (as_str from) a,
              ),
              ground (arith, old),
            )
      | inr fresh ↦
          rw (add_edge, fresh)
            (
              ground (
                arith,
                edges_of-insert (as_str from) a (list ++ (as_str to, kind) ∷ []) g
                    (bumped from.tenant g),
                contains-snoc list (as_str to) b kind r,
                text_iff (as_str from) a,
              ),
              ground (arith, fresh, revision_of-bumped from.tenant tenant g),
            )
    ]

-- An edge of any kind to the target.
abbrev pub has_target : List Edge → Text → Bool
has_target [] to = false
has_target (e ∷ es) to = e.0 == to || has_target es to

abbrev without : Text → List Edge → List Edge
without to list = filter_by (λ (e : Edge). not (e.0 == to)) list

contains-nil : (b : Text) (r : GraphRelation) → contains {A = Edge} [] (b, r) ≡ false
unfolding contains
contains-nil b r = refl

contains-cons :
    (to b : Text) (kind r : GraphRelation) (es : List Edge)
    → contains {A = Edge} ((to, kind) ∷ es) (b, r)
      ≡ ((to == b && relation_beq kind r) || contains es (b, r))
unfolding contains
contains-cons to b kind r es = refl

contains-without :
    (list : List Edge) (to b : Text) (r : GraphRelation)
    → contains (without to list) (b, r) ≡ (contains list (b, r) && not (to == b))
contains-without [] to b r = rw (contains-nil b r) refl
contains-without ((x, kind) ∷ es) to b r =
    let rest = contains-without es to b r in
    elim (Bool-cases (x == to)) [
      | inl gone ↦
          let same : x ≡ to = (text_iff x to).0 gone in
          rw (gone, rest, contains-cons x b kind r es, same) (ground arith)
      | inr kept ↦
          rw (kept, contains-cons x b kind r (without to es), contains-cons x b kind r es, rest)
            (ground (arith, kept, text_iff x b, text_iff x to, text_iff to b))
    ]

length-without : (list : List Edge) (to : Text) → length (without to list) ≤ length list
length-without [] to = omega arith
length-without (e ∷ es) to = ground (arith, length-without es to)

same_length :
    (list : List Edge) (to : Text)
    → nat_beq (length (without to list)) (length list) ≡ not (has_target list to)
same_length [] to = refl
same_length (e ∷ es) to = ground (arith, same_length es to, length-without es to)

-- A removal takes every edge from the source to the target, of whatever kind, and no other edge, and
-- the revision of a tenant moves by one, modulo 2^64, when it is the tenant of the source and there
-- was such an edge, and else stays.
pub remove_edge-has_edge :
    (from to : ContextUri) (r : GraphRelation) (a b tenant : Text) (g : Graph)
    → (has_edge (remove_edge from to g) a b r
        ≡ (has_edge g a b r && not (as_str from == a && as_str to == b)))
      × (revision_of (remove_edge from to g) tenant ≡ (
          if from.tenant == tenant && has_target (edges_of g (as_str from)) (as_str to)
          then (revision_of g tenant + 1) % 2 ^ 64
          else revision_of g tenant))
unfolding remove_edge
remove_edge-has_edge from to r a b tenant g = elim (Option-cases (lookup (as_str from) g.edges)) [
  | inl absent ↦
      let empty : edges_of g (as_str from) ≡ [] = rw absent refl in
      rw (remove_edge, absent)
        (
          elim (Bool-cases (as_str from == a)) [
            | inl same ↦
                let here : as_str from ≡ a = (text_iff (as_str from) a).0 same in
                let none_left : edges_of g a ≡ [] = rw here at empty in
                rw (none_left, same, contains-nil b r) refl
            | inr other ↦ rw other (ground arith)
          ],
          ground (arith, empty),
        )
  | inr (list, present) ↦
      let held : edges_of g (as_str from) ≡ list = rw present refl in
      let kept = without (as_str to) list in
      let left = contains-without list (as_str to) b r in
      elim (Bool-cases (nat_beq (length kept) (length list))) [
        | inl unchanged ↦
            rw (remove_edge, present, unchanged)
              (
                ground (
                  arith,
                  edges_of-insert (as_str from) a kept g g.revisions,
                  left,
                  held,
                  text_iff (as_str from) a,
                ),
                ground (arith, unchanged, same_length list (as_str to)),
              )
        | inr changed ↦
            rw (remove_edge, present, changed)
              (
                ground (
                  arith,
                  edges_of-insert (as_str from) a kept g (bumped from.tenant g),
                  left,
                  held,
                  text_iff (as_str from) a,
                ),
                ground (
                  arith,
                  changed,
                  same_length list (as_str to),
                  revision_of-bumped from.tenant tenant g,
                ),
              )
      ]
]
