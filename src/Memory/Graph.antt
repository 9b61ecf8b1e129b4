-- ===== src/Memory/Graph.antt =====
-- `GraphStore` of `MemoryContextStore`: typed edges between addresses, with a revision per tenant.
pub mod Edges
use Prim.Native.Nat.{◌%◌, ◌^◌}
use uwu_context_db.Prelude.{
  ℕ, ◌+◌, ◌-◌, ◌≡◌, refl, sym, ap, ◌∙◌, Bool, true, not, ◌&&◌, Option, none, some, unwrap_or, List,
  [], ◌∷◌, ◌++◌, ◌==◌, Eq, nat_beq, nat_beq_iff, nat_eq, list_eq, pair_eq, if◌then◌else◌, length,
  filter_by, contains, Map, lookup, insert, ok, err, Text, ◌↔◌, arith,
}
use uwu_context_db.Uri.Types.{ContextUri, TimeFormat}
use uwu_context_db.Uri.Ops.{as_str}
use uwu_context_db.Uri.Parse.{parse}

pub data GraphRelation : Type 0 where
  evolved_from evolved_to evidence_of entangled_with contradicts corroborates : GraphRelation
  derived_from supersedes drives_policy : GraphRelation

-- The relations in their order.
abbrev number : GraphRelation → ℕ
number evolved_from = 0
number evolved_to = 1
number evidence_of = 2
number entangled_with = 3
number contradicts = 4
number corroborates = 5
number derived_from = 6
number supersedes = 7
number drives_policy = 8

abbrev numbered : ℕ → GraphRelation
numbered n =
    if nat_beq n 0
    then evolved_from
    else if nat_beq n 1
    then evolved_to
    else if nat_beq n 2
    then evidence_of
    else if nat_beq n 3
    then entangled_with
    else if nat_beq n 4
    then contradicts
    else if nat_beq n 5
    then corroborates
    else if nat_beq n 6
    then derived_from
    else if nat_beq n 7
    then supersedes
    else drives_policy

numbered-number : (r : GraphRelation) → numbered (number r) ≡ r
numbered-number evolved_from = refl
numbered-number evolved_to = refl
numbered-number evidence_of = refl
numbered-number entangled_with = refl
numbered-number contradicts = refl
numbered-number corroborates = refl
numbered-number derived_from = refl
numbered-number supersedes = refl
numbered-number drives_policy = refl

abbrev pub relation_beq : GraphRelation → GraphRelation → Bool
relation_beq a b = nat_beq (number a) (number b)

pub relation_iff : (a b : GraphRelation) → (relation_beq a b ≡ true) ↔ (a ≡ b)
relation_iff a b = (
  λ h.
      sym (numbered-number a)
      ∙ (ap numbered ((nat_beq_iff (number a) (number b)).0 h) ∙ numbered-number b),
  λ e. rw e ((nat_beq_iff (number b) (number b)).1 refl),
)

instance abbrev pub relation_eq : Eq GraphRelation
relation_eq = record { beq = relation_beq; beq_iff = relation_iff }

abbrev pub Edge : Type 0
Edge = Text × GraphRelation

pub record Graph : Type 0 where
  pub edges : Map Text (List Edge)
  pub revisions : Map Text ℕ

abbrev pub edges_of : Graph → Text → List Edge
edges_of g from = unwrap_or [] (lookup from g.edges)

abbrev pub revision_of : Graph → Text → ℕ
revision_of g tenant = unwrap_or 0 (lookup tenant g.revisions)

-- `*revisions.entry(tenant).or_default() += 1` on a `u64`, which wraps where overflow is not checked.
abbrev pub bumped : Text → Graph → Map Text ℕ
bumped tenant g = insert tenant ((revision_of g tenant + 1) % 2 ^ 64) g.revisions

unfoldable pub add_edge : ContextUri → ContextUri → GraphRelation → Graph → Graph
add_edge from to kind g =
    let list = edges_of g (as_str from) in
    if contains list (as_str to, kind)
    then record g { edges = insert (as_str from) list g.edges }
    else record {
      edges = insert (as_str from) (list ++ (as_str to, kind) ∷ []) g.edges;
      revisions = bumped from.tenant g;
    }

unfoldable pub remove_edge : ContextUri → ContextUri → Graph → Graph
remove_edge from to g = elim (lookup (as_str from) g.edges) [
  | none ↦ g
  | some list ↦
      let kept = filter_by (λ (e : Edge). not (e.0 == as_str to)) list in
      let edges = insert (as_str from) kept g.edges in
      if nat_beq (length kept) (length list)
      then record g { edges = edges }
      else record { edges = edges; revisions = bumped from.tenant g }
]

abbrev pub is_kind : Option GraphRelation → GraphRelation → Bool
is_kind none r = true
is_kind (some k) r = relation_beq k r

module _ (time : TimeFormat) where
  -- `filter_map(|target| ContextUri::parse(target).ok())`
  abbrev pub parsed : List Text → List ContextUri
  parsed [] = []
  parsed (t ∷ ts) = elim (parse time t) [ ok u ↦ u ∷ parsed ts | err _ ↦ parsed ts ]

  abbrev pub targets : Option GraphRelation → List Edge → List Text
  targets kind [] = []
  targets kind ((to, r) ∷ es) = if is_kind kind r then to ∷ targets kind es else targets kind es

  unfoldable pub outgoing_neighbors : ContextUri → Option GraphRelation → Graph → List ContextUri
  outgoing_neighbors uri kind g = parsed (targets kind (edges_of g (as_str uri)))

  -- The source once for each edge to the target.
  abbrev pub sources_of : Text → Option GraphRelation → Text → List Edge → List Text
  sources_of target kind source [] = []
  sources_of target kind source ((to, r) ∷ es) =
      if to == target && is_kind kind r
      then source ∷ sources_of target kind source es
      else sources_of target kind source es

  abbrev pub sources : Text → Option GraphRelation → Map Text (List Edge) → List Text
  sources target kind [] = []
  sources target kind ((source, out) ∷ m) =
      sources_of target kind source out ++ sources target kind m

  unfoldable pub incoming_neighbors : ContextUri → Option GraphRelation → Graph → List ContextUri
  incoming_neighbors uri kind g = parsed (sources (as_str uri) kind g.edges)

unfoldable pub graph_revision : ContextUri → Graph → ℕ
graph_revision scope g = revision_of g scope.tenant
