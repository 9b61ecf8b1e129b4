-- ===== src/Version/Causal.antt =====
-- `CausalDag` of crates/context-db-version/src/model.rs: the parents and the children of commits,
-- with the walks over them. A walk has fuel for every edge that it may follow.
pub mod Mirror
pub mod Correct
use uwu_context_db.Prelude.{
  ℕ, zero, suc, ◌+◌, Bool, true, false, Option, none, some, unwrap_or, List, [], ◌∷◌, ◌++◌, nat_beq,
  nat_eq, if◌then◌else◌, push_all, contains, length, Map, lookup, insert, contains_key,
}
use uwu_context_db.Version.Model.{CommitId, Commit}
use uwu_context_db.Version.Walk.{collect, neighbours, edges_left, enough}

pub record CausalDag : Type 0 where
  pub parents : Map CommitId (List CommitId)
  pub children : Map CommitId (List CommitId)

abbrev pub new : CausalDag
new = record { parents = []; children = [] }

-- The loop over the parents in `add`.
unfoldable pub link :
    CommitId → List CommitId → Map CommitId (List CommitId) → Map CommitId (List CommitId)
link id [] children = children
link id (p ∷ ps) children =
    let entry = unwrap_or [] (lookup p children) in
    link id ps (insert p (if contains entry id then entry else entry ++ id ∷ []) children)

-- `children.entry(id).or_default()`
unfoldable pub or_default : CommitId → Map CommitId (List CommitId) → Map CommitId (List CommitId)
or_default id children = if contains_key id children then children else insert id [] children

unfoldable pub add : Commit → CausalDag → CausalDag
unfolding link or_default
add commit dag =
    let old = unwrap_or [] (lookup commit.id dag.parents) in
    record {
      parents = insert commit.id (old ++ commit.parents) dag.parents;
      children = or_default commit.id (link commit.id commit.parents dag.children);
    }

unfoldable pub add_all : List Commit → CausalDag → CausalDag
unfolding add
add_all [] dag = dag
add_all (c ∷ cs) dag = add_all cs (add c dag)

abbrev pub from_commits : List Commit → CausalDag
from_commits commits = add_all commits new

abbrev pub parents_of : CausalDag → CommitId → List CommitId
parents_of dag = neighbours dag.parents (λ ids. ids)

abbrev pub children_of : CausalDag → CommitId → List CommitId
children_of dag = neighbours dag.children (λ ids. ids)

abbrev pub is_empty : List CommitId → Bool
is_empty [] = true
is_empty (x ∷ xs) = false

-- The loop of `root_causes`.
unfoldable pub root_walk :
    CausalDag → ℕ → List CommitId → List CommitId → List CommitId → Option (List CommitId)
root_walk dag zero visited roots todo = none
root_walk dag (suc f) visited roots [] = some roots
root_walk dag (suc f) visited roots (node ∷ rest) =
    let skip = root_walk dag f visited roots rest in
    let root = root_walk dag f (node ∷ visited) (roots ++ node ∷ []) rest in
    let up = root_walk dag f (node ∷ visited) roots (push_all (parents_of dag node) rest) in
    if contains visited node then skip else if is_empty (parents_of dag node) then root else up

unfoldable pub root_causes : CausalDag → CommitId → List CommitId
root_causes dag commit =
    unwrap_or [] (root_walk dag (enough dag.parents (λ ids. ids)) [] [] (commit ∷ []))

-- The nodes of `effects` are the visited ones, the first one first.
unfoldable pub effects : CausalDag → CommitId → List CommitId
effects dag commit =
    let start = children_of dag commit in
    let fuel = length start + (edges_left dag.children (λ ids. ids) [] + 1) in
    push_all (unwrap_or [] (collect (children_of dag) push_all fuel [] (push_all start []))) []

unfoldable pub is_descendant_of : CausalDag → CommitId → CommitId → Bool
unfolding effects
is_descendant_of dag ancestor node =
    if nat_beq ancestor node then false else contains (effects dag ancestor) node
