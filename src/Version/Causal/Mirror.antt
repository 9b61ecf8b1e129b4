-- ===== src/Version/Causal/Mirror.antt =====
-- The children of the index against its parents.
use uwu_context_db.Prelude.{
  ◌≡◌, refl, arith, inl, inr, Bool-cases, ◌||◌, ◌&&◌, unwrap_or, List, [], ◌∷◌, ◌++◌, nat_beq,
  nat_beq_iff, nat_eq, if◌then◌else◌, contains, contains-append, Map, lookup, lookup-insert, insert,
}
use uwu_context_db.Version.Model.{CommitId, Commit}
use uwu_context_db.Version.Walk.{neighbours}
use uwu_context_db.Version.Causal.{
  CausalDag, new, link, or_default, add, add_all, from_commits, parents_of, children_of,
}

abbrev listed : Map CommitId (List CommitId) → CommitId → List CommitId
listed m = neighbours m (λ ids. ids)

listed-insert :
    (k at : CommitId) (ids : List CommitId) (m : Map CommitId (List CommitId))
    → listed (insert k ids m) at ≡ (if nat_beq k at then ids else listed m at)
unfolding neighbours
listed-insert k at ids m = ground (arith, lookup-insert k at ids m)

listed-unwrap_or :
    (k : CommitId) (m : Map CommitId (List CommitId)) → listed m k ≡ unwrap_or [] (lookup k m)
unfolding neighbours
listed-unwrap_or k m = ground arith

-- The list with `id`, which it may hold already.
abbrev with_id : CommitId → List CommitId → List CommitId
with_id id ids = if contains ids id then ids else ids ++ id ∷ []

contains-with_id :
    (id c : CommitId) (ids : List CommitId)
    → contains (with_id id ids) c ≡ (contains ids c || nat_beq id c)
unfolding contains
contains-with_id id c ids = elim (Bool-cases (nat_beq id c)) [
  | inl same ↦
      let e : id ≡ c = (nat_beq_iff id c).0 same in
      rw (← e) (ground (arith, contains-append ids (id ∷ []) id, nat_beq_iff id id))
  | inr other ↦ ground (arith, other, contains-append ids (id ∷ []) c)
]

contains-listed-link :
    (id at c : CommitId) (ps : List CommitId) (m : Map CommitId (List CommitId))
    → contains (listed (link id ps m) at) c
      ≡ (contains (listed m at) c || (nat_beq id c && contains ps at))
unfolding link contains
contains-listed-link id at c [] m = ground arith
contains-listed-link id at c (p ∷ ps) m =
    let entry = unwrap_or [] (lookup p m) in
    let rest = contains-listed-link id at c ps (insert p (with_id id entry) m) in
    let same_entry : listed m p ≡ entry = listed-unwrap_or p m in
    ground (
      arith,
      rest,
      listed-insert p at (with_id id entry) m,
      contains-with_id id c entry,
      nat_beq_iff p at,
      same_entry,
    )

listed-or_default :
    (id at : CommitId) (m : Map CommitId (List CommitId))
    → listed (or_default id m) at ≡ listed m at
unfolding or_default neighbours
listed-or_default id at m = ground (arith, lookup-insert id at [] m, nat_beq_iff id at)

abbrev pub IsMirrored : CausalDag → Type 0
IsMirrored dag = (p c : CommitId) → contains (children_of dag p) c ≡ contains (parents_of dag c) p

add-IsMirrored : (commit : Commit) (dag : CausalDag) → IsMirrored dag → IsMirrored (add commit dag)
unfolding add
add-IsMirrored commit dag h = λ p c.
    let old = unwrap_or [] (lookup commit.id dag.parents) in
    ground (
      arith,
      h p c,
      listed-or_default commit.id p (link commit.id commit.parents dag.children),
      contains-listed-link commit.id p c commit.parents dag.children,
      listed-insert commit.id c (old ++ commit.parents) dag.parents,
      contains-append old commit.parents p,
      listed-unwrap_or commit.id dag.parents,
      nat_beq_iff commit.id c,
    )

add_all-IsMirrored :
    (cs : List Commit) (dag : CausalDag) → IsMirrored dag → IsMirrored (add_all cs dag)
unfolding add_all
add_all-IsMirrored [] dag h = h
add_all-IsMirrored (c ∷ cs) dag h = add_all-IsMirrored cs (add c dag) (add-IsMirrored c dag h)

-- In an index that is built from any commits, repeated ones included, one commit is a child of
-- another exactly when the other is a parent of it.
pub from_commits-IsMirrored : (commits : List Commit) → IsMirrored (from_commits commits)
unfolding neighbours lookup contains
from_commits-IsMirrored commits = add_all-IsMirrored commits new (λ p c. refl)
