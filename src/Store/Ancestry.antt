-- ===== src/Store/Ancestry.antt =====
-- `is_ancestor` and `merge_base`: the walks over the parents of commits.
pub mod Correct
use uwu_context_db.Prelude.{
  ℕ, ◌+◌, Bool, true, Option, none, some, List, [], ◌∷◌, ◌++◌, arith, nat_beq, nat_eq, list_eq,
  pair_eq, option_eq, if◌then◌else◌, push_all, contains, Map, is_some, unwrap_or,
}
use uwu_context_db.Version.Model.{CommitId, Commit}
use uwu_context_db.Version.Walk.{find, collect, neighbours, enough}
use uwu_context_db.Store.State.{parents_of}

abbrev pub Commits : Type 0
Commits = Map CommitId Commit

-- `stack.pop()` takes the last id pushed.
abbrev pub stack_push : List ℕ → List ℕ → List ℕ
stack_push = push_all

-- `queue.extend(…)`; `pop_front` takes the oldest id.
abbrev pub queue_push : List ℕ → List ℕ → List ℕ
queue_push xs queue = queue ++ xs

abbrev pub parents : Commits → ℕ → List ℕ
parents commits = neighbours commits parents_of

abbrev pub found : Option (Option ℕ) → Option ℕ
found none = none
found (some r) = r

unfoldable pub is_ancestor : Commits → CommitId → CommitId → Bool
is_ancestor commits ancestor candidate =
    if nat_beq ancestor candidate
    then true
    else is_some (
        found (
          find (parents commits) stack_push (λ id. nat_beq id ancestor) (enough commits parents_of)
            [] (candidate ∷ [])))

-- The first loop of `merge_base`: the ancestors of `a`, itself included.
unfoldable pub ancestors : Commits → CommitId → List CommitId
ancestors commits a =
    unwrap_or [] (collect (parents commits) stack_push (enough commits parents_of) [] (a ∷ []))

-- The second loop: breadth first from `b`, to the first of these.
unfoldable pub merge_base : Commits → CommitId → CommitId → Option CommitId
unfolding ancestors
merge_base commits a b = found (
    find (parents commits) queue_push (λ id. contains (ancestors commits a) id)
      (enough commits parents_of) [] (b ∷ []))
