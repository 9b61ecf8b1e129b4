-- ===== src/Examples/Graphs.antt =====
-- Ancestors and merge bases in small graphs.
use uwu_context_db.Prelude.{
  ℕ, Bool, List, Option, nat_beq, some, ◌≡◌, ◌↔◌, refl, true, [], ◌∷◌, Map, lookup, contains,
}
use uwu_context_db.Version.Model.{CommitId, Commit}
use uwu_context_db.Version.Walk.{find, collect, neighbours, edges_left, enough}
use uwu_context_db.Store.Ancestry.{parents, stack_push, queue_push, is_ancestor, merge_base}
use uwu_context_db.Store.State.{parents_of}
use uwu_context_db.Store.Ancestry.Correct.{
  IsAncestor, walks_end, is_ancestor_iff, IsMergeBase, merge_base-IsMergeBase,
}
use uwu_context_db.Examples.Fixture.{commits, stored}

is_ancestor_iff_example : (is_ancestor commits 1 4 ≡ true) ↔ IsAncestor commits 1 4
is_ancestor_iff_example = is_ancestor_iff commits 1 4

is_ancestor_root : is_ancestor commits 1 4 ≡ true
unfolding is_ancestor find neighbours edges_left enough lookup contains
is_ancestor_root = refl

-- Two root commits.
abbrev islands : Map CommitId Commit
islands = (1, stored 1 10 []) ∷ (2, stored 2 20 []) ∷ []

-- Two commits that are each other's parent.
abbrev cycle : Map CommitId Commit
cycle = (1, stored 1 10 (2 ∷ [])) ∷ (2, stored 2 20 (1 ∷ [])) ∷ []

abbrev is_three : ℕ → Bool
is_three id = nat_beq id 3

walks_end_example :
    ((w : List ℕ) × (collect (parents cycle) stack_push (enough cycle parents_of) [] (1 ∷ [])
        ≡ some w))
    × ((r : Option ℕ) × (find
            (parents cycle)
            stack_push
            is_three
            (enough cycle parents_of)
            []
            (1 ∷ [])
          ≡ some r))
    × ((r : Option ℕ) × (find
            (parents cycle)
            queue_push
            is_three
            (enough cycle parents_of)
            []
            (1 ∷ [])
          ≡ some r))
walks_end_example = walks_end cycle is_three 1

merge_base-IsMergeBase_example : IsMergeBase commits 3 4 (merge_base commits 3 4)
merge_base-IsMergeBase_example = merge_base-IsMergeBase commits 3 4
