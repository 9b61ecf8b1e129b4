-- ===== src/Store/Ancestry/Correct.antt =====
-- What the walks decide: ancestry, and the existence of a common ancestor.
use uwu_context_db.Prelude.{
  ℕ, ◌+◌, ◌≡◌, ap, ◌∙◌, ◌↔◌, inl, inr, Bool, true, false, ◌||◌, Option, none, some, List, [], ◌∷◌,
  arith, nat_beq, nat_eq, list_eq, pair_eq, nat_beq_iff, option_eq, Bool-cases, Option-cases,
  length, length-append, length-push_all, contains, contains-cons_self, contains-append,
  contains-push_all,
}
use uwu_context_db.Version.Model.{CommitId}
use uwu_context_db.Version.Walk.{collect, find, enough, Reach, here}
use uwu_context_db.Version.Walk.Sound.{Enters, find_sound, find_complete}
use uwu_context_db.Version.Walk.Collect.{collect_iff}
use uwu_context_db.Version.Walk.Total.{find_ends, collect_ends}
use uwu_context_db.Store.State.{parents_of}
use uwu_context_db.Store.Ancestry.{
  Commits, stack_push, queue_push, parents, found, is_ancestor, ancestors, merge_base,
}

-- `a` is `d` or is reached from it along parents.
abbrev pub IsAncestor : Commits → CommitId → CommitId → Type 0
IsAncestor commits a d = Reach (parents commits) d a

stack_Enters : Enters stack_push
stack_Enters = record { contains-enter = contains-push_all; length-enter = length-push_all }

or_comm : (a b : Bool) → (a || b) ≡ (b || a)
or_comm a b = ground arith

queue_contains :
    (xs s : List ℕ) (a : ℕ) → contains (queue_push xs s) a ≡ (contains xs a || contains s a)
queue_contains xs s a = contains-append s xs a ∙ or_comm (contains s a) (contains xs a)

queue_length : (xs s : List ℕ) → length (queue_push xs s) ≡ length xs + length s
queue_length xs s = omega (arith, length-append s xs)

queue_Enters : Enters queue_push
queue_Enters = record { contains-enter = queue_contains; length-enter = queue_length }

one_start : (a s : ℕ) → contains (a ∷ []) s ≡ true → a ≡ s
unfolding contains
one_start a s h = ground (arith, nat_beq_iff a s)

module _ (commits : Commits) (enter : List ℕ → List ℕ → List ℕ) (en : Enters enter) (hit : ℕ → Bool)
    (a : ℕ) where
  walk : Option (Option ℕ)
  walk = find (parents commits) enter hit (enough commits parents_of) [] (a ∷ [])

  -- The walk from `a` finds a reachable hit, or there is none.
  walk_hit : (r : ℕ) → found walk ≡ some r → (hit r ≡ true) × IsAncestor commits r a
  unfolding walk
  walk_hit r h =
      let (o, e) = find_ends parents_of commits enter en hit a in
      let e' : o ≡ some r = rw e at h in
      let (yes_hit, w) =
        find_sound (parents commits) enter en hit (enough commits parents_of) [] (a ∷ []) r
          (e ∙ ap some e') in
      let (s, hs, path) = w in (yes_hit, rw (one_start a s hs) path)

  walk_miss : found walk ≡ none → (r : ℕ) → IsAncestor commits r a → hit r ≡ false
  unfolding walk
  walk_miss h r path =
      let (o, e) = find_ends parents_of commits enter en hit a in
      let e' : o ≡ none = rw e at h in
      find_complete (parents commits) enter en hit (enough commits parents_of) (a ∷ [])
        (e ∙ ap some e') a r (contains-cons_self a []) path

is_ancestor_sound :
    (commits : Commits) (a d : CommitId) → is_ancestor commits a d ≡ true → IsAncestor commits a d
unfolding is_ancestor walk
is_ancestor_sound commits a d h = elim (Bool-cases (nat_beq a d)) [
  | inl same ↦ let e : a ≡ d = (nat_beq_iff a d).0 same in rw e here
  | inr other ↦
      elim (Option-cases (found (walk commits stack_push stack_Enters (λ id. nat_beq id a) d))) [
        | inl missed ↦ absurd (ground arith)
        | inr (r, got) ↦
            let (hit, path) =
              walk_hit commits stack_push stack_Enters (λ id. nat_beq id a) d r got in
            let e : r ≡ a = (nat_beq_iff r a).0 hit in rw (← e) path
      ]
]

is_ancestor_complete :
    (commits : Commits) (a d : CommitId) → IsAncestor commits a d → is_ancestor commits a d ≡ true
unfolding is_ancestor walk
is_ancestor_complete commits a d path =
    elim (Option-cases (found (walk commits stack_push stack_Enters (λ id. nat_beq id a) d))) [
      | inl missed ↦
          let miss =
            walk_miss commits stack_push stack_Enters (λ id. nat_beq id a) d missed a path in
          absurd (ground (arith, nat_beq_iff a a, miss))
      | inr (r, got) ↦ ground arith
    ]

-- `is_ancestor` answers true exactly when its first commit is its second or is reached from it along
-- the parents of the stored commits, which may have cycles.
pub is_ancestor_iff :
    (commits : Commits) (a d : CommitId) → (is_ancestor commits a d ≡ true) ↔ IsAncestor commits a d
is_ancestor_iff commits a d = (is_ancestor_sound commits a d, is_ancestor_complete commits a d)

-- `ancestors` holds exactly the ancestors.
pub contains-ancestors_iff :
    (commits : Commits) (a r : CommitId)
    → (contains (ancestors commits a) r ≡ true) ↔ IsAncestor commits r a
unfolding ancestors
contains-ancestors_iff commits a r =
    let (w, e) = collect_ends parents_of commits stack_push stack_Enters a in
    rw e (collect_iff (parents commits) stack_push stack_Enters (enough commits parents_of) a w r e)

merge_base_common :
    (commits : Commits) (a b r : CommitId)
    → merge_base commits a b ≡ some r
    → IsAncestor commits r a × IsAncestor commits r b
unfolding merge_base walk
merge_base_common commits a b r h =
    let (hit, path) =
      walk_hit commits queue_push queue_Enters (λ id. contains (ancestors commits a) id) b r h in
    ((contains-ancestors_iff commits a r).0 hit, path)

merge_base-none :
    (commits : Commits) (a b r : CommitId)
    → merge_base commits a b ≡ none
    → IsAncestor commits r a
    → ¬ IsAncestor commits r b
unfolding merge_base walk
merge_base-none commits a b r h pa pb =
    let miss =
      walk_miss commits queue_push queue_Enters (λ id. contains (ancestors commits a) id) b h r
        pb in
    let has = (contains-ancestors_iff commits a r).1 pa in absurd (cc (miss, has))

-- What `merge_base` may answer, each commit being its own ancestor.
abbrev pub IsMergeBase : Commits → CommitId → CommitId → Option CommitId → Type 0
IsMergeBase commits a b none = (r : CommitId) → IsAncestor commits r a → ¬ IsAncestor commits r b
IsMergeBase commits a b (some r) = IsAncestor commits r a × IsAncestor commits r b

-- `merge_base` answers a common ancestor of the two commits, or nothing where they have none, also
-- where the parents of commits have cycles.
pub merge_base-IsMergeBase :
    (commits : Commits) (a b : CommitId) → IsMergeBase commits a b (merge_base commits a b)
merge_base-IsMergeBase commits a b = elim (Option-cases (merge_base commits a b)) [
  | inl missed ↦ rw (IsMergeBase, missed) (λ r pa pb. merge_base-none commits a b r missed pa pb)
  | inr (r, got) ↦ rw (IsMergeBase, got) (merge_base_common commits a b r got)
]

-- The walks over stored commits from one commit end within the fuel `enough`, on a stack and in a
-- queue, whatever they look for and also where the parents of commits have cycles.
pub walks_end :
    (commits : Commits) (hit : ℕ → Bool) (a : CommitId)
    → ((w : List ℕ) × (collect (parents commits) stack_push (enough commits parents_of) [] (a ∷ [])
          ≡ some w))
      × ((r : Option ℕ) × (find
              (parents commits)
              stack_push
              hit
              (enough commits parents_of)
              []
              (a ∷ [])
            ≡ some r))
      × ((r : Option ℕ) × (find
              (parents commits)
              queue_push
              hit
              (enough commits parents_of)
              []
              (a ∷ [])
            ≡ some r))
walks_end commits hit a = (
  collect_ends parents_of commits stack_push stack_Enters a,
  find_ends parents_of commits stack_push stack_Enters hit a,
  find_ends parents_of commits queue_push queue_Enters hit a,
)
