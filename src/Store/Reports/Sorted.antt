-- ===== src/Store/Reports/Sorted.antt =====
-- The sort of `evolution` and of `impact_analysis`.
use uwu_context_db.Prelude.{
  ℕ, ◌≡◌, ◌≤◌, ◌+◌, refl, inl, inr, Bool, List, [], ◌∷◌, arith, if◌then◌else◌, leb, nat_beq, nat_eq,
  list_eq, Bool-cases,
}
use uwu_context_db.Uri.Types.{ContextUri}
use uwu_context_db.Version.Model.{CommitId, TemporalVersion}
use uwu_context_db.Store.State.{Store, External}
use uwu_context_db.Store.Reports.{sort, insert_sorted, evolution, versions_of}

abbrev pub earlier : TemporalVersion → TemporalVersion → Bool
earlier a b = leb a.timestamp b.timestamp

-- The first of the list is not before `t`.
abbrev pub StartsAt : ℕ → List TemporalVersion → Type 0
StartsAt t [] = Unit
StartsAt t (v ∷ vs) = t ≤ v.timestamp

abbrev pub IsOldestFirst : List TemporalVersion → Type 0
IsOldestFirst [] = Unit
IsOldestFirst (v ∷ vs) = StartsAt v.timestamp vs × IsOldestFirst vs

insert-StartsAt :
    (t : ℕ) (v : TemporalVersion) (vs : List TemporalVersion)
    → t ≤ v.timestamp
    → StartsAt t vs
    → StartsAt t (insert_sorted earlier v vs)
unfolding insert_sorted
insert-StartsAt t v [] h k = h
insert-StartsAt t v (w ∷ vs) h k = elim (Bool-cases (earlier v w)) [
  | inl before ↦ rw before h
  | inr after ↦ rw after k
]

insert-IsOldestFirst :
    (v : TemporalVersion) (vs : List TemporalVersion)
    → IsOldestFirst vs
    → IsOldestFirst (insert_sorted earlier v vs)
unfolding insert_sorted
insert-IsOldestFirst v [] o = (tt, tt)
insert-IsOldestFirst v (w ∷ vs) o = elim (Bool-cases (earlier v w)) [
  | inl before ↦ rw before (ground arith, o)
  | inr after ↦
      rw after (insert-StartsAt w.timestamp v vs (ground arith) o.0, insert-IsOldestFirst v vs o.1)
]

sort-IsOldestFirst : (vs : List TemporalVersion) → IsOldestFirst (sort earlier vs)
unfolding sort
sort-IsOldestFirst [] = tt
sort-IsOldestFirst (v ∷ vs) = insert-IsOldestFirst v (sort earlier vs) (sort-IsOldestFirst vs)

-- How often a commit stands in a list.
abbrev pub times : CommitId → List TemporalVersion → ℕ
times id [] = 0
times id (v ∷ vs) = (if nat_beq v.commit_id id then 1 else 0) + times id vs

insert-times :
    (id : CommitId) (v : TemporalVersion) (vs : List TemporalVersion)
    → times id (insert_sorted earlier v vs) ≡ times id (v ∷ vs)
unfolding insert_sorted
insert-times id v [] = refl
insert-times id v (w ∷ vs) = ground (arith, insert-times id v vs)

sort-times : (id : CommitId) (vs : List TemporalVersion) → times id (sort earlier vs) ≡ times id vs
unfolding sort
sort-times id [] = refl
sort-times id (v ∷ vs) = ground (arith, insert-times id v (sort earlier vs), sort-times id vs)

module _ (ext : External) where
  -- The versions of an address are listed oldest first, and they are the versions of the commits whose
  -- snapshot has the address, each as often as before the sort.
  pub evolution-IsOldestFirst :
      (uri : ContextUri) (s : Store)
      → IsOldestFirst (evolution ext uri s)
        × ((id : CommitId)
            → times id (evolution ext uri s)
              ≡ times id (versions_of ext uri s.entry_snapshots s.commits))
  unfolding evolution
  evolution-IsOldestFirst uri s = (
    sort-IsOldestFirst (versions_of ext uri s.entry_snapshots s.commits),
    λ id. sort-times id (versions_of ext uri s.entry_snapshots s.commits),
  )
