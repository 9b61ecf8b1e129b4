-- ===== src/Version/Temporal.antt =====
-- `TemporalIndex` of crates/context-db-version/src/model.rs: the timeline of each address. A time
-- is a number of time units. The standard library's binary search is a parameter, since it may
-- choose any place among equal times.
pub mod Timeline
pub mod Queries
use uwu_context_db.Prelude.{
  ℕ, zero, suc, Bool, true, ◌&&◌, Option, none, some, unwrap_or, List, [], ◌∷◌, leb, ltb,
  if◌then◌else◌, filter_by, take, drop, get_elem?, Result, ok, err, Text, Map, lookup, insert,
  list_eq, nat_eq,
}
use uwu_context_db.Uri.Types.{ContextUri}
use uwu_context_db.Uri.Ops.{as_str}
pub use uwu_context_db.Version.Model.{TemporalVersion}

pub record BitemporalQuery : Type 0 where
  pub valid_at : ℕ
  pub transaction_at : ℕ

pub record BitemporalRange : Type 0 where
  pub valid_from : ℕ
  pub valid_to : ℕ
  pub transaction_from : ℕ
  pub transaction_to : ℕ

unfoldable pub valid_at : TemporalVersion → ℕ → Bool
valid_at v at =
    leb v.valid_from at && (elim v.valid_until [ none ↦ true | some until ↦ ltb at until ])

unfoldable pub valid_overlaps : TemporalVersion → ℕ → ℕ → Bool
valid_overlaps v from to =
    leb v.valid_from to && (elim v.valid_until [ none ↦ true | some until ↦ leb from until ])

abbrev pub TemporalIndex : Type 0
TemporalIndex = Map Text (List TemporalVersion)

-- `Vec::insert`; the places asked for are never past the end.
abbrev pub insert_at : ℕ → TemporalVersion → List TemporalVersion → List TemporalVersion
insert_at zero v vs = v ∷ vs
insert_at (suc n) v [] = v ∷ []
insert_at (suc n) v (w ∷ vs) = w ∷ insert_at n v vs

-- `partition_point`, on a list that the test partitions.
abbrev pub partition_point : (TemporalVersion → Bool) → List TemporalVersion → ℕ
partition_point p [] = 0
partition_point p (v ∷ vs) = if p v then suc (partition_point p vs) else 0

abbrev pub take_while : (TemporalVersion → Bool) → List TemporalVersion → List TemporalVersion
take_while p [] = []
take_while p (v ∷ vs) = if p v then v ∷ take_while p vs else []

-- `iter().rev().find(p)`
abbrev pub find_last : (TemporalVersion → Bool) → List TemporalVersion → Option TemporalVersion
find_last p [] = none
find_last p (v ∷ vs) = elim (find_last p vs) [
  | some w ↦ some w
  | none ↦ if p v then some v else none
]

-- The place that `binary_search_by` answers, an error being where the time would go.
unfoldable pub place : Result ℕ ℕ → ℕ
place (ok p) = p
place (err p) = p

-- `record`
unfoldable pub record_version :
    (ℕ → List TemporalVersion → Result ℕ ℕ)
    → ContextUri
    → TemporalVersion
    → TemporalIndex
    → TemporalIndex
unfolding place
record_version search uri version index =
    let timeline = unwrap_or [] (lookup (as_str uri) index) in
    let pos = place (search version.timestamp timeline) in
    insert (as_str uri) (insert_at pos version timeline) index

unfoldable pub transaction_as_of : ContextUri → ℕ → TemporalIndex → Option TemporalVersion
transaction_as_of uri at index = elim (lookup (as_str uri) index) [
  | none ↦ none
  | some timeline ↦ elim (partition_point (λ v. leb v.timestamp at) timeline) [
    | zero ↦ none
    | suc idx ↦ get_elem? timeline idx
  ]
]

abbrev pub as_of : ContextUri → ℕ → TemporalIndex → Option TemporalVersion
as_of uri at index = transaction_as_of uri at index

unfoldable pub bitemporal_as_of :
    ContextUri → BitemporalQuery → TemporalIndex → Option TemporalVersion
unfolding valid_at
bitemporal_as_of uri query index = elim (lookup (as_str uri) index) [
  | none ↦ none
  | some timeline ↦
      let pos = partition_point (λ v. leb v.timestamp query.transaction_at) timeline in
      find_last (λ v. valid_at v query.valid_at) (take pos timeline)
]

unfoldable pub between : ContextUri → ℕ → ℕ → TemporalIndex → List TemporalVersion
between uri from to index = elim (lookup (as_str uri) index) [
  | none ↦ []
  | some timeline ↦ filter_by (λ v. leb from v.timestamp && leb v.timestamp to) timeline
]

unfoldable pub bitemporal_between :
    ContextUri → BitemporalRange → TemporalIndex → List TemporalVersion
unfolding valid_overlaps
bitemporal_between uri range index = elim (lookup (as_str uri) index) [
  | none ↦ []
  | some timeline ↦
      let start = partition_point (λ v. ltb v.timestamp range.transaction_from) timeline in
      filter_by (λ v. valid_overlaps v range.valid_from range.valid_to)
        (take_while (λ v. leb v.timestamp range.transaction_to) (drop start timeline))
]

unfoldable pub evolution : ContextUri → TemporalIndex → List TemporalVersion
evolution uri index = unwrap_or [] (lookup (as_str uri) index)
