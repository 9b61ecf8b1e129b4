-- ===== src/Examples/Indexes.antt =====
-- Runs of the temporal and the causal index.
use mathlib.Core.List.{Perm}
use uwu_context_db.Prelude.{
  ℕ, suc, ◌+◌, ◌≤◌, ◌≡◌, ◌≢◌, ◌↔◌, refl, inl, inr, arith, true, Bool-cases, nat_beq, nat_beq_iff,
  ltb, if◌then◌else◌, ◌&&◌, nat_eq, some, List, [], ◌∷◌, contains, filter_by, get_elem?, last?,
  Result, ok, err, text,
}
use uwu_context_db.Uri.Types.{ContextUri}
use uwu_context_db.Version.Model.{CommitId, Commit}
use uwu_context_db.Version.Walk.{Reach}
use uwu_context_db.Version.Temporal.{
  TemporalVersion, TemporalIndex, BitemporalQuery, BitemporalRange, valid_at, valid_overlaps,
  transaction_as_of, bitemporal_as_of, between, bitemporal_between, evolution,
}
use uwu_context_db.Version.Temporal.Timeline.{
  IsSorted, Fits, IsBinarySearch, AllFrom-lower, record_all, recorded, evolution-Perm,
}
use uwu_context_db.Version.Temporal.Queries.{known, sorted_queries}
use uwu_context_db.Version.Causal.{from_commits, parents_of, root_causes, is_descendant_of}
use uwu_context_db.Version.Causal.Correct.{is_descendant_of_iff, root_causes_iff}
use uwu_context_db.Examples.Fixture.{scope, page, stored}

-- A search that answers the first place.
abbrev shift : Result ℕ ℕ → Result ℕ ℕ
shift (ok p) = ok (suc p)
shift (err p) = err (suc p)

unfoldable linear : ℕ → List TemporalVersion → Result ℕ ℕ
linear t [] = err 0
linear t (v ∷ vs) =
    let rest = linear t vs in
    if ltb v.timestamp t then shift rest else if nat_beq v.timestamp t then ok 0 else err 0

shift-ok : (r : Result ℕ ℕ) (p : ℕ) → shift r ≡ ok p → (q : ℕ) × (r ≡ ok q) × (p ≡ suc q)
shift-ok (ok q) p h = (q, refl, ground (arith, h))
shift-ok (err q) p h = absurd (ground (arith, h))

shift-err : (r : Result ℕ ℕ) (p : ℕ) → shift r ≡ err p → (q : ℕ) × (r ≡ err q) × (p ≡ suc q)
shift-err (ok q) p h = absurd (ground (arith, h))
shift-err (err q) p h = (q, refl, ground (arith, h))

linear-found :
    (t : ℕ) (vs : List TemporalVersion) (p : ℕ)
    → IsSorted vs
    → linear t vs ≡ ok p
    → (v : TemporalVersion) × (get_elem? vs p ≡ some v) × (v.timestamp ≡ t)
unfolding linear
linear-found t [] p sorted h = absurd (ground (arith, h))
linear-found t (v ∷ vs) p sorted h = elim (Bool-cases (ltb v.timestamp t)) [
  | inl early ↦
      let (q, rest, next) = shift-ok (linear t vs) p (rw early at h) in
      let (w, got, at) = linear-found t vs q sorted.1 rest in (w, rw next got, at)
  | inr late ↦ elim (Bool-cases (nat_beq v.timestamp t)) [
    | inl same ↦
        let first : p ≡ 0 = ground (arith, h, late, same) in
        (v, rw first refl, (nat_beq_iff v.timestamp t).0 same)
    | inr other ↦ absurd (ground (arith, h, late, other))
  ]
]

linear-missing :
    (t : ℕ) (vs : List TemporalVersion) (p : ℕ) → IsSorted vs → linear t vs ≡ err p → Fits p t vs
unfolding linear
linear-missing t [] p sorted h = let first : p ≡ 0 = ground (arith, h) in rw first tt
linear-missing t (v ∷ vs) p sorted h = elim (Bool-cases (ltb v.timestamp t)) [
  | inl early ↦
      let (q, rest, next) = shift-err (linear t vs) p (rw early at h) in
      rw next (ground (arith, early), linear-missing t vs q sorted.1 rest)
  | inr late ↦ elim (Bool-cases (nat_beq v.timestamp t)) [
    | inl same ↦ absurd (ground (arith, h, late, same))
    | inr other ↦
        let first : p ≡ 0 = ground (arith, h, late, other) in
        let before : t ≤ v.timestamp = ground (arith, late) in
        rw first (before, AllFrom-lower t v.timestamp vs before sorted.0)
  ]
]

linear-IsBinarySearch : IsBinarySearch linear
linear-IsBinarySearch = record { found = linear-found; missing = linear-missing }

abbrev at_time : ℕ → ℕ → TemporalVersion
at_time id t = record {
  commit_id = id;
  timestamp = t;
  content_hash = text "hash";
  valid_from = t;
  valid_until = some (t + 3);
}

-- Two versions of the page at the same time, one before, and one of another address.
abbrev recordings : List (ContextUri × TemporalVersion)
recordings =
    (page, at_time 1 5) ∷ (scope, at_time 2 4) ∷ (page, at_time 3 2) ∷ (page, at_time 4 5) ∷ []

abbrev index : TemporalIndex
index = record_all linear recordings []

evolution-Perm_example :
    IsSorted (evolution page (record_all linear recordings []))
    × Perm (evolution page (record_all linear recordings [])) (recorded page recordings)
evolution-Perm_example = evolution-Perm linear linear-IsBinarySearch recordings page

page-IsSorted : IsSorted (evolution page index)
page-IsSorted = evolution-Perm_example.0

abbrev query : BitemporalQuery
query = record { valid_at = 4; transaction_at = 6 }

abbrev range : BitemporalRange
range = record { valid_from = 3; valid_to = 4; transaction_from = 2; transaction_to = 5 }

sorted_queries_example :
    (transaction_as_of page 6 index ≡ last? (filter_by (known 6) (evolution page index)))
    × (bitemporal_as_of page query index
        ≡ last? (filter_by (λ v. known 6 v && valid_at v 4) (evolution page index)))
    × (bitemporal_between page range index
        ≡ filter_by (λ v. valid_overlaps v 3 4) (between page 2 5 index))
sorted_queries_example = sorted_queries page query range index page-IsSorted

-- A cycle of two commits with a root behind it.
abbrev commits : List Commit
commits = stored 1 1 [] ∷ stored 2 2 (3 ∷ 1 ∷ []) ∷ stored 3 3 (2 ∷ []) ∷ []

abbrev oldest : CommitId
oldest = 1

is_descendant_of_iff_example :
    (is_descendant_of (from_commits commits) oldest 3 ≡ true)
    ↔ ((oldest ≢ 3) × Reach (parents_of (from_commits commits)) 3 oldest)
is_descendant_of_iff_example = is_descendant_of_iff commits oldest 3

root_causes_iff_example :
    (contains (root_causes (from_commits commits) 3) 1 ≡ true)
    ↔ (Reach (parents_of (from_commits commits)) 3 1 × (parents_of (from_commits commits) 1 ≡ []))
root_causes_iff_example = root_causes_iff (from_commits commits) 3 1
