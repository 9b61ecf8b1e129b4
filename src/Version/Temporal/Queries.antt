-- ===== src/Version/Temporal/Queries.antt =====
-- The binary searches of the queries against a reading of the whole timeline.
use uwu_context_db.Prelude.{
  ℕ, zero, suc, ◌≤◌, ◌<◌, ◌≡◌, refl, sym, ap, ◌∙◌, arith, inl, inr, Bool, true, false, Bool-cases,
  ◌&&◌, none, some, Option-cases, List, [], ◌∷◌, leb, ltb, filter_by, take, drop, last?, get_elem?,
  length, lookup, list_eq, nat_eq,
}
use uwu_context_db.Uri.Types.{ContextUri}
use uwu_context_db.Uri.Ops.{as_str}
use uwu_context_db.Version.Temporal.{
  TemporalVersion, TemporalIndex, BitemporalQuery, BitemporalRange, partition_point, take_while,
  find_last, valid_at, valid_overlaps, transaction_as_of, bitemporal_as_of, between,
  bitemporal_between, evolution,
}
use uwu_context_db.Version.Temporal.Timeline.{AllFrom, IsSorted}

abbrev pub known : ℕ → TemporalVersion → Bool
known at v = leb v.timestamp at

none-known :
    (t at : ℕ) (vs : List TemporalVersion) → at < t → AllFrom t vs → filter_by (known at) vs ≡ []
none-known t at [] lt h = refl
none-known t at (v ∷ vs) lt h =
    let off : known at v ≡ false = ground (arith, lt, h.0) in rw off (none-known t at vs lt h.1)

-- The known versions are those before the partition point.
take-known :
    (at : ℕ) (vs : List TemporalVersion)
    → IsSorted vs
    → take (partition_point (known at) vs) vs ≡ filter_by (known at) vs
take-known at [] h = refl
take-known at (v ∷ vs) h = elim (Bool-cases (known at v)) [
  | inl on ↦ rw on (ap (◌∷◌ v) (take-known at vs h.1))
  | inr off ↦ rw off (sym (none-known v.timestamp at vs (ground (arith, off)) h.0))
]

take_while-known :
    (at : ℕ) (vs : List TemporalVersion)
    → IsSorted vs
    → take_while (known at) vs ≡ filter_by (known at) vs
take_while-known at [] h = refl
take_while-known at (v ∷ vs) h = elim (Bool-cases (known at v)) [
  | inl on ↦ rw on (ap (◌∷◌ v) (take_while-known at vs h.1))
  | inr off ↦ rw off (sym (none-known v.timestamp at vs (ground (arith, off)) h.0))
]

all-late :
    (t from : ℕ) (vs : List TemporalVersion)
    → from ≤ t
    → AllFrom t vs
    → filter_by (λ v. leb from v.timestamp) vs ≡ vs
all-late t from [] le h = refl
all-late t from (v ∷ vs) le h =
    let on : leb from v.timestamp ≡ true = ground (arith, le, h.0) in
    rw on (ap (◌∷◌ v) (all-late t from vs le h.1))

drop-late :
    (from : ℕ) (vs : List TemporalVersion)
    → IsSorted vs
    → drop (partition_point (λ v. ltb v.timestamp from) vs) vs
      ≡ filter_by (λ v. leb from v.timestamp) vs
drop-late from [] h = refl
drop-late from (v ∷ vs) h = elim (Bool-cases (ltb v.timestamp from)) [
  | inl early ↦
      let off : leb from v.timestamp ≡ false = ground (arith, early) in
      rw (early, off) (drop-late from vs h.1)
  | inr late ↦
      let on : leb from v.timestamp ≡ true = ground (arith, late) in
      rw (late, on) (ap (◌∷◌ v) (sym (all-late v.timestamp from vs (ground (arith, late)) h.0)))
]

drop-IsSorted : (n : ℕ) (vs : List TemporalVersion) → IsSorted vs → IsSorted (drop n vs)
drop-IsSorted zero vs h = h
drop-IsSorted (suc n) [] h = h
drop-IsSorted (suc n) (v ∷ vs) h = drop-IsSorted n vs h.1

filter_by-filter_by :
    (p q : TemporalVersion → Bool) (vs : List TemporalVersion)
    → filter_by q (filter_by p vs) ≡ filter_by (λ v. p v && q v) vs
filter_by-filter_by p q [] = refl
filter_by-filter_by p q (v ∷ vs) = elim (Bool-cases (p v)) [
  | inl on ↦ rw (on, filter_by-filter_by p q vs) refl
  | inr off ↦ rw (off, filter_by-filter_by p q vs) refl
]

last?-cons :
    (v : TemporalVersion) (vs : List TemporalVersion)
    → last? (v ∷ vs) ≡ (elim (last? vs) [ some w ↦ some w | none ↦ some v ])
last?-cons v [] = refl
last?-cons v (w ∷ vs) = rw (last?-cons w vs) (ground arith)

find_last-filter_by :
    (p : TemporalVersion → Bool) (vs : List TemporalVersion)
    → find_last p vs ≡ last? (filter_by p vs)
find_last-filter_by p [] = refl
find_last-filter_by p (v ∷ vs) =
    ground (arith, find_last-filter_by p vs, last?-cons v (filter_by p vs))

get_elem?-last? :
    (n : ℕ) (v : TemporalVersion) (vs : List TemporalVersion)
    → n ≤ length vs
    → get_elem? (v ∷ vs) n ≡ last? (v ∷ take n vs)
get_elem?-last? zero v vs le = refl
get_elem?-last? (suc n) v [] le = absurd (omega (arith, le))
get_elem?-last? (suc n) v (w ∷ vs) le = get_elem?-last? n w vs (omega (arith, le))

partition_point-le :
    (p : TemporalVersion → Bool) (vs : List TemporalVersion) → partition_point p vs ≤ length vs
partition_point-le p [] = omega arith
partition_point-le p (v ∷ vs) = ground (arith, partition_point-le p vs)

before-last? :
    (p : TemporalVersion → Bool) (vs : List TemporalVersion)
    → (elim (partition_point p vs) [ zero ↦ none | suc idx ↦ get_elem? vs idx ])
      ≡ last? (take (partition_point p vs) vs)
before-last? p [] = refl
before-last? p (v ∷ vs) = elim (Bool-cases (p v)) [
  | inl on ↦ rw on (get_elem?-last? (partition_point p vs) v vs (partition_point-le p vs))
  | inr off ↦ rw off refl
]

transaction_as_of-last? :
    (uri : ContextUri) (at : ℕ) (index : TemporalIndex)
    → IsSorted (evolution uri index)
    → transaction_as_of uri at index ≡ last? (filter_by (known at) (evolution uri index))
unfolding transaction_as_of evolution
transaction_as_of-last? uri at index h = elim (Option-cases (lookup (as_str uri) index)) [
  | inl absent ↦ rw (transaction_as_of, absent) refl
  | inr (vs, present) ↦
      rw (transaction_as_of, present)
        (before-last? (known at) vs ∙ ap last? (take-known at vs (rw present at h)))
]

bitemporal_as_of-last? :
    (uri : ContextUri) (query : BitemporalQuery) (index : TemporalIndex)
    → IsSorted (evolution uri index)
    → bitemporal_as_of uri query index
      ≡ last? (
          filter_by
            (λ v. known query.transaction_at v && valid_at v query.valid_at)
            (evolution uri index))
unfolding bitemporal_as_of evolution
bitemporal_as_of-last? uri query index h = elim (Option-cases (lookup (as_str uri) index)) [
  | inl absent ↦ rw (bitemporal_as_of, absent) refl
  | inr (vs, present) ↦
      let p : TemporalVersion → Bool = λ v. known query.transaction_at v in
      let q : TemporalVersion → Bool = λ v. valid_at v query.valid_at in
      rw
        (
          bitemporal_as_of,
          present,
          take-known query.transaction_at vs (rw present at h),
          find_last-filter_by q (filter_by p vs),
          filter_by-filter_by p q vs,
        )
        refl
]

bitemporal_between-between :
    (uri : ContextUri) (range : BitemporalRange) (index : TemporalIndex)
    → IsSorted (evolution uri index)
    → bitemporal_between uri range index
      ≡ filter_by
          (λ v. valid_overlaps v range.valid_from range.valid_to)
          (between uri range.transaction_from range.transaction_to index)
unfolding bitemporal_between between evolution
bitemporal_between-between uri range index h = elim (Option-cases (lookup (as_str uri) index)) [
  | inl absent ↦ rw (bitemporal_between, between, absent) refl
  | inr (vs, present) ↦
      let from = range.transaction_from in
      let start = partition_point (λ v. ltb v.timestamp from) vs in
      let sorted : IsSorted vs = rw present at h in
      let inside : take_while (known range.transaction_to) (drop start vs)
          ≡ filter_by (λ v. leb from v.timestamp && known range.transaction_to v) vs =
        take_while-known range.transaction_to (drop start vs) (drop-IsSorted start vs sorted)
        ∙ (ap (filter_by (known range.transaction_to)) (drop-late from vs sorted)
            ∙ filter_by-filter_by _ (known range.transaction_to) vs) in
      rw (bitemporal_between, between, present, inside) refl
]

-- On a sorted timeline the queries answer as a reading of the whole evolution does: the version as of
-- a transaction time is the last one known then; the bitemporal one is the last one known then and
-- valid at the valid time; and the range query gives, in order, exactly the versions whose
-- transaction time is in the window and whose validity overlaps it.
pub sorted_queries :
    (uri : ContextUri) (query : BitemporalQuery) (range : BitemporalRange) (index : TemporalIndex)
    → IsSorted (evolution uri index)
    → (transaction_as_of uri query.transaction_at index
        ≡ last? (filter_by (known query.transaction_at) (evolution uri index)))
      × (bitemporal_as_of uri query index
          ≡ last? (
              filter_by
                (λ v. known query.transaction_at v && valid_at v query.valid_at)
                (evolution uri index)))
      × (bitemporal_between uri range index
          ≡ filter_by
              (λ v. valid_overlaps v range.valid_from range.valid_to)
              (between uri range.transaction_from range.transaction_to index))
sorted_queries uri query range index h = (
  transaction_as_of-last? uri query.transaction_at index h,
  bitemporal_as_of-last? uri query index h,
  bitemporal_between-between uri range index h,
)
