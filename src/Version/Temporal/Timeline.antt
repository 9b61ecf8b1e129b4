-- ===== src/Version/Temporal/Timeline.antt =====
-- Recording into a timeline.
use mathlib.Core.List.{Perm, perm_middle, append-nil}
use mathlib.Core.List.Perm
use uwu_context_db.Prelude.{
  ℕ, zero, suc, ◌≤◌, ◌≡◌, refl, arith, Bool-cases, ◌⊎◌, inl, inr, ◌++◌, text_iff, some, List, [],
  ◌∷◌, ◌==◌, nat_eq, list_eq, lookup-insert, lookup, if◌then◌else◌, get_elem?, Result, ok, err,
}
use uwu_context_db.Uri.Types.{ContextUri}
use uwu_context_db.Uri.Ops.{as_str}
use uwu_context_db.Version.Temporal.{
  TemporalVersion, TemporalIndex, insert_at, place, record_version, evolution,
}

Result-cases : (r : Result ℕ ℕ) → ((p : ℕ) × (r ≡ ok p)) ⊎ ((p : ℕ) × (r ≡ err p))
Result-cases (ok p) = inl (p, refl)
Result-cases (err p) = inr (p, refl)

-- No version is from before `t`.
abbrev pub AllFrom : ℕ → List TemporalVersion → Type 0
AllFrom t [] = Unit
AllFrom t (v ∷ vs) = (t ≤ v.timestamp) × AllFrom t vs

abbrev pub IsSorted : List TemporalVersion → Type 0
IsSorted [] = Unit
IsSorted (v ∷ vs) = AllFrom v.timestamp vs × IsSorted vs

-- A version of the time `t` may go to the place `p`.
abbrev pub Fits : ℕ → ℕ → List TemporalVersion → Type 0
Fits zero t vs = AllFrom t vs
Fits (suc p) t [] = ⊥
Fits (suc p) t (v ∷ vs) = (v.timestamp ≤ t) × Fits p t vs

-- What the documentation of `binary_search_by` says of a sorted list: a place found holds the time,
-- and an error is a place that keeps the list sorted.
pub record IsBinarySearch (search : ℕ → List TemporalVersion → Result ℕ ℕ) : Type 0 where
  pub found :
      (t : ℕ) (vs : List TemporalVersion) (p : ℕ)
      → IsSorted vs
      → search t vs ≡ ok p
      → (v : TemporalVersion) × (get_elem? vs p ≡ some v) × (v.timestamp ≡ t)
  pub missing :
      (t : ℕ) (vs : List TemporalVersion) (p : ℕ) → IsSorted vs → search t vs ≡ err p → Fits p t vs

pub AllFrom-lower : (s t : ℕ) (vs : List TemporalVersion) → s ≤ t → AllFrom t vs → AllFrom s vs
AllFrom-lower s t [] le h = tt
AllFrom-lower s t (v ∷ vs) le h = (omega (arith, le, h.0), AllFrom-lower s t vs le h.1)

AllFrom-get :
    (s p : ℕ) (vs : List TemporalVersion) (v : TemporalVersion)
    → AllFrom s vs
    → get_elem? vs p ≡ some v
    → s ≤ v.timestamp
AllFrom-get s p [] v h got = absurd (ground (arith, got))
AllFrom-get s zero (w ∷ vs) v h got = let same : w ≡ v = ground (arith, got) in rw (← same) h.0
AllFrom-get s (suc p) (w ∷ vs) v h got = AllFrom-get s p vs v h.1 got

found-Fits :
    (p t : ℕ) (vs : List TemporalVersion) (v : TemporalVersion)
    → IsSorted vs
    → get_elem? vs p ≡ some v
    → v.timestamp ≡ t
    → Fits p t vs
found-Fits p t [] v h got at = absurd (ground (arith, got))
found-Fits zero t (w ∷ vs) v h got at =
    let same : w ≡ v = ground (arith, got) in
    let now : w.timestamp ≡ t = rw same at in (omega (arith, now), rw now at h.0)
found-Fits (suc p) t (w ∷ vs) v h got at =
    (omega (arith, AllFrom-get w.timestamp p vs v h.0 got, at), found-Fits p t vs v h.1 got at)

insert_at-AllFrom :
    (s p : ℕ) (v : TemporalVersion) (vs : List TemporalVersion)
    → s ≤ v.timestamp
    → AllFrom s vs
    → AllFrom s (insert_at p v vs)
insert_at-AllFrom s zero v vs le h = (le, h)
insert_at-AllFrom s (suc p) v [] le h = (le, tt)
insert_at-AllFrom s (suc p) v (w ∷ vs) le h = (h.0, insert_at-AllFrom s p v vs le h.1)

insert_at-IsSorted :
    (p : ℕ) (v : TemporalVersion) (vs : List TemporalVersion)
    → Fits p v.timestamp vs
    → IsSorted vs
    → IsSorted (insert_at p v vs)
insert_at-IsSorted zero v vs fits h = (fits, h)
insert_at-IsSorted (suc p) v [] fits h = (tt, tt)
insert_at-IsSorted (suc p) v (w ∷ vs) fits h =
    (insert_at-AllFrom w.timestamp p v vs fits.0 h.0, insert_at-IsSorted p v vs fits.1 h.1)

insert_at-Perm :
    (p : ℕ) (v : TemporalVersion) (vs : List TemporalVersion) → Perm (insert_at p v vs) (v ∷ vs)
insert_at-Perm zero v vs = Perm.refl (v ∷ vs)
insert_at-Perm (suc p) v [] = Perm.refl (v ∷ [])
insert_at-Perm (suc p) v (w ∷ vs) =
    Perm.trans (Perm.cons w (insert_at-Perm p v vs)) (Perm.swap v w vs)

-- Versions recorded one after another, the first one first.
unfoldable pub record_all :
    (ℕ → List TemporalVersion → Result ℕ ℕ)
    → List (ContextUri × TemporalVersion)
    → TemporalIndex
    → TemporalIndex
record_all search [] index = index
record_all search ((uri, v) ∷ rs) index = record_all search rs (record_version search uri v index)

-- The versions recorded for an address.
unfoldable pub recorded : ContextUri → List (ContextUri × TemporalVersion) → List TemporalVersion
recorded uri [] = []
recorded uri ((at, v) ∷ rs) =
    if as_str at == as_str uri then v ∷ recorded uri rs else recorded uri rs

module _ (search : ℕ → List TemporalVersion → Result ℕ ℕ) (right : IsBinarySearch search) where
  place-Fits : (t : ℕ) (vs : List TemporalVersion) → IsSorted vs → Fits (place (search t vs)) t vs
  unfolding place
  place-Fits t vs h = elim (Result-cases (search t vs)) [
    | inl (p, q) ↦ let (v, got, at) = right.found t vs p h q in rw q (found-Fits p t vs v h got at)
    | inr (p, q) ↦ rw q (right.missing t vs p h q)
  ]

  record_version-evolution :
      (uri at : ContextUri) (v : TemporalVersion) (index : TemporalIndex)
      → evolution uri (record_version search at v index) ≡ (
          let old = evolution uri index in
          if as_str at == as_str uri then insert_at (place (search v.timestamp old)) v old else old)
  unfolding evolution record_version
  record_version-evolution uri at v index =
      let old = evolution at index in
      let new = insert_at (place (search v.timestamp old)) v old in
      ground
        (arith, lookup-insert (as_str at) (as_str uri) new index, text_iff (as_str at) (as_str uri))

  record_all-timeline :
      (rs : List (ContextUri × TemporalVersion)) (uri : ContextUri) (index : TemporalIndex)
      → IsSorted (evolution uri index)
      → IsSorted (evolution uri (record_all search rs index))
        × Perm (evolution uri (record_all search rs index)) (recorded uri rs ++ evolution uri index)
  unfolding record_all recorded
  record_all-timeline [] uri index h = (h, Perm.refl (evolution uri index))
  record_all-timeline ((at, v) ∷ rs) uri index h =
      let old = evolution uri index in
      let next = record_version-evolution uri at v index in
      elim (Bool-cases (as_str at == as_str uri)) [
        | inl same ↦
            let new : evolution uri (record_version search at v index)
                ≡ insert_at (place (search v.timestamp old)) v old =
              ground (arith, same, next) in
            let fits = place-Fits v.timestamp old h in
            let (sorted, perm) =
              record_all-timeline rs uri (record_version search at v index)
                (rw new (insert_at-IsSorted _ v old fits h)) in
            let inserted = insert_at-Perm (place (search v.timestamp old)) v old in
            rw same (
              sorted,
              Perm.trans (rw new at perm) (
                  Perm.trans (Perm.append_left (recorded uri rs) inserted)
                    (perm_middle (recorded uri rs) old)),
            )
        | inr other ↦
            let kept : evolution uri (record_version search at v index) ≡ old =
              ground (arith, other, next) in
            let (sorted, perm) =
              record_all-timeline rs uri (record_version search at v index) (rw kept h) in
            rw other (sorted, rw kept at perm)
      ]

  -- Whatever is recorded, in whatever order and wherever the binary search puts equal times, the
  -- evolution of an address is sorted by transaction time and is a permutation of the versions
  -- recorded for it.
  pub evolution-Perm :
      (rs : List (ContextUri × TemporalVersion)) (uri : ContextUri)
      → IsSorted (evolution uri (record_all search rs []))
        × Perm (evolution uri (record_all search rs [])) (recorded uri rs)
  unfolding evolution lookup
  evolution-Perm rs uri =
      let (sorted, perm) = record_all-timeline rs uri [] tt in
      (sorted, rw (append-nil (recorded uri rs)) at perm)
