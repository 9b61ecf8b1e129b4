-- ===== src/Store/Merge/Snapshots.antt =====
-- The three-way merge of snapshots against a rule for one URI.
use uwu_context_db.Prelude.{
  ◌≡◌, refl, inl, inr, false, ◌||◌, Option, none, some, List, [], ◌∷◌, ◌++◌, arith, ◌==◌, nat_eq,
  list_eq, pair_eq, option_eq, text_iff, opt_iff, Bool-cases, if◌then◌else◌, contains,
  contains-append, keys, lookup, lookup-insert, lookup-remove, contains-keys, ok, bind-eq-ok, Text,
}
use uwu_context_db.Uri.Types.{ContextUri}
use uwu_context_db.Uri.Equality.{uri_eq}
use uwu_context_db.Version.Model.{MergeStrategy}
use uwu_context_db.Store.State.{Snapshot, External}
use uwu_context_db.Store.Merge.{distinct, put_value, merge_key, merge_keys, merge_snapshots}

-- The value of a URI after a merge: a side that did not change yields to the other, equal changes
-- stand, and the strategy decides the rest.
pub merged_value : MergeStrategy → Option Text → Option Text → Option Text → Option Text
merged_value strategy base ours theirs =
    if theirs == base
    then ours
    else if ours == base || ours == theirs
    then theirs
    else elim strategy [ MergeStrategy.theirs ↦ theirs | _ ↦ ours ]

pub contains-distinct : (ks : List Text) (k : Text) → contains (distinct ks) k ≡ contains ks k
unfolding distinct contains
contains-distinct [] k = refl
contains-distinct (j ∷ ks) k =
    ground (arith, contains-distinct ks k, contains-distinct ks j, text_iff j k)

pub lookup-put_value :
    (u k : Text) (v : Option Text) (m : Snapshot)
    → lookup k (put_value u v m) ≡ (if u == k then v else lookup k m)
lookup-put_value u k none m = lookup-remove u k m
lookup-put_value u k (some v) m = lookup-insert u k v m

abbrev IsDistinct : List Text → Type 0
IsDistinct [] = Unit
IsDistinct (k ∷ ks) = (contains ks k ≡ false) × IsDistinct ks

distinct-IsDistinct : (ks : List Text) → IsDistinct (distinct ks)
unfolding distinct
distinct-IsDistinct [] = tt
distinct-IsDistinct (k ∷ ks) = elim (Bool-cases (contains (distinct ks) k)) [
  | inl old ↦ rw old (distinct-IsDistinct ks)
  | inr new ↦ rw new (new, distinct-IsDistinct ks)
]

-- A URI that no side has keeps no value.
start_value :
    (strategy : MergeStrategy) (base into from : Snapshot) (u : Text)
    → lookup u into ≡ (
        if contains (distinct (keys base ++ (keys from ++ keys into))) u
        then lookup u into
        else merged_value strategy (lookup u base) (lookup u into) (lookup u from))
unfolding merged_value
start_value strategy base into from u = ground (
  arith,
  contains-distinct (keys base ++ (keys from ++ keys into)) u,
  contains-append (keys base) (keys from ++ keys into) u,
  contains-append (keys from) (keys into) u,
  contains-keys u base,
  contains-keys u from,
  contains-keys u into,
)

module _ (ext : External) where
  -- A round gives its URI the merged value, if it had that of `into`, and leaves the others.
  merge_key-lookup :
      (strategy : MergeStrategy) (b o t : Option Text) (uri k : Text) (merged merged' : Snapshot)
      (cs cs' : List ContextUri)
      → merge_key ext strategy b o t uri merged cs ≡ ok (merged', cs')
      → lookup uri merged ≡ o
      → lookup k merged' ≡ (if uri == k then merged_value strategy b o t else lookup k merged)
  unfolding merge_key merged_value
  merge_key-lookup MergeStrategy.theirs b o t uri k merged merged' cs cs' h same = ground (
    arith,
    text_iff uri k,
    opt_iff t b,
    opt_iff o b,
    opt_iff o t,
    lookup-put_value uri k t merged,
  )
  merge_key-lookup _ b o t uri k merged merged' cs cs' h same = ground (
    arith,
    text_iff uri k,
    opt_iff t b,
    opt_iff o b,
    opt_iff o t,
    lookup-put_value uri k t merged,
  )

  merge_keys-lookup :
      (strategy : MergeStrategy) (base into from : Snapshot) (uris : List Text) (k : Text)
      (merged merged' : Snapshot) (cs cs' : List ContextUri)
      → merge_keys ext strategy base into from uris merged cs ≡ ok (merged', cs')
      → IsDistinct uris
      → ((u : Text)
          → lookup u merged ≡ (
              if contains uris u
              then lookup u into
              else merged_value strategy (lookup u base) (lookup u into) (lookup u from)))
      → lookup k merged' ≡ merged_value strategy (lookup k base) (lookup k into) (lookup k from)
  unfolding merge_keys contains
  merge_keys-lookup strategy base into from [] k merged merged' cs cs' h d inv =
      ground (arith, inv k)
  merge_keys-lookup strategy base into from (uri ∷ uris) k merged merged' cs cs' h d inv =
      let b = lookup uri base in
      let o = lookup uri into in
      let t = lookup uri from in
      let (p, e, h') = bind-eq-ok (merge_key ext strategy b o t uri merged cs) _ h in
      merge_keys-lookup strategy base into from uris k p.0 merged' p.1 cs' h' d.1 λ u. ground (
        arith,
        text_iff uri u,
        inv u,
        merge_key-lookup strategy b o t uri u merged p.0 cs p.1 e
            (ground (arith, inv uri, text_iff uri uri)),
        d.0,
      )

  -- A merge of snapshots that succeeds leaves at every URI the value of the three-way rule: ours where
  -- theirs is the base's, theirs where ours is the base's or theirs, and otherwise, where both sides
  -- changed it, theirs under the strategy `theirs` and ours under every other strategy.
  pub merge_snapshots-lookup :
      (strategy : MergeStrategy) (base into from merged : Snapshot) (conflicts : List ContextUri)
      (k : Text)
      → merge_snapshots ext strategy base into from ≡ ok (merged, conflicts)
      → lookup k merged ≡ merged_value strategy (lookup k base) (lookup k into) (lookup k from)
  unfolding merge_snapshots
  merge_snapshots-lookup strategy base into from merged conflicts k h =
      let uris = distinct (keys base ++ (keys from ++ keys into)) in
      merge_keys-lookup strategy base into from uris k into merged [] conflicts h
        (distinct-IsDistinct (keys base ++ (keys from ++ keys into)))
        (start_value strategy base into from)
