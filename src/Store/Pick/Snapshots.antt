-- ===== src/Store/Pick/Snapshots.antt =====
-- What a cherry-pick writes, key by key.
use uwu_context_db.Prelude.{
  ◌≡◌, ◌≢◌, ◌⊎◌, ap, sym, ◌∙◌, inl, inr, false, not, Bool, Option, List, [], ◌∷◌, ◌++◌, arith,
  nat_eq, list_eq, option_eq, if◌then◌else◌, Bool-cases, contains, contains-append, contains-keys,
  ok, Text, text_iff, opt_iff, filter_by, ◌&&◌, ◌==◌, keys, lookup, refl,
}
use uwu_context_db.Version.Model.{ConflictStrategy}
use uwu_context_db.Store.State.{Snapshot}
use uwu_context_db.Store.Merge.{distinct, put_value}
use uwu_context_db.Store.Merge.Snapshots.{contains-distinct, lookup-put_value}
use uwu_context_db.Store.Pick.{changed_uris, is_conflict, apply_uris, pick_snapshot, keeps_target}

-- The value that a pick leaves under a key.
abbrev pub picked_value : ConflictStrategy → Option Text → Option Text → Option Text → Option Text
picked_value strategy source base target =
    if source == base
    then target
    else if keeps_target strategy (not (target == base) && not (target == source))
    then target
    else source

-- The value that a pick with a strategy writes, where the pick changes the key.
contains-filter :
    (p : Text → Bool) (ks : List Text) (k : Text)
    → contains (filter_by p ks) k ≡ (contains ks k && p k)
unfolding contains
contains-filter p [] k = refl
contains-filter p (j ∷ ks) k = ground (arith, contains-filter p ks k, text_iff j k)

contains-changed :
    (source base : Snapshot) (k : Text)
    → contains (changed_uris source base) k ≡ not (lookup k source == lookup k base)
unfolding changed_uris
contains-changed source base k = ground (
  arith,
  contains-filter (λ u. not (lookup u source == lookup u base))
      (distinct (keys source ++ keys base)) k,
  contains-distinct (keys source ++ keys base) k,
  contains-append (keys source) (keys base) k,
  contains-keys k source,
  contains-keys k base,
)

apply_uris-lookup :
    (strategy : ConflictStrategy) (source base target : Snapshot) (us : List Text) (snap : Snapshot)
    (k : Text)
    → lookup k (apply_uris strategy source base target us snap) ≡ (
        if contains us k && not (keeps_target strategy (is_conflict source base target k))
        then lookup k source
        else lookup k snap)
unfolding apply_uris contains
apply_uris-lookup strategy source base target [] snap k = refl
apply_uris-lookup strategy source base target (u ∷ us) snap k =
    elim (Bool-cases (keeps_target strategy (is_conflict source base target u))) [
      | inl kept ↦
          ground
            (arith, kept, text_iff u k, apply_uris-lookup strategy source base target us snap k)
      | inr put ↦ ground (
        arith,
        put,
        text_iff u k,
        apply_uris-lookup strategy source base target us (put_value u (lookup u source) snap) k,
        lookup-put_value u k (lookup u source) snap,
      )
    ]

applied-lookup :
    (strategy : ConflictStrategy) (source base target : Snapshot) (k : Text)
    → lookup k (apply_uris strategy source base target (changed_uris source base) target)
      ≡ picked_value strategy (lookup k source) (lookup k base) (lookup k target)
unfolding is_conflict
applied-lookup strategy source base target k = ground (
  arith,
  apply_uris-lookup strategy source base target (changed_uris source base) target k,
  contains-changed source base k,
)

picked_apply :
    (what : Text) (strategy : ConflictStrategy) (source base target snap : Snapshot)
    → pick_snapshot what strategy source base target ≡ ok snap
    → apply_uris strategy source base target (changed_uris source base) target ≡ snap
unfolding pick_snapshot
picked_apply what ConflictStrategy.fail source base target snap h = ground arith
picked_apply what _ source base target snap h = ground arith

no_conflicts :
    (what : Text) (source base target snap : Snapshot)
    → pick_snapshot what ConflictStrategy.fail source base target ≡ ok snap
    → filter_by (is_conflict source base target) (changed_uris source base) ≡ []
unfolding pick_snapshot
no_conflicts what source base target snap h = ground arith

no_member : (ks : List Text) (k : Text) → ks ≡ [] → contains ks k ≡ false
unfolding contains
no_member ks k e = rw e refl

-- A cherry-pick that succeeds leaves under each key the target's value where the picked commit did
-- not change the key, the commit's value where it did, and with the strategy `ours` the target's value
-- where the target changed the key too, to another value.
pub pick_snapshot-lookup :
    (what : Text) (strategy : ConflictStrategy) (source base target snap : Snapshot) (k : Text)
    → pick_snapshot what strategy source base target ≡ ok snap
    → lookup k snap ≡ picked_value strategy (lookup k source) (lookup k base) (lookup k target)
unfolding pick_snapshot
pick_snapshot-lookup what strategy source base target snap k h =
    ap (lookup k) (sym (picked_apply what strategy source base target snap h))
    ∙ applied-lookup strategy source base target k

-- With the strategy `fail` a cherry-pick succeeds only where no key that the picked commit changed is
-- changed in the target to another value.
pub pick_snapshot-fail :
    (what : Text) (source base target snap : Snapshot) (k : Text)
    → pick_snapshot what ConflictStrategy.fail source base target ≡ ok snap
    → lookup k source ≢ lookup k base
    → (lookup k target ≡ lookup k base) ⊎ (lookup k target ≡ lookup k source)
unfolding pick_snapshot is_conflict
pick_snapshot-fail what source base target snap k h changed =
    let uris = changed_uris source base in
    let free =
      no_member (filter_by (is_conflict source base target) uris) k
        (no_conflicts what source base target snap h) in
    ground (
      arith,
      free,
      changed,
      contains-filter (is_conflict source base target) uris k,
      contains-changed source base k,
      opt_iff (lookup k source) (lookup k base),
      opt_iff (lookup k target) (lookup k base),
      opt_iff (lookup k target) (lookup k source),
    )
