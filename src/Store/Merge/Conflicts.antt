-- ===== src/Store/Merge/Conflicts.antt =====
-- The conflicts that a merge reports.
use uwu_context_db.Prelude.{
  ◌≡◌, ap, ◌∙◌, Bool, true, false, not, ◌&&◌, ◌||◌, Option, List, [], ◌∷◌, ◌++◌, arith, ◌==◌,
  nat_eq, list_eq, pair_eq, option_eq, contains, contains-append, keys, lookup, contains-keys,
  Result, ok, ◌>>=◌, bind-eq-ok, text_iff, Text,
}
use uwu_context_db.Error.{VersionError}
use uwu_context_db.Uri.Types.{ContextUri}
use uwu_context_db.Uri.Equality.{uri_eq}
use uwu_context_db.Uri.Ops.{as_str}
use uwu_context_db.Version.Model.{MergeStrategy}
use uwu_context_db.Store.State.{Snapshot, External}
use uwu_context_db.Uri.Laws.{parse-canonical}
use uwu_context_db.Store.Merge.{distinct, conflict_uri, merge_key, merge_keys, merge_snapshots}
use uwu_context_db.Store.Merge.Snapshots.{contains-distinct}

-- Only the strategies that favour no side report conflicts.
abbrev pub reports : MergeStrategy → Bool
reports MergeStrategy.ours = false
reports MergeStrategy.theirs = false
reports _ = true

-- Both sides changed the value, and not to the same.
abbrev pub both_changed : Option Text → Option Text → Option Text → Bool
both_changed base ours theirs = not (theirs == base) && (not (ours == base) && not (ours == theirs))

abbrev pub texts_of : List ContextUri → List Text
texts_of [] = []
texts_of (u ∷ us) = as_str u ∷ texts_of us

texts_of-snoc :
    (cs : List ContextUri) (u : ContextUri) (k : Text)
    → contains (texts_of (cs ++ u ∷ [])) k ≡ (contains (texts_of cs) k || as_str u == k)
unfolding contains
texts_of-snoc [] u k = ground arith
texts_of-snoc (c ∷ cs) u k = ground (arith, texts_of-snoc cs u k)

module _ (ext : External) where
  conflict_uri-canonical :
      (uri : Text) (u : ContextUri) → conflict_uri ext uri ≡ ok u → as_str u ≡ uri
  conflict_uri-canonical uri u h = ground (arith, parse-canonical ext.time uri u)

  conflict-step :
      (uri k : Text) (merged merged' : Snapshot) (cs cs' : List ContextUri)
      → ◌≡◌ {A = Result VersionError (Snapshot × List ContextUri)}
          (do u ← conflict_uri ext uri; ok (merged, cs ++ u ∷ []))
          (ok (merged', cs'))
      → contains (texts_of cs') k ≡ (contains (texts_of cs) k || uri == k)
  conflict-step uri k merged merged' cs cs' h =
      let (u, e, h') = bind-eq-ok (conflict_uri ext uri) _ h in
      let e' : cs ++ u ∷ [] ≡ cs' = ground arith in
      rw (← e') (
        texts_of-snoc cs u k
        ∙ ap (λ t. contains (texts_of cs) k || t == k) (conflict_uri-canonical uri u e))

  merge_key-conflicts :
      (strategy : MergeStrategy) (b o t : Option Text) (uri k : Text) (merged merged' : Snapshot)
      (cs cs' : List ContextUri)
      → merge_key ext strategy b o t uri merged cs ≡ ok (merged', cs')
      → contains (texts_of cs') k
        ≡ (contains (texts_of cs) k || (uri == k && (reports strategy && both_changed b o t)))
  unfolding merge_key
  merge_key-conflicts MergeStrategy.theirs b o t uri k merged merged' cs cs' h = ground arith
  merge_key-conflicts MergeStrategy.ours b o t uri k merged merged' cs cs' h = ground arith
  merge_key-conflicts _ b o t uri k merged merged' cs cs' h =
      ground (arith, conflict-step uri k merged merged' cs cs')

  merge_keys-conflicts :
      (strategy : MergeStrategy) (base into from : Snapshot) (uris : List Text) (k : Text)
      (merged merged' : Snapshot) (cs cs' : List ContextUri)
      → merge_keys ext strategy base into from uris merged cs ≡ ok (merged', cs')
      → contains (texts_of cs') k ≡ (
          contains (texts_of cs) k
          || (contains uris k
              && (reports strategy
                  && both_changed (lookup k base) (lookup k into) (lookup k from))))
  unfolding merge_keys contains
  merge_keys-conflicts strategy base into from [] k merged merged' cs cs' h = ground arith
  merge_keys-conflicts strategy base into from (uri ∷ uris) k merged merged' cs cs' h =
      let b = lookup uri base in
      let o = lookup uri into in
      let t = lookup uri from in
      let (p, e, h') = bind-eq-ok (merge_key ext strategy b o t uri merged cs) _ h in
      ground (
        arith,
        text_iff uri k,
        merge_key-conflicts strategy b o t uri k merged p.0 cs p.1 e,
        merge_keys-conflicts strategy base into from uris k p.0 merged' p.1 cs' h',
      )

  -- A merge of snapshots that succeeds reports exactly the URIs that both sides changed, to different
  -- values, and none under the strategies `ours` and `theirs`.
  pub merge_snapshots-conflicts :
      (strategy : MergeStrategy) (base into from merged : Snapshot) (conflicts : List ContextUri)
      (k : Text)
      → merge_snapshots ext strategy base into from ≡ ok (merged, conflicts)
      → contains (texts_of conflicts) k
        ≡ (reports strategy && both_changed (lookup k base) (lookup k into) (lookup k from))
  unfolding merge_snapshots contains
  merge_snapshots-conflicts strategy base into from merged conflicts k h =
      let all = keys base ++ (keys from ++ keys into) in
      ground (
        arith,
        merge_keys-conflicts strategy base into from (distinct all) k into merged [] conflicts h,
        contains-distinct all k,
        contains-append (keys base) (keys from ++ keys into) k,
        contains-append (keys from) (keys into) k,
        contains-keys k base,
        contains-keys k from,
        contains-keys k into,
      )
