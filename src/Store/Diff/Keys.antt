-- ===== src/Store/Diff/Keys.antt =====
-- Which addresses a difference of commits lists.
use uwu_context_db.Prelude.{
  ◌≡◌, ◌⊎◌, refl, inl, inr, true, false, not, Bool, List, [], ◌∷◌, arith, nat_eq, list_eq, contains,
  contains_key, contains-keys, keys, ok, err, Result, Text, text_iff, ◌&&◌,
}
use uwu_context_db.Error.{ContextError}
use uwu_context_db.Uri.Types.{ContextUri}
use uwu_context_db.Uri.Parse.{parse}
use uwu_context_db.Uri.Laws.{parse-canonical}
use uwu_context_db.Version.Model.{CommitId}
use uwu_context_db.Store.State.{Store, External, Snapshot, snapshot_of}
use uwu_context_db.Store.Merge.Conflicts.{texts_of}
use uwu_context_db.Store.Diff.{diff_commits, keys_where, parsed, absent}

abbrev pub is_ok : Result ContextError ContextUri → Bool
is_ok (ok u) = true
is_ok (err e) = false

Result-cases :
    (r : Result ContextError ContextUri)
    → ((u : ContextUri) × (r ≡ ok u)) ⊎ ((e : ContextError) × (r ≡ err e))
Result-cases (ok u) = inl (u, refl)
Result-cases (err e) = inr (e, refl)

module _ (ext : External) where
  -- A key that is an address.
  abbrev pub parses : Text → Bool
  parses k = is_ok (parse ext.time k)

  contains-parsed :
      (ts : List Text) (k : Text)
      → contains (texts_of (parsed ext ts)) k ≡ (contains ts k && parses k)
  unfolding parsed contains
  contains-parsed [] k = refl
  contains-parsed (t ∷ ts) k = elim (Result-cases (parse ext.time t)) [
    | inl (u, read) ↦
        rw (read, parsed)
          (ground
            (arith, read, parse-canonical ext.time t u read, text_iff t k, contains-parsed ts k))
    | inr (e, failed) ↦
        rw (failed, parsed) (ground (arith, failed, text_iff t k, contains-parsed ts k))
  ]

  contains-absent :
      (a b : Snapshot) (k : Text)
      → contains (keys_where ext (absent ext) a b) k
        ≡ (contains (keys b) k && not (contains_key k a))
  unfolding keys_where contains
  contains-absent a [] k = refl
  contains-absent a ((j, v) ∷ b) k = ground (arith, text_iff j k, contains-absent a b k)

  -- A difference lists as added exactly the addresses that the second snapshot has and the first has
  -- not, and as deleted exactly those that the first has and the second has not; a key that is no
  -- address is in neither.
  pub diff_commits-keys :
      (a b : CommitId) (s : Store) (k : Text)
      → (contains (texts_of (diff_commits ext a b s).adds) k ≡ (
          contains_key k (snapshot_of s b) && (not (contains_key k (snapshot_of s a)) && parses k)))
        × (contains (texts_of (diff_commits ext a b s).deletes) k ≡ (
            contains_key k (snapshot_of s a)
            && (not (contains_key k (snapshot_of s b)) && parses k)))
  unfolding diff_commits
  diff_commits-keys a b s k =
      let map_a = snapshot_of s a in
      let map_b = snapshot_of s b in
      (
        ground (
          arith,
          contains-parsed (keys_where ext (absent ext) map_a map_b) k,
          contains-absent map_a map_b k,
          contains-keys k map_b,
        ),
        ground (
          arith,
          contains-parsed (keys_where ext (absent ext) map_b map_a) k,
          contains-absent map_b map_a k,
          contains-keys k map_a,
        ),
      )
