-- ===== src/Memory/Entries/Versions.antt =====
-- The numbers of the stored versions, over calls of `write`, `delete`, `rename`, `rollback` and
-- `put_l2_blob`.
use uwu_context_db.Prelude.{
  ℕ, suc, ◌+◌, ◌≡◌, refl, arith, ◌⊎◌, inl, inr, Bool-cases, Option-cases, unwrap_or, List, [], ◌∷◌,
  ◌++◌, ◌==◌, nat_eq, list_eq, if◌then◌else◌, length, lookup, lookup-insert, lookup-remove, insert,
  remove, Result, ok, err, Text,
}
use uwu_context_db.Error.{ContextError}
use uwu_context_db.Uri.Types.{ContextUri}
use uwu_context_db.Uri.Ops.{as_str}
use uwu_context_db.Content.Types.{ContextEntry}
use uwu_context_db.Memory.Entries.{
  Store, new, versions_of, put_l2_blob, stamped, write, delete, rename, version_at, rollback,
}

Result-cases :
    (r : Result ContextError ContextEntry)
    → ((a : ContextEntry) × (r ≡ ok a)) ⊎ ((e : ContextError) × (r ≡ err e))
Result-cases (ok a) = inl (a, refl)
Result-cases (err e) = inr (e, refl)

abbrev pub IsNumbered : ℕ → List ContextEntry → Type 0
IsNumbered n [] = Unit
IsNumbered n (e ∷ es) = (e.mvcc_version ≡ n) × IsNumbered (suc n) es

abbrev pub IsVersioned : Store → Type 0
IsVersioned s = (key : Text) → IsNumbered 1 (versions_of s key)

IsNumbered-snoc :
    (n : ℕ) (es : List ContextEntry) (e : ContextEntry)
    → e.mvcc_version ≡ n + length es
    → IsNumbered n es
    → IsNumbered n (es ++ e ∷ [])
IsNumbered-snoc n [] e last h = (omega (arith, last), tt)
IsNumbered-snoc n (d ∷ es) e last h = (h.0, IsNumbered-snoc (suc n) es e (omega (arith, last)) h.1)

-- What is stored for an address after a change of another or of the same.
versions_of-insert :
    (s : Store) (key at : Text) (es : List ContextEntry)
    → unwrap_or [] (lookup at (insert key es s.entries))
      ≡ (if key == at then es else versions_of s at)
versions_of-insert s key at es = ground (arith, lookup-insert key at es s.entries)

insert-IsVersioned :
    (s : Store) (key : Text) (es : List ContextEntry)
    → IsVersioned s
    → IsNumbered 1 es
    → (at : Text) → IsNumbered 1 (unwrap_or [] (lookup at (insert key es s.entries)))
insert-IsVersioned s key es h numbered at = elim (Bool-cases (key == at)) [
  | inl same ↦ rw (versions_of-insert s key at es, same) numbered
  | inr other ↦ rw (versions_of-insert s key at es, other) (h at)
]

remove-IsVersioned :
    (s : Store) (key : Text)
    → IsVersioned s
    → (at : Text) → IsNumbered 1 (unwrap_or [] (lookup at (remove key s.entries)))
remove-IsVersioned s key h at = elim (Bool-cases (key == at)) [
  | inl same ↦ rw (lookup-remove key at s.entries, same) tt
  | inr other ↦ rw (lookup-remove key at s.entries, other) (h at)
]

rename-IsVersioned :
    (from to : ContextUri) (s : Store) → IsVersioned s → IsVersioned (rename from to s).1
unfolding rename
rename-IsVersioned from to s h = elim (Option-cases (lookup (as_str from) s.entries)) [
  | inl absent ↦ rw (rename, absent) h
  | inr (es, present) ↦
      let moved : Store = record s { entries = remove (as_str from) s.entries } in
      let held : IsNumbered 1 es = rw present at (h (as_str from)) in
      rw (rename, present)
        (insert-IsVersioned moved (as_str to) es (remove-IsVersioned s (as_str from) h) held)
]

rollback-IsVersioned :
    (uri : ContextUri) (to : ℕ) (s : Store) → IsVersioned s → IsVersioned (rollback uri to s).1
unfolding rollback
rollback-IsVersioned uri to s h = elim (Option-cases (lookup (as_str uri) s.entries)) [
  | inl absent ↦ rw (rollback, absent) h
  | inr (es, present) ↦ elim (Option-cases (version_at to es)) [
    | inl missing ↦ rw (rollback, present, missing) h
    | inr (target, hit) ↦
        let held : IsNumbered 1 es = rw present at (h (as_str uri)) in
        let restored : ContextEntry = record target { mvcc_version = length es + 1 } in
        rw (rollback, present, hit)
          (insert-IsVersioned s (as_str uri) (es ++ restored ∷ []) h
            (IsNumbered-snoc 1 es restored (omega arith) held))
  ]
]

-- One call that changes the store.
pub data Step (sanitize : ContextEntry → Result ContextError ContextEntry)
    : Store → Store → Type 0 where
  writes :
      {s : Store} (now : ℕ) (entry : ContextEntry) → Step sanitize s (write sanitize now entry s).1
  deletes : {s : Store} (uri : ContextUri) → Step sanitize s (delete uri s).1
  renames : {s : Store} (from to : ContextUri) → Step sanitize s (rename from to s).1
  rolls_back : {s : Store} (uri : ContextUri) (to : ℕ) → Step sanitize s (rollback uri to s).1
  puts_blob : {s : Store} (key : Text) (bytes : List ℕ) → Step sanitize s (put_l2_blob key bytes s)

-- The stores that calls lead to, from an empty one.
pub data Reach (sanitize : ContextEntry → Result ContextError ContextEntry) : Store → Type 0 where
  begins : Reach sanitize new
  goes_on : {s t : Store} → Reach sanitize s → Step sanitize s t → Reach sanitize t

module _ (sanitize : ContextEntry → Result ContextError ContextEntry) where
  write-IsVersioned :
      (now : ℕ) (entry : ContextEntry) (s : Store)
      → IsVersioned s
      → IsVersioned (write sanitize now entry s).1
  unfolding write
  write-IsVersioned now entry s h = elim (Result-cases (sanitize entry)) [
    | inl (clean, q) ↦
        let old = versions_of s (as_str clean.uri) in
        rw (write, q)
          (insert-IsVersioned s (as_str clean.uri) (old ++ stamped (length old + 1) now clean ∷ [])
            h
            (IsNumbered-snoc 1 old (stamped (length old + 1) now clean) (omega arith)
              (h (as_str clean.uri))))
    | inr (e, q) ↦ rw (write, q) h
  ]

  Step-IsVersioned : {s t : Store} → IsVersioned s → Step sanitize s t → IsVersioned t
  unfolding delete put_l2_blob
  Step-IsVersioned h (writes {s = s} now entry) = write-IsVersioned now entry s h
  Step-IsVersioned h (deletes {s = s} uri) = remove-IsVersioned s (as_str uri) h
  Step-IsVersioned h (renames {s = s} from to) = rename-IsVersioned from to s h
  Step-IsVersioned h (rolls_back {s = s} uri to) = rollback-IsVersioned uri to s h
  Step-IsVersioned h (puts_blob key bytes) = h

  -- After any calls of write, delete, rename, rollback and put_l2_blob, failed ones included, the
  -- versions of every address are numbered from 1 without a gap.
  pub Reach-IsVersioned : (s : Store) → Reach sanitize s → IsVersioned s
  unfolding lookup
  Reach-IsVersioned s begins = λ key. tt
  Reach-IsVersioned t (goes_on {s = s} before step) =
      Step-IsVersioned (Reach-IsVersioned s before) step
