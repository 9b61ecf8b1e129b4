-- ===== src/Memory/Entries/Reads.antt =====
-- What `read` and `rollback` answer after the other calls.
use uwu_context_db.Prelude.{
  ℕ, zero, suc, ◌+◌, ◌≡◌, refl, ap, ◌∙◌, arith, inl, inr, Option, none, some, Option-cases, List,
  [], ◌∷◌, ◌++◌, ◌==◌, nat_beq_iff, nat_eq, list_eq, if◌then◌else◌, length, length-append, last?,
  get_elem?, lookup, lookup-insert, lookup-insert_self, lookup-remove, insert, remove, ok, Text,
}
use uwu_context_db.Uri.Types.{ContextUri, ContentLevel, l0, l1, l2}
use uwu_context_db.Uri.Ops.{as_str}
use uwu_context_db.Content.Types.{ContextEntry, ContentPayload, l0_text}
use uwu_context_db.Memory.Entries.{
  Store, versions_of, latest, rename, version_at, rollback, read, dense_text, full_payload,
}
use uwu_context_db.Memory.Entries.Versions.{IsNumbered, IsVersioned}

last?-snoc : (es : List ContextEntry) (e : ContextEntry) → last? (es ++ e ∷ []) ≡ some e
last?-snoc [] e = refl
last?-snoc (d ∷ []) e = refl
last?-snoc (d ∷ b ∷ es) e = last?-snoc (b ∷ es) e

-- What `read` makes of an entry.
abbrev pub view :
    (List ℕ → Option Text) → ContentLevel → Option (List ℕ) → ContextEntry → ContentPayload
view from_utf8 l0 blob e = ContentPayload.text (l0_text e) (dense_text e.payload) (l0_text e)
view from_utf8 l1 blob e = ContentPayload.text (l0_text e) (dense_text e.payload) (l0_text e)
view from_utf8 l2 blob e = full_payload from_utf8 blob e

read-latest :
    (from_utf8 : List ℕ → Option Text) (uri : ContextUri) (level : ContentLevel) (s : Store)
    (e : ContextEntry)
    → latest s (as_str uri) ≡ some e
    → read from_utf8 uri level s ≡ ok (view from_utf8 level (lookup (as_str uri) s.l2_blobs) e)
unfolding read
read-latest from_utf8 uri l0 s e h = rw (read, h) refl
read-latest from_utf8 uri l1 s e h = rw (read, h) refl
read-latest from_utf8 uri l2 s e h = rw (read, h) refl

-- A view is of the payload, whatever number and time the entry has.
full_payload-payload :
    (from_utf8 : List ℕ → Option Text) (blob : Option (List ℕ)) (d e : ContextEntry)
    → d.payload ≡ e.payload
    → full_payload from_utf8 blob d ≡ full_payload from_utf8 blob e
full_payload-payload from_utf8 none d e same = rw same refl
full_payload-payload from_utf8 (some []) d e same = rw same refl
full_payload-payload from_utf8 (some (b ∷ bytes)) d e same = rw same refl

view-payload :
    (from_utf8 : List ℕ → Option Text) (level : ContentLevel) (blob : Option (List ℕ))
    (d e : ContextEntry)
    → d.payload ≡ e.payload
    → view from_utf8 level blob d ≡ view from_utf8 level blob e
view-payload from_utf8 l0 blob d e same = rw same refl
view-payload from_utf8 l1 blob d e same = rw same refl
view-payload from_utf8 l2 blob d e same = full_payload-payload from_utf8 blob d e same

latest-insert :
    (s : Store) (key : Text) (es : List ContextEntry) (e : ContextEntry)
    → latest (record s { entries = insert key (es ++ e ∷ []) s.entries }) key ≡ some e
latest-insert s key es e = rw (lookup-insert_self key (es ++ e ∷ []) s.entries) (last?-snoc es e)

version_at-get :
    (n i : ℕ) (es : List ContextEntry) (e : ContextEntry)
    → IsNumbered n es
    → get_elem? es i ≡ some e
    → version_at (n + i) es ≡ some e
unfolding version_at
version_at-get n i [] e h got = absurd (ground (arith, got))
version_at-get n zero (d ∷ es) e h got =
    ground (arith, got, nat_beq_iff d.mvcc_version (n + 0), h.0)
version_at-get n (suc i) (d ∷ es) e h got =
    let next : suc n + i ≡ n + suc i = omega arith in
    let rest : version_at (n + suc i) es ≡ some e =
      rw (← next) (version_at-get (suc n) i es e h.1 got) in
    ground (arith, rest, nat_beq_iff d.mvcc_version (n + suc i), h.0)

module _ (from_utf8 : List ℕ → Option Text) where
  -- In a store where the versions of every address are numbered from 1 without a gap, a rollback to a
  -- version that is stored succeeds, adds one version, and a read then gives what a read makes of that
  -- version: its payload, but at L2, where bytes that are not empty were put in for the address, with
  -- these bytes as the full text.
  pub read-rollback :
      (uri : ContextUri) (i : ℕ) (e : ContextEntry) (level : ContentLevel) (s : Store)
      → IsVersioned s
      → get_elem? (versions_of s (as_str uri)) i ≡ some e
      → ((rollback uri (1 + i) s).0 ≡ ok tt)
        × (length (versions_of (rollback uri (1 + i) s).1 (as_str uri))
            ≡ length (versions_of s (as_str uri)) + 1)
        × (read from_utf8 uri level (rollback uri (1 + i) s).1
            ≡ ok (view from_utf8 level (lookup (as_str uri) s.l2_blobs) e))
  unfolding rollback
  read-rollback uri i e level s h got = elim (Option-cases (lookup (as_str uri) s.entries)) [
    | inl absent ↦ absurd (ground (arith, got, absent))
    | inr (es, present) ↦
        let key = as_str uri in
        let held : versions_of s key ≡ es = rw present refl in
        let hit = version_at-get 1 i es e (rw held at (h key)) (rw held at got) in
        let restored : ContextEntry = record e { mvcc_version = length es + 1 } in
        let t : Store = record s { entries = insert key (es ++ restored ∷ []) s.entries } in
        let done : rollback uri (1 + i) s ≡ (ok tt, t) = rw (rollback, present, hit) refl in
        let longer : length (versions_of t key) ≡ length (versions_of s key) + 1 =
          rw (held, lookup-insert_self key (es ++ restored ∷ []) s.entries)
            (length-append es (restored ∷ [])) in
        (
          ap (λ r. r.0) done,
          ap (λ r. length (versions_of r.1 key)) done ∙ longer,
          ap (λ r. read from_utf8 uri level r.1) done
              ∙ (read-latest from_utf8 uri level t restored (latest-insert s key es restored)
                  ∙ ap ok (view-payload from_utf8 level (lookup key s.l2_blobs) restored e refl)),
        )
  ]

-- A rename that succeeds moves all versions of an address, replaces those of the new address, and
-- leaves the other addresses as they are.
pub rename-versions :
    (from to : ContextUri) (es : List ContextEntry) (s : Store)
    → lookup (as_str from) s.entries ≡ some es
    → ((rename from to s).0 ≡ ok tt)
      × ((key : Text)
          → versions_of (rename from to s).1 key ≡ (
              if as_str to == key
              then es
              else if as_str from == key
              then []
              else versions_of s key))
unfolding rename
rename-versions from to es s h =
    let t : Store = record s { entries = insert (as_str to) es (remove (as_str from) s.entries) } in
    let done : rename from to s ≡ (ok tt, t) = rw (rename, h) refl in
    (
      ap (λ r. r.0) done,
      λ key.
          ap (λ r. versions_of r.1 key) done
          ∙ ground (
            arith,
            lookup-insert (as_str to) key es (remove (as_str from) s.entries),
            lookup-remove (as_str from) key s.entries,
          ),
    )
