-- ===== src/Store/Read/Written.antt =====
-- What a commit writes, read at it.
use uwu_context_db.Prelude.{
  bind-eq-ok, ℕ, ◌≡◌, ◌∙◌, refl, sym, ap, ◌>>=◌, false, ◌==◌, ◌++◌, map, contains, contains-append,
  inl, inr, Option-cases, lookup, insert, remove, lookup-insert, lookup-remove, some, List, [], ◌∷◌,
  arith, nat_eq, list_eq, pair_eq, Text, lookup-insert_self, ok,
}
use uwu_context_db.Uri.Types.{ContextUri, ContentLevel}
use uwu_context_db.Uri.Ops.{as_str}
use uwu_context_db.Content.Types.{ContextEntry}
use uwu_context_db.Version.Model.{CommitId, CommitMeta, ChangeSet, VersionRef, UriChange, RenameOp}
use uwu_context_db.Store.State.{
  Store, External, Snapshot, on_ok-result, snapshot_of, snapshot_of_opt, head,
}
use uwu_context_db.Store.Commit.{
  commit, plan_commit, apply_changes, apply_adds, apply_deletes, apply_updates, apply_renames,
  rename,
}
use uwu_context_db.Store.Read.{read_at, resolve_ref, read_commit, at_level}

module _ (ext : External) where
  -- A commit that succeeds stores the changed snapshot of HEAD and moves HEAD of its scope to itself.
  pub commit-snapshot :
      (s s' : Store) (id : CommitId) (now : ℕ) (scope : ContextUri) (changes : ChangeSet)
      (meta : CommitMeta)
      → commit ext id now scope changes meta s ≡ (ok id, s')
      → (apply_changes ext changes (snapshot_of_opt s (head s (as_str scope)))
          ≡ ok (snapshot_of s' id))
        × (head s' (as_str scope) ≡ some id)
  unfolding commit plan_commit
  commit-snapshot s s' id now scope changes meta done =
      let (plan, planned, e) = on_ok-result s (plan_commit ext id scope changes s) _ done in
      (
        ground (arith, lookup-insert_self id plan.0 s.entry_snapshots),
        ground (arith, lookup-insert_self (as_str scope) id s.heads),
      )

  -- The addresses that a change set writes or removes after its additions.
  abbrev pub changed_later : ChangeSet → List Text
  changed_later changes =
      map (λ (u : UriChange). as_str u.uri) changes.updates
      ++ (map as_str changes.deletes
          ++ (map (λ (r : RenameOp). as_str r.from) changes.renames
              ++ map (λ (r : RenameOp). as_str r.to) changes.renames))

  abbrev pub keys_added : List ContextEntry → List Text
  keys_added = map (λ (e : ContextEntry). as_str e.uri)

  -- What no change names stays in the snapshot.
  apply_adds-other :
      (key : Text) (es : List ContextEntry) (snap snap' : Snapshot)
      → contains (keys_added es) key ≡ false
      → apply_adds ext es snap ≡ ok snap'
      → lookup key snap' ≡ lookup key snap
  unfolding apply_adds contains
  apply_adds-other key [] snap snap' free done = ground arith
  apply_adds-other key (d ∷ es) snap snap' free done = elim (Option-cases (ext.to_json d)) [
    | inl fails ↦ absurd (ground (arith, fails, done))
    | inr (json, printed) ↦
        let next = insert (as_str d.uri) json snap in
        let done' : apply_adds ext es next ≡ ok snap' = ground (arith, printed, done) in
        apply_adds-other key es next snap' (ground (arith, free)) done'
        ∙ ground (arith, lookup-insert (as_str d.uri) key json snap, free)
  ]

  apply_adds-last :
      (e : ContextEntry) (json : Text) (before after : List ContextEntry) (snap snap' : Snapshot)
      → ext.to_json e ≡ some json
      → contains (keys_added after) (as_str e.uri) ≡ false
      → apply_adds ext (before ++ e ∷ after) snap ≡ ok snap'
      → lookup (as_str e.uri) snap' ≡ some json
  unfolding apply_adds
  apply_adds-last e json [] after snap snap' printed free done =
      let next = insert (as_str e.uri) json snap in
      let done' : apply_adds ext after next ≡ ok snap' = ground (arith, printed, done) in
      apply_adds-other (as_str e.uri) after next snap' free done'
      ∙ lookup-insert_self (as_str e.uri) json snap
  apply_adds-last e json (d ∷ before) after snap snap' printed free done =
      elim (Option-cases (ext.to_json d)) [
        | inl fails ↦ absurd (ground (arith, fails, done))
        | inr (text_d, printed_d) ↦
            let next = insert (as_str d.uri) text_d snap in
            apply_adds-last e json before after next snap' printed free
              (ground (arith, printed_d, done))
      ]

  apply_updates-other :
      (key : Text) (us : List UriChange) (snap snap' : Snapshot)
      → contains (map (λ (u : UriChange). as_str u.uri) us) key ≡ false
      → apply_updates ext us snap ≡ ok snap'
      → lookup key snap' ≡ lookup key snap
  unfolding apply_updates contains
  apply_updates-other key [] snap snap' free done = ground arith
  apply_updates-other key (u ∷ us) snap snap' free done =
      elim (Option-cases (ext.to_json u.entry)) [
        | inl fails ↦ absurd (ground (arith, fails, done))
        | inr (json, printed) ↦
            let next = insert (as_str u.uri) json snap in
            let done' : apply_updates ext us next ≡ ok snap' = ground (arith, printed, done) in
            apply_updates-other key us next snap' (ground (arith, free)) done'
            ∙ ground (arith, lookup-insert (as_str u.uri) key json snap, free)
      ]

  apply_deletes-other :
      (key : Text) (ds : List ContextUri) (snap : Snapshot)
      → contains (map as_str ds) key ≡ false
      → lookup key (apply_deletes ds snap) ≡ lookup key snap
  unfolding apply_deletes contains
  apply_deletes-other key [] snap free = refl
  apply_deletes-other key (d ∷ ds) snap free =
      apply_deletes-other key ds (remove (as_str d) snap) (ground (arith, free))
      ∙ ground (arith, lookup-remove (as_str d) key snap, free)

  rename-other :
      (key : Text) (r : RenameOp) (snap : Snapshot)
      → (as_str r.from == key) ≡ false
      → (as_str r.to == key) ≡ false
      → lookup key (rename r snap) ≡ lookup key snap
  unfolding rename
  rename-other key r snap from to = elim (Option-cases (lookup (as_str r.from) snap)) [
    | inl absent ↦
        rw (absent, rename) (ground (arith, lookup-remove (as_str r.from) key snap, from))
    | inr (v, present) ↦
        rw (present, rename)
          (ground (
            arith,
            lookup-insert (as_str r.to) key v (remove (as_str r.from) snap),
            lookup-remove (as_str r.from) key snap,
            from,
            to,
          ))
  ]

  apply_renames-other :
      (key : Text) (rs : List RenameOp) (snap : Snapshot)
      → contains (map (λ (r : RenameOp). as_str r.from) rs) key ≡ false
      → contains (map (λ (r : RenameOp). as_str r.to) rs) key ≡ false
      → lookup key (apply_renames rs snap) ≡ lookup key snap
  unfolding apply_renames contains
  apply_renames-other key [] snap from to = refl
  apply_renames-other key (r ∷ rs) snap from to =
      apply_renames-other key rs (rename r snap) (ground (arith, from)) (ground (arith, to))
      ∙ rename-other key r snap (ground (arith, from)) (ground (arith, to))

  not-changed_later :
      (changes : ChangeSet) (key : Text)
      → contains (changed_later changes) key ≡ false
      → (contains (map (λ (u : UriChange). as_str u.uri) changes.updates) key ≡ false)
        × (contains (map as_str changes.deletes) key ≡ false)
        × (contains (map (λ (r : RenameOp). as_str r.from) changes.renames) key ≡ false)
        × (contains (map (λ (r : RenameOp). as_str r.to) changes.renames) key ≡ false)
  not-changed_later changes key free =
      let updated = map (λ (u : UriChange). as_str u.uri) changes.updates in
      let deleted = map as_str changes.deletes in
      let from = map (λ (r : RenameOp). as_str r.from) changes.renames in
      let to = map (λ (r : RenameOp). as_str r.to) changes.renames in
      ground (
        arith,
        free,
        contains-append updated (deleted ++ (from ++ to)) key,
        contains-append deleted (from ++ to) key,
        contains-append from to key,
      )

  -- The last addition of an address that nothing else changes is what the changed snapshot has.
  apply_changes-added :
      (e : ContextEntry) (json : Text) (before after : List ContextEntry) (changes : ChangeSet)
      (snap snap' : Snapshot)
      → changes.adds ≡ before ++ e ∷ after
      → contains (keys_added after) (as_str e.uri) ≡ false
      → contains (changed_later changes) (as_str e.uri) ≡ false
      → ext.to_json e ≡ some json
      → apply_changes ext changes snap ≡ ok snap'
      → lookup (as_str e.uri) snap' ≡ some json
  unfolding apply_changes
  apply_changes-added e json before after changes snap snap' here last free printed done =
      let key = as_str e.uri in
      let (kept, deleted, from, to) = not-changed_later changes key free in
      let end : Snapshot → Snapshot =
        λ updated. apply_renames changes.renames (apply_deletes changes.deletes updated) in
      let (a, adds, rest) =
        bind-eq-ok (apply_adds ext changes.adds snap)
          (λ added. apply_updates ext changes.updates added >>= (λ updated. ok (end updated)))
          done in
      let (b, updates, last_step) =
        bind-eq-ok (apply_updates ext changes.updates a) (λ updated. ok (end updated)) rest in
      let whole : end b ≡ snap' = ground (arith, last_step) in
      let added = apply_adds-last e json before after snap a printed last (rw (← here) adds) in
      ap (lookup key) (sym whole)
      ∙ apply_renames-other key changes.renames (apply_deletes changes.deletes b) from to
      ∙ apply_deletes-other key changes.deletes b deleted
      ∙ apply_updates-other key changes.updates a b kept updates
      ∙ added

  -- An entry that a commit adds, at an address that no later addition of the commit and none of its
  -- updates, deletes and renames names, is read back at the commit, at every level, where the reader
  -- of other libraries inverts their printer on it.
  pub read_at-commit :
      (s s' : Store) (id : CommitId) (now : ℕ) (scope : ContextUri) (changes : ChangeSet)
      (e : ContextEntry) (before after : List ContextEntry) (meta : CommitMeta) (json : Text)
      (level : ContentLevel)
      → changes.adds ≡ before ++ e ∷ after
      → contains (keys_added after) (as_str e.uri) ≡ false
      → contains (changed_later changes) (as_str e.uri) ≡ false
      → commit ext id now scope changes meta s ≡ (ok id, s')
      → ext.to_json e ≡ some json
      → ext.from_json json ≡ some e
      → read_at ext e.uri (VersionRef.commit id) level s' ≡ ok (at_level level e)
  unfolding read_at resolve_ref read_commit
  read_at-commit s s' id now scope changes e before after meta json level here last free done
        printed parsed =
      let (applied, moved) = commit-snapshot s s' id now scope changes meta done in
      let old = snapshot_of_opt s (head s (as_str scope)) in
      let found =
        apply_changes-added e json before after changes old (snapshot_of s' id) here last free
          printed applied in
      ground (arith, found, parsed)
