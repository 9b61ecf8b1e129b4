-- ===== src/Watch/Watched/Announces.antt =====
-- A watched store against its inner store, and the events of its hub.
use uwu_context_db.Prelude.{
  ℕ, ◌≡◌, refl, ◌⊎◌, inl, inr, Option, none, some, List, [], ◌∷◌, ◌++◌, Result, ok, err,
}
use uwu_context_db.Error.{ContextError}
use uwu_context_db.Uri.Types.{ContextUri}
use uwu_context_db.Content.Types.{ContextEntry}
use uwu_context_db.Watch.Event.{ChangeKind, wrapping_succ}
use uwu_context_db.Watch.Hub.{WatchHub, emit}
use uwu_context_db.Watch.Hub.Retained.{Emission, emit_all}
use uwu_context_db.Watch.Watched.{
  ContentRepo, WatchableStore, write, delete, rename, batch_write, announce, announce_batch,
}

Result-cases {ℓ} :
    {A : Type ℓ} (r : Result ContextError A)
    → ((a : A) × (r ≡ ok a)) ⊎ ((e : ContextError) × (r ≡ err e))
Result-cases (ok a) = inl (a, refl)
Result-cases (err e) = inr (e, refl)

-- A change to a store, as a client asks for it.
pub data Request : Type 0 where
  writes : ContextEntry → Request
  deletes : ContextUri → Request
  renames : ContextUri → ContextUri → Request
  batches : List ContextEntry → Request

-- What is answered to it.
pub data Answer : Type 0 where
  version : Result ContextError ℕ → Answer
  done : Result ContextError (Unit {0}) → Answer
  versions : Result ContextError (List ℕ) → Answer

-- What changed: the kind, the address, the new address and the version.
pub record Change : Type 0 where
  pub kind : ChangeKind
  pub uri : ContextUri
  pub to_uri : Option ContextUri
  pub at : Option ℕ

abbrev pub changed_batch : List ContextEntry → List ℕ → List Change
changed_batch [] vs = []
changed_batch (e ∷ es) [] = []
changed_batch (e ∷ es) (v ∷ vs) =
    (record { kind = ChangeKind.write; uri = e.uri; to_uri = none; at = some v })
    ∷ changed_batch es vs

-- The changes that a request makes, by the answer to it: none if it fails.
abbrev pub changed : Request → Answer → List Change
changed (writes e) (version (ok v)) =
    (record { kind = ChangeKind.write; uri = e.uri; to_uri = none; at = some v }) ∷ []
changed (deletes u) (done (ok _)) =
    (record { kind = ChangeKind.delete; uri = u; to_uri = none; at = none }) ∷ []
changed (renames a b) (done (ok _)) =
    (record { kind = ChangeKind.rename; uri = a; to_uri = some b; at = none }) ∷ []
changed (batches es) (versions (ok vs)) = changed_batch es vs
changed _ _ = []

module _ {σ : Type 0} (repo : ContentRepo σ) where
  -- The answer of the inner store.
  unfoldable pub plain : Request → σ → Answer × σ
  plain (writes e) s = let (r, t) = repo.write e s in (version r, t)
  plain (deletes u) s = let (r, t) = repo.delete u s in (done r, t)
  plain (renames a b) s = let (r, t) = repo.rename a b s in (done r, t)
  plain (batches es) s = let (r, t) = repo.batch_write es s in (versions r, t)

  -- The answers to a run of requests, with the changes, and the store after it.
  unfoldable pub plain_run : List Request → σ → (List Answer × List Change) × σ
  plain_run [] s = (([], []), s)
  plain_run (q ∷ qs) s =
      let (a, t) = plain q s in
      let (rest, u) = plain_run qs t in ((a ∷ rest.0, changed q a ++ rest.1), u)

module _ (clock live : ℕ → ℕ) where
  -- The emissions of changes, numbered from `n`.
  unfoldable pub emissions : ℕ → List Change → List Emission
  emissions n [] = []
  emissions n (c ∷ cs) =
      (record {
        now = clock n;
        receivers = live n;
        kind = c.kind;
        uri = c.uri;
        to_uri = c.to_uri;
        version = c.at;
      })
      ∷ emissions (wrapping_succ n) cs

  emit_all-append :
      (cs ds : List Change) (hub : WatchHub)
      → emit_all (emissions hub.next (cs ++ ds)) hub
        ≡ (let mid = emit_all (emissions hub.next cs) hub in emit_all (emissions mid.next ds) mid)
  unfolding emissions emit_all emit
  emit_all-append [] ds hub = refl
  emit_all-append (c ∷ cs) ds hub =
      emit_all-append cs ds (announce clock live c.kind c.uri c.to_uri c.at hub)

  announce_batch-lem :
      (es : List ContextEntry) (vs : List ℕ) (hub : WatchHub)
      → announce_batch clock live es vs hub
        ≡ emit_all (emissions hub.next (changed_batch es vs)) hub
  unfolding announce_batch emissions emit_all emit
  announce_batch-lem [] vs hub = refl
  announce_batch-lem (e ∷ es) [] hub = refl
  announce_batch-lem (e ∷ es) (v ∷ vs) hub =
      announce_batch-lem es vs (announce clock live ChangeKind.write e.uri none (some v) hub)

  module _ {σ : Type 0} (repo : ContentRepo σ) where
    -- The answer of the watched store.
    unfoldable pub watched : Request → WatchableStore σ → Answer × WatchableStore σ
    watched (writes e) s = let (r, t) = write clock live repo e s in (version r, t)
    watched (deletes u) s = let (r, t) = delete clock live repo u s in (done r, t)
    watched (renames a b) s = let (r, t) = rename clock live repo a b s in (done r, t)
    watched (batches es) s = let (r, t) = batch_write clock live repo es s in (versions r, t)

    -- The answers to a run of requests, and the store after it.
    unfoldable pub watched_run : List Request → WatchableStore σ → List Answer × WatchableStore σ
    watched_run [] s = ([], s)
    watched_run (q ∷ qs) s =
        let (a, t) = watched q s in let (rest, u) = watched_run qs t in (a ∷ rest, u)

    -- One request.
    abbrev pub announced : σ → WatchHub → List Change → WatchableStore σ
    announced t hub cs = record { inner = t; hub = emit_all (emissions hub.next cs) hub }

    watched-plain :
        (q : Request) (s : WatchableStore σ)
        → watched q s ≡ (
          (plain repo q s.inner).0,
          announced (plain repo q s.inner).1 s.hub (changed q (plain repo q s.inner).0),
        )
    unfolding watched plain write delete rename batch_write emissions emit_all emit
    watched-plain (writes e) s = elim (Result-cases (repo.write e s.inner).0) [
      | inl (v, q) ↦ rw (write, q) refl
      | inr (x, q) ↦ rw (write, q) refl
    ]
    watched-plain (deletes u) s = elim (Result-cases (repo.delete u s.inner).0) [
      | inl (v, q) ↦ rw (delete, q) refl
      | inr (x, q) ↦ rw (delete, q) refl
    ]
    watched-plain (renames a b) s = elim (Result-cases (repo.rename a b s.inner).0) [
      | inl (v, q) ↦ rw (rename, q) refl
      | inr (x, q) ↦ rw (rename, q) refl
    ]
    watched-plain (batches es) s = elim (Result-cases (repo.batch_write es s.inner).0) [
      | inl (vs, q) ↦ rw (batch_write, q, announce_batch-lem es vs s.hub) refl
      | inr (x, q) ↦ rw (batch_write, q) refl
    ]

    -- A run of requests on a watched store answers as on the inner store and leaves the inner store
    -- the same, and its hub has emitted the changes that the inner store made, in their order: one
    -- for each successful write, delete and rename and for each entry of a successful batch, none
    -- for a failure.
    pub watched_run-plain_run :
        (qs : List Request) (s : WatchableStore σ)
        → watched_run qs s ≡ (
          (plain_run repo qs s.inner).0.0,
          announced (plain_run repo qs s.inner).1 s.hub (plain_run repo qs s.inner).0.1,
        )
    unfolding watched_run plain_run emissions emit_all
    watched_run-plain_run [] s = refl
    watched_run-plain_run (q ∷ qs) s =
        let t = announced (plain repo q s.inner).1 s.hub (changed q (plain repo q s.inner).0) in
        let rest = watched_run-plain_run qs t in
        rw
          (
            watched-plain q s,
            rest,
            emit_all-append (changed q (plain repo q s.inner).0)
                (plain_run repo qs (plain repo q s.inner).1).0.1 s.hub,
          )
          refl
