-- ===== src/Watch/Watched.antt =====
-- `WatchableStore`: an inner store whose successful writes, deletes and renames the hub announces.
pub mod Announces
use uwu_context_db.Prelude.{ℕ, Option, none, some, List, [], ◌∷◌, Result, ok, err}
use uwu_context_db.Error.{ContextError}
use uwu_context_db.Uri.Types.{ContextUri}
use uwu_context_db.Content.Types.{ContextEntry}
use uwu_context_db.Watch.Event.{ChangeKind}
use uwu_context_db.Watch.Hub.{WatchHub, emit}

-- The operations of the trait that change a store of the type `σ`.
pub record ContentRepo (σ : Type 0) : Type 0 where
  pub write : ContextEntry → σ → Result ContextError ℕ × σ
  pub delete : ContextUri → σ → Result ContextError (Unit {0}) × σ
  pub rename : ContextUri → ContextUri → σ → Result ContextError (Unit {0}) × σ
  pub batch_write : List ContextEntry → σ → Result ContextError (List ℕ) × σ

-- The trait's `batch_write`, for a store that brings none: it stops at the first failure.
unfoldable pub default_batch_write :
    {σ : Type 0}
    → (ContextEntry → σ → Result ContextError ℕ × σ)
    → List ContextEntry
    → σ
    → Result ContextError (List ℕ) × σ
default_batch_write write [] s = (ok [], s)
default_batch_write write (e ∷ es) s =
    let (r, s1) = write e s in
    let (rest, s2) = default_batch_write write es s1 in
    elim r [
      | err x ↦ (err x, s1)
      | ok v ↦ elim rest [ err x ↦ (err x, s2) | ok vs ↦ (ok (v ∷ vs), s2) ]
    ]

pub record WatchableStore (σ : Type 0) : Type 0 where
  pub inner : σ
  pub hub : WatchHub

-- `clock n` is the time at which the event `n` is made, `live n` the receivers it reaches.
module _ (clock live : ℕ → ℕ) where
  abbrev pub announce : ChangeKind → ContextUri → Option ContextUri → Option ℕ → WatchHub → WatchHub
  announce kind uri to_uri version hub =
      (emit (clock hub.next) (live hub.next) kind uri to_uri version hub).1

  -- The loop over `entries.iter().zip(versions)`
  unfoldable pub announce_batch : List ContextEntry → List ℕ → WatchHub → WatchHub
  announce_batch [] vs hub = hub
  announce_batch (e ∷ es) [] hub = hub
  announce_batch (e ∷ es) (v ∷ vs) hub =
      announce_batch es vs (announce ChangeKind.write e.uri none (some v) hub)

  module _ {σ : Type 0} (repo : ContentRepo σ) where
    unfoldable pub write :
        ContextEntry → WatchableStore σ → Result ContextError ℕ × WatchableStore σ
    write entry s =
        let (r, t) = repo.write entry s.inner in
        elim r [
          | err x ↦ (err x, record { inner = t; hub = s.hub })
          | ok v ↦ (
            ok v,
            record { inner = t; hub = announce ChangeKind.write entry.uri none (some v) s.hub },
          )
        ]

    unfoldable pub delete :
        ContextUri → WatchableStore σ → Result ContextError (Unit {0}) × WatchableStore σ
    delete uri s =
        let (r, t) = repo.delete uri s.inner in
        elim r [
          | err x ↦ (err x, record { inner = t; hub = s.hub })
          | ok u ↦
              (ok u, record { inner = t; hub = announce ChangeKind.delete uri none none s.hub })
        ]

    unfoldable pub rename :
        ContextUri
        → ContextUri
        → WatchableStore σ
        → Result ContextError (Unit {0}) × WatchableStore σ
    rename from to s =
        let (r, t) = repo.rename from to s.inner in
        elim r [
          | err x ↦ (err x, record { inner = t; hub = s.hub })
          | ok u ↦ (
            ok u,
            record { inner = t; hub = announce ChangeKind.rename from (some to) none s.hub },
          )
        ]

    unfoldable pub batch_write :
        List ContextEntry → WatchableStore σ → Result ContextError (List ℕ) × WatchableStore σ
    batch_write entries s =
        let (r, t) = repo.batch_write entries s.inner in
        elim r [
          | err x ↦ (err x, record { inner = t; hub = s.hub })
          | ok vs ↦ (ok vs, record { inner = t; hub = announce_batch entries vs s.hub })
        ]
