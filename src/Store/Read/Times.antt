-- ===== src/Store/Read/Times.antt =====
-- Which commit `asof_read` reads for a point in time.
use uwu_context_db.Prelude.{
  ℕ, ◌≡◌, ◌≤◌, ◌<◌, ◌⊎◌, refl, inl, inr, true, Option, none, some, [], ◌∷◌, arith, nat_eq, list_eq,
  pair_eq, err, text, ◌++◌, Option-cases, Bool-cases, Map, leb, ltb, ◌&&◌,
}
use uwu_context_db.Version.Model.{CommitId, Commit, VersionRef, AsOfTime}
use uwu_context_db.Uri.Types.{ContextUri, ContentLevel}
use uwu_context_db.Error.{VersionError}
use uwu_context_db.Store.State.{Store, External}
use uwu_context_db.Store.Read.{last_before, newer, asof_read, read_at}

-- A commit stands in the map under an id.
pub data Stands (id : CommitId) (c : Commit) : Map CommitId Commit → Type 0 where
  first : {m : Map CommitId Commit} → Stands id c ((id, c) ∷ m)
  next : {e : CommitId × Commit} {m : Map CommitId Commit} → Stands id c m → Stands id c (e ∷ m)

-- The best so far is not after `ts`.
abbrev IsBefore : ℕ → Option (ℕ × CommitId) → Type 0
IsBefore ts none = Unit
IsBefore ts (some (t, id)) = t ≤ ts

-- A best that is there and at least `t`.
abbrev Reaches : ℕ → Option (ℕ × CommitId) → Type 0
Reaches t none = ⊥
Reaches t (some (u, id)) = t ≤ u

module _ (ext : External) (ts : ℕ) where
  newer-IsBefore :
      (best : Option (ℕ × CommitId)) (e : CommitId × Commit)
      → IsBefore ts best
      → IsBefore ts (newer ext ts best e)
  newer-IsBefore none (id, c) b = elim (Bool-cases (leb c.timestamp ts)) [
    | inl early ↦ rw early (ground arith)
    | inr late ↦ rw late tt
  ]
  newer-IsBefore (some (t, best)) (id, c) b =
      elim (Bool-cases (leb c.timestamp ts && ltb t c.timestamp)) [
        | inl better ↦ rw better (ground arith)
        | inr other ↦ rw other b
      ]

  newer-Reaches :
      (best : Option (ℕ × CommitId)) (e : CommitId × Commit) (t : ℕ)
      → Reaches t best
      → Reaches t (newer ext ts best e)
  newer-Reaches none e t r = elim r [ ]
  newer-Reaches (some (u, best)) (id, c) t r =
      elim (Bool-cases (leb c.timestamp ts && ltb u c.timestamp)) [
        | inl better ↦ rw better (ground arith)
        | inr other ↦ rw other r
      ]

  newer-own :
      (best : Option (ℕ × CommitId)) (id : CommitId) (c : Commit)
      → c.timestamp ≤ ts
      → Reaches c.timestamp (newer ext ts best (id, c))
  newer-own none id c h =
      let early : leb c.timestamp ts ≡ true = ground arith in rw early (ground arith)
  newer-own (some (t, best)) id c h = elim (Bool-cases (leb c.timestamp ts && ltb t c.timestamp)) [
    | inl better ↦ rw better (ground arith)
    | inr other ↦ rw other (ground arith)
  ]

  last-IsBefore :
      (m : Map CommitId Commit) (best : Option (ℕ × CommitId))
      → IsBefore ts best
      → IsBefore ts (last_before ext ts m best)
  unfolding last_before
  last-IsBefore [] best b = b
  last-IsBefore (e ∷ m) best b = last-IsBefore m (newer ext ts best e) (newer-IsBefore best e b)

  last-Reaches :
      (m : Map CommitId Commit) (best : Option (ℕ × CommitId)) (t : ℕ)
      → Reaches t best
      → Reaches t (last_before ext ts m best)
  unfolding last_before
  last-Reaches [] best t r = r
  last-Reaches (e ∷ m) best t r = last-Reaches m (newer ext ts best e) t (newer-Reaches best e t r)

  last-newest :
      (m : Map CommitId Commit) (best : Option (ℕ × CommitId)) (id : CommitId) (c : Commit)
      → Stands id c m
      → c.timestamp ≤ ts
      → Reaches c.timestamp (last_before ext ts m best)
  unfolding last_before
  last-newest [] best id c stands h = elim stands [ ]
  last-newest (_ ∷ m) best id c first h =
      last-Reaches m (newer ext ts best (id, c)) c.timestamp (newer-own best id c h)
  last-newest (e ∷ m) best id c (next r) h = last-newest m (newer ext ts best e) id c r h

-- The commit stands in the map, at that time.
abbrev StandsAt : Map CommitId Commit → ℕ → CommitId → Type 0
StandsAt m t id = (c : Commit) × Stands id c m × (c.timestamp ≡ t)

module _ (ext : External) (ts : ℕ) where
  newer-origin :
      (best : Option (ℕ × CommitId)) (id : CommitId) (c : Commit) (t : ℕ) (got : CommitId)
      → newer ext ts best (id, c) ≡ some (t, got)
      → (best ≡ some (t, got)) ⊎ ((id ≡ got) × (c.timestamp ≡ t))
  newer-origin none id c t got h = ground arith
  newer-origin (some (u, best)) id c t got h = ground arith

  last-origin :
      (m : Map CommitId Commit) (best : Option (ℕ × CommitId)) (t : ℕ) (got : CommitId)
      → last_before ext ts m best ≡ some (t, got)
      → (best ≡ some (t, got)) ⊎ StandsAt m t got
  unfolding last_before
  last-origin [] best t got h = inl h
  last-origin ((id, c) ∷ m) best t got h =
      elim (last-origin m (newer ext ts best (id, c)) t got h) [
        | inl chosen ↦ elim (newer-origin best id c t got chosen) [
          | inl before ↦ inl before
          | inr (same, at) ↦ inr (rw (← same) (c, first, at))
        ]
        | inr (d, stands, at) ↦ inr (d, next stands, at)
      ]

  -- Where nothing is chosen, every commit is later.
  none-late :
      (m : Map CommitId Commit) (j : CommitId) (c : Commit)
      → last_before ext ts m none ≡ none
      → Stands j c m
      → ts < c.timestamp
  none-late m j c nothing sd = elim (Bool-cases (leb c.timestamp ts)) [
    | inl early ↦
        let r = last-newest ext ts m none j c sd (ground arith) in
        let impossible : ⊥ = rw nothing at r in elim impossible [ ]
    | inr late ↦ ground arith
  ]

  -- What a read at a time is.
  pub record IsReadAt (uri : ContextUri) (level : ContentLevel) (s : Store) : Type 0 where
    pub id : CommitId
    pub commit : Commit
    pub stands : Stands id commit s.commits
    pub in_time : commit.timestamp ≤ ts
    pub newest :
        (j : CommitId) (c : Commit)
        → Stands j c s.commits
        → c.timestamp ≤ ts
        → c.timestamp ≤ commit.timestamp
    pub reads :
        asof_read ext uri (AsOfTime.timestamp ts) level s
        ≡ read_at ext uri (VersionRef.commit id) level s

  -- A read at a point in time is the read at a newest of the stored commits of all scopes that are not
  -- after it; where there is none, it is an error.
  pub asof_read-newest :
      (uri : ContextUri) (level : ContentLevel) (s : Store)
      → IsReadAt uri level s
        ⊎ (((j : CommitId) (c : Commit) → Stands j c s.commits → ts < c.timestamp)
            × (asof_read ext uri (AsOfTime.timestamp ts) level s
                ≡ err (VersionError.not_found (text "no commit before " ++ ext.time.show_time ts))))
  unfolding asof_read
  asof_read-newest uri level s = elim (Option-cases (last_before ext ts s.commits none)) [
    | inl nothing ↦ inr (λ j c sd. none-late s.commits j c nothing sd, rw (nothing, asof_read) refl)
    | inr ((t, id), found) ↦ elim (last-origin s.commits none t id found) [
      | inl impossible ↦ absurd (ground arith)
      | inr (c, stands, at) ↦ inl (record {
        id = id;
        commit = c;
        stands = stands;
        in_time =
            let b = last-IsBefore ext ts s.commits none tt in
            let early : t ≤ ts = rw found at b in rw at early;
        newest = λ j d sd early.
            let r = last-newest ext ts s.commits none j d sd early in
            let later : d.timestamp ≤ t = rw found at r in rw at later;
        reads = rw (found, asof_read) refl;
      })
    ]
  ]
