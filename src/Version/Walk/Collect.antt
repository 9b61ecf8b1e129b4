-- ===== src/Version/Walk/Collect.antt =====
-- What `collect` returns, against reachability.
use uwu_context_db.Prelude.{
  ℕ, zero, suc, ◌≡◌, refl, ◌↔◌, ◌⊎◌, inl, inr, Bool, true, false, ◌||◌, some, List, [], ◌∷◌, arith,
  nat_beq, nat_eq, list_eq, pair_eq, nat_beq_iff, Bool-cases, contains, contains-cons_self,
}
use uwu_context_db.Version.Walk.{collect, Reach, here}
use uwu_context_db.Version.Walk.Sound.{
  Enters, IsClosed, IsFrontier, contains-cons, or_nil, drop_known, grow, IsFrontier-skip,
  IsFrontier-visit, frontier-done, Reach-closed, from_neighbours,
}

or_false : (b : Bool) → (b || false) ≡ true → b ≡ true
or_false b h = ground arith

abbrev never : ℕ → Bool
never id = false

module _ (next : ℕ → List ℕ) (enter : List ℕ → List ℕ → List ℕ) (en : Enters enter) where
  collect-IsClosed :
      (f : ℕ) (visited todo w : List ℕ)
      → collect next enter f visited todo ≡ some w
      → IsFrontier next enter en never visited todo
      → IsClosed next never w
        × ((v : ℕ) → (contains visited v || contains todo v) ≡ true → contains w v ≡ true)
  unfolding collect
  collect-IsClosed zero visited todo w h fr = absurd (ground arith)
  collect-IsClosed (suc f) visited [] w h fr =
      let e : visited ≡ w = ground arith in
      rw (← e) (frontier-done next enter en never visited fr, or_nil visited)
  collect-IsClosed (suc f) visited (id ∷ rest) w h fr = elim (Bool-cases (contains visited id)) [
    | inl old ↦
        let (closed, within) =
          collect-IsClosed f visited rest w (rw old at h)
            (IsFrontier-skip next enter en never visited rest id old fr) in
        (closed, λ v hv. within v (drop_known visited rest id v old hv))
    | inr new ↦
        let (closed, within) =
          collect-IsClosed f (id ∷ visited) (enter (next id) rest) w (rw new at h)
            (IsFrontier-visit next enter en never visited rest id refl fr) in
        (closed, λ v hv. within v (grow next enter en never visited rest id v hv))
  ]

  -- What is in a visited set that has just grown by `id`.
  first_visit :
      (id : ℕ) (visited rest : List ℕ) (r : ℕ)
      → contains (id ∷ visited) r ≡ true
      → (contains visited r ≡ true) ⊎ ((s : ℕ) × (contains (id ∷ rest) s ≡ true) × Reach next s r)
  unfolding contains
  first_visit id visited rest r h = elim (Bool-cases (nat_beq id r)) [
    | inl same ↦
        let e : id ≡ r = (nat_beq_iff id r).0 same in
        inr (id, contains-cons_self id rest, rw (← e) here)
    | inr other ↦ inl (ground arith)
  ]

  collect_reached :
      (f : ℕ) (visited todo w : List ℕ) (r : ℕ)
      → collect next enter f visited todo ≡ some w
      → contains w r ≡ true
      → (contains visited r ≡ true) ⊎ ((s : ℕ) × (contains todo s ≡ true) × Reach next s r)
  unfolding collect
  collect_reached zero visited todo w r h hr = absurd (ground arith)
  collect_reached (suc f) visited [] w r h hr = let e : visited ≡ w = ground arith in inl (rw e hr)
  collect_reached (suc f) visited (id ∷ rest) w r h hr = elim (Bool-cases (contains visited id)) [
    | inl old ↦ elim (collect_reached f visited rest w r (rw old at h) hr) [
      | inl v ↦ inl v
      | inr (s, hs, path) ↦ inr (s, contains-cons id s rest hs, path)
    ]
    | inr new ↦
        elim (collect_reached f (id ∷ visited) (enter (next id) rest) w r (rw new at h) hr) [
          | inl v ↦ first_visit id visited rest r v
          | inr (s, hs, path) ↦
              inr
                (from_neighbours next enter en never id rest s r (rw en.contains-enter at hs) path)
        ]
  ]

  start_reached :
      (f a : ℕ) (w : List ℕ) (r : ℕ)
      → collect next enter f [] (a ∷ []) ≡ some w
      → contains w r ≡ true
      → Reach next a r
  unfolding contains
  start_reached f a w r h hr = elim (collect_reached f [] (a ∷ []) w r h hr) [
    | inl v ↦ absurd (ground arith)
    | inr (s, hs, path) ↦
        let e : a ≡ s = (nat_beq_iff a s).0 (or_false (nat_beq a s) hs) in rw e path
  ]

  collect_all :
      (f a : ℕ) (w : List ℕ) (r : ℕ)
      → collect next enter f [] (a ∷ []) ≡ some w
      → Reach next a r
      → contains w r ≡ true
  unfolding contains
  collect_all f a w r h path =
      let (closed, within) =
        collect-IsClosed f [] (a ∷ []) w h
          (record { passed = λ v hv. cc; edges = λ v n hv hn. cc }) in
      Reach-closed next enter en never closed (within a (contains-cons_self a [])) path

  -- From one id, an id is collected exactly when it is reachable.
  pub collect_iff :
      (f a : ℕ) (w : List ℕ) (r : ℕ)
      → collect next enter f [] (a ∷ []) ≡ some w
      → (contains w r ≡ true) ↔ Reach next a r
  collect_iff f a w r h = (start_reached f a w r h, λ path. collect_all f a w r h path)

  -- From several ids, an id is collected exactly when it is reachable from one of them.
  pub collect_from_iff :
      (f : ℕ) (todo w : List ℕ) (r : ℕ)
      → collect next enter f [] todo ≡ some w
      → (contains w r ≡ true) ↔ ((s : ℕ) × (contains todo s ≡ true) × Reach next s r)
  unfolding contains
  collect_from_iff f todo w r h = (
    λ hr. elim (collect_reached f [] todo w r h hr) [ inl v ↦ absurd (ground arith) | inr v ↦ v ],
    λ from.
        let (s, hs, path) = from in
        let (closed, within) =
          collect-IsClosed f [] todo w h
            (record { passed = λ v hv. cc; edges = λ v n hv hn. cc }) in
        Reach-closed next enter en never closed (within s (ground (arith, hs))) path,
  )
