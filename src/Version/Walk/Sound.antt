-- ===== src/Version/Walk/Sound.antt =====
-- What a finished walk says of reachability.
use uwu_context_db.Prelude.{
  ℕ, zero, suc, ◌+◌, ◌≡◌, inl, inr, Bool, true, false, ◌||◌, none, some, List, [], ◌∷◌, arith,
  nat_eq, list_eq, pair_eq, nat_beq_iff, Bool-cases, length, contains, contains-cons_self,
}
use uwu_context_db.Version.Walk.{find, Reach, here, step, Reach-cons}

-- A walk adds exactly the neighbours.
pub record Enters (enter : List ℕ → List ℕ → List ℕ) : Type 0 where
  pub contains-enter :
      (xs s : List ℕ) (a : ℕ) → contains (enter xs s) a ≡ (contains xs a || contains s a)
  pub length-enter : (xs s : List ℕ) → length (enter xs s) ≡ length xs + length s

-- `W` is closed under `next`, without a hit.
pub record IsClosed (next : ℕ → List ℕ) (hit : ℕ → Bool) (w : List ℕ) : Type 0 where
  pub no_hit : (v : ℕ) → contains w v ≡ true → hit v ≡ false
  pub closed : (v n : ℕ) → contains w v ≡ true → contains (next v) n ≡ true → contains w n ≡ true

pub contains-cons : (id a : ℕ) (xs : List ℕ) → contains xs a ≡ true → contains (id ∷ xs) a ≡ true
unfolding contains
contains-cons id a xs h = ground arith

pub or_nil : (xs : List ℕ) (v : ℕ) → (contains xs v || contains [] v) ≡ true → contains xs v ≡ true
unfolding contains
or_nil xs v h = ground arith

-- A known id is no longer needed in the worklist.
pub drop_known :
    (visited rest : List ℕ) (id n : ℕ)
    → contains visited id ≡ true
    → (contains visited n || contains (id ∷ rest) n) ≡ true
    → (contains visited n || contains rest n) ≡ true
unfolding contains
drop_known visited rest id n old h = ground (arith, nat_beq_iff id n)

module _ (next : ℕ → List ℕ) (enter : List ℕ → List ℕ → List ℕ) (en : Enters enter)
    (hit : ℕ → Bool) where
  -- The visited ids have no hit, and their neighbours are visited or still to do.
  pub record IsFrontier (visited todo : List ℕ) : Type 0 where
    pub passed : (v : ℕ) → contains visited v ≡ true → hit v ≡ false
    pub edges :
        (v n : ℕ)
        → contains visited v ≡ true
        → contains (next v) n ≡ true
        → (contains visited n || contains todo n) ≡ true

  pub from_neighbours :
      (id : ℕ) (rest : List ℕ) (s r : ℕ)
      → (contains (next id) s || contains rest s) ≡ true
      → Reach next s r
      → (t : ℕ) × (contains (id ∷ rest) t ≡ true) × Reach next t r
  from_neighbours id rest s r hs path = elim (Bool-cases (contains (next id) s)) [
    | inl near ↦ (id, contains-cons_self id rest, Reach-cons next near path)
    | inr far ↦ (s, contains-cons id s rest (rw far at hs), path)
  ]

  pub find_sound :
      (f : ℕ) (visited todo : List ℕ) (r : ℕ)
      → find next enter hit f visited todo ≡ some (some r)
      → (hit r ≡ true) × ((s : ℕ) × (contains todo s ≡ true) × Reach next s r)
  unfolding find
  find_sound zero visited todo r h = absurd (ground arith)
  find_sound (suc f) visited [] r h = absurd (ground arith)
  find_sound (suc f) visited (id ∷ rest) r h = elim (Bool-cases (hit id)) [
    | inl yes_hit ↦
        let e : id ≡ r = ground arith in rw (← e) (yes_hit, (id, contains-cons_self id rest, here))
    | inr no_hit ↦ elim (Bool-cases (contains visited id)) [
      | inl old ↦
          let (hr, w) = find_sound f visited rest r (rw (no_hit, old) at h) in
          let (s, hs, path) = w in (hr, (s, contains-cons id s rest hs, path))
      | inr new ↦
          let (hr, w) =
            find_sound f (id ∷ visited) (enter (next id) rest) r (rw (no_hit, new) at h) in
          let (s, hs, path) = w in
          (hr, from_neighbours id rest s r (rw en.contains-enter at hs) path)
    ]
  ]

  pub IsFrontier-skip :
      (visited rest : List ℕ) (id : ℕ)
      → contains visited id ≡ true
      → IsFrontier visited (id ∷ rest)
      → IsFrontier visited rest
  IsFrontier-skip visited rest id old fr = record {
    passed = fr.passed;
    edges = λ v n hv hn. drop_known visited rest id n old (fr.edges v n hv hn);
  }

  pub IsFrontier-visit :
      (visited rest : List ℕ) (id : ℕ)
      → hit id ≡ false
      → IsFrontier visited (id ∷ rest)
      → IsFrontier (id ∷ visited) (enter (next id) rest)
  unfolding contains
  IsFrontier-visit visited rest id no_hit fr = record {
    passed = λ v hv. ground (arith, nat_beq_iff id v, fr.passed v);
    edges = λ v n hv hn.
        ground (arith, nat_beq_iff id v, fr.edges v n, en.contains-enter (next id) rest n);
  }

  pub frontier-done : (visited : List ℕ) → IsFrontier visited [] → IsClosed next hit visited
  unfolding contains
  frontier-done visited fr = record {
    no_hit = fr.passed;
    closed = λ v n hv hn. ground (arith, fr.edges v n hv hn);
  }

  pub grow :
      (visited rest : List ℕ) (id v : ℕ)
      → (contains visited v || contains (id ∷ rest) v) ≡ true
      → (contains (id ∷ visited) v || contains (enter (next id) rest) v) ≡ true
  unfolding contains
  grow visited rest id v h = ground (arith, nat_beq_iff id v, en.contains-enter (next id) rest v)

  -- Without a hit, what was visited and to do lies in a closed set without a hit.
  find-IsClosed :
      (f : ℕ) (visited todo : List ℕ)
      → find next enter hit f visited todo ≡ some none
      → IsFrontier visited todo
      → (w : List ℕ) × IsClosed next hit w
        × ((v : ℕ) → (contains visited v || contains todo v) ≡ true → contains w v ≡ true)
  unfolding find
  find-IsClosed zero visited todo h fr = absurd (ground arith)
  find-IsClosed (suc f) visited [] h fr = (visited, frontier-done visited fr, or_nil visited)
  find-IsClosed (suc f) visited (id ∷ rest) h fr = elim (Bool-cases (hit id)) [
    | inl yes_hit ↦ absurd (ground arith)
    | inr no_hit ↦ elim (Bool-cases (contains visited id)) [
      | inl old ↦
          let (w, closed, within) =
            find-IsClosed f visited rest (rw (no_hit, old) at h)
              (IsFrontier-skip visited rest id old fr) in
          (w, closed, λ v hv. within v (drop_known visited rest id v old hv))
      | inr new ↦
          let (w, closed, within) =
            find-IsClosed f (id ∷ visited) (enter (next id) rest) (rw (no_hit, new) at h)
              (IsFrontier-visit visited rest id no_hit fr) in
          (w, closed, λ v hv. within v (grow visited rest id v hv))
    ]
  ]

  -- Nothing outside a closed set is reached from inside.
  pub Reach-closed :
      {w : List ℕ} {a b : ℕ}
      → IsClosed next hit w
      → contains w a ≡ true
      → Reach next a b
      → contains w b ≡ true
  Reach-closed c ha here = ha
  Reach-closed c ha (step {b = m} {c = n} path edge) = c.closed m n (Reach-closed c ha path) edge

  -- A walk that ends without a hit from an empty visited set: nothing reachable is a hit.
  pub find_complete :
      (f : ℕ) (todo : List ℕ)
      → find next enter hit f [] todo ≡ some none
      → (s r : ℕ) → contains todo s ≡ true
      → Reach next s r
      → hit r ≡ false
  unfolding contains
  find_complete f todo h s r hs path =
      let (w, closed, within) =
        find-IsClosed f [] todo h (record { passed = λ v hv. cc; edges = λ v n hv hn. cc }) in
      closed.no_hit r (Reach-closed closed (within s hs) path)
